-- ===== src/Audio/System/Race.antt =====
-- `Audio_start` between pthread_create and the assignment of Running.
use battery_info.Prelude.{
  ℕ, zero, suc, ◌≤◌, ◌<◌, ◌≡◌, refl, ◌∙◌, ◌≢◌, true, false, none, inl, inr, arith,
}
use battery_info.Audio.Error.{inited, running}
use battery_info.Speaker.Env.{Env}
use battery_info.Audio.Queue.{get_message}
use battery_info.Audio.Control.{audio_started, process_message}
use battery_info.Audio.System.{
  free, created, TaskPc, PlayerPc, begin, returned, System, Step, Reach, task_step, player_step,
}
use battery_info.Audio.System.Invariant.{
  pitches_left, length-pitches_of_le, wants_message, is_alive, has_player,
}
use battery_info.Audio.System.Ending.{
  rank, advance, settle, advance_cases, returned_cases, advance-returned, settle-returned,
  task_step-control, player_step-control,
}

-- The task sees no Running and waits for no message.
record IsLeaving (s : System) : Type 0 where
  there : is_alive s.task ≡ true
  stops : s.audio.my_state ≢ running
  awake : wants_message s.task ≡ false
  player_there : has_player s.task ≡ true → s.player ≢ PlayerPc.no_player
  pitches_le : has_player s.task ≡ true → pitches_left s.player ≤ 2
  player_ending : s.task ≡ TaskPc.join_player → s.audio.player_state ≢ running

advance-IsLeaving : (env : Env) (s : System) → IsLeaving s → IsLeaving (advance env s)
unfolding advance task_step player_step get_message process_message
advance-IsLeaving env s v = ground (arith, length-pitches_of_le s.audio.next_track_id s.player)

advance-rank :
    (env : Env) (s : System)
    → IsLeaving s
    → s.task ≢ returned
    → rank (advance env s).task (advance env s).player < rank s.task s.player
unfolding advance task_step player_step get_message process_message
advance-rank env s v h = ground (arith, length-pitches_of_le s.audio.next_track_id s.player)

settle-rank :
    (env : Env) (n : ℕ) (s : System)
    → IsLeaving s
    → rank s.task s.player ≤ n
    → (settle (λ k. env) n s).task ≡ returned
unfolding settle
settle-rank env zero s v h = elim (returned_cases s.task) [
  | inl e ↦ e
  | inr ne ↦ absurd (omega (arith, advance-rank env s v ne))
]
settle-rank env (suc n) s v h = elim (returned_cases s.task) [
  | inl e ↦ settle-returned (λ k. env) n (advance env s) (advance-returned env s e)
  | inr ne ↦
      settle-rank env n (advance env s) (advance-IsLeaving env s v)
        (omega (arith, advance-rank env s v ne))
]

-- What the task and the player do alone is a run of the system, which the other threads may join.
record IsRun (Ok : Env → Type 0) (s t : System) : Type 0 where
  run : Reach Ok s t
  control : t.control ≡ s.control

advance-IsRun :
    {Ok : Env → Type 0} (env : Env) {s : System} (t : System)
    → Ok env
    → IsRun Ok s t
    → IsRun Ok s (advance env t)
advance-IsRun env t ok r = elim (advance_cases env t) [
  | inl (u, e, a) ↦ rw a (record {
    run = Reach.next r.run (Step.task e);
    control = task_step-control t u e ∙ r.control;
  })
  | inr (inl (u, e, a)) ↦ rw a (record {
    run = Reach.next r.run (Step.player env ok e);
    control = player_step-control env t u e ∙ r.control;
  })
  | inr (inr a) ↦ rw a r
]

settle-IsRun :
    {Ok : Env → Type 0} (env : Env) {s : System} (n : ℕ) (t : System)
    → Ok env
    → IsRun Ok s t
    → IsRun Ok s (settle (λ k. env) n t)
unfolding settle
settle-IsRun env zero t ok r = r
settle-IsRun env (suc n) t ok r = settle-IsRun env n (advance env t) ok (advance-IsRun env t ok r)

-- The task has returned, and `Audio_start` has set Running behind it.
pub record IsDeaf (s : System) : Type 0 where
  pub state : s.audio.my_state ≡ running
  pub gone : s.task ≡ returned
  pub idle : s.control ≡ free
  pub blocked : task_step s ≡ none

-- From every state in which `Audio_start` has just created the task, and has not yet set Running,
-- the system can come to one in which Running is set and the task has returned: then
-- `Audio_PlayTrack` takes messages, and no task is there to handle them.
pub Reach-IsDeaf :
    {Ok : Env → Type 0} (env : Env) (s : System)
    → Ok env
    → s.control ≡ created
    → s.task ≡ begin
    → s.audio.my_state ≡ inited
    → (t : System) × Reach Ok s t × IsDeaf t
unfolding audio_started task_step
Reach-IsDeaf {Ok} env s ok c b i =
    let t : System = settle (λ k. env) 14 s in
    let r : IsRun Ok s t = settle-IsRun env 14 s ok (record { run = Reach.here; control = refl }) in
    let gone : t.task ≡ returned = settle-rank env 14 s (ground arith) (rw b (omega arith)) in
    (
      record t { audio = audio_started t.audio; control = free },
      Reach.next r.run (Step.start_return (r.control ∙ c)),
      record { state = refl; gone = gone; idle = refl; blocked = ground arith },
    )
