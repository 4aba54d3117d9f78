-- ===== src/Audio/System/Ending.antt =====
-- The way of the audio task to its return, while `Audio_end` waits for it.
use battery_info.Prelude.{
  ℕ, zero, suc, ◌+◌, length, ◌≤◌, ◌<◌, ◌≡◌, ◌≢◌, ◌⊎◌, ◌∙◌, Bool, Bool-cases, true, false, none,
  some, Option-cases, inl, inr, arith,
}
use battery_info.Audio.Queue.{get_message}
use battery_info.Audio.Queue.Invariant
use battery_info.Speaker.Env.{Env}
use battery_info.Audio.Control.{process_message, send_track, audio_set_volume}
use battery_info.Audio.System.{
  joining, TaskPc, absent, begin, check, get, quit, join_player, returned, wait, handle, PlayerPc,
  leaving, silencing, looping, awake, sounding, System, Step, Reach, IsInitial, task_step,
  player_step,
}
use battery_info.Audio.System.Invariant.{
  pitches_left, length-pitches_of_le, Inv, task_step-Inv, player_step-Inv, initial-Inv, Reach-Inv,
}

-- How far the player is from its return, when it is to end.
abbrev pub player_rank : PlayerPc → ℕ
player_rank (awake p) = 9
player_rank (sounding p fs) = 6 + length fs
player_rank (looping p) = 5
player_rank leaving = 4
player_rank silencing = 3
player_rank _ = 2

-- How far the task is from its return, while `Audio_end` waits for it.
abbrev pub rank : TaskPc → PlayerPc → ℕ
rank (wait b) p = 14
rank get p = 13
rank (handle m) p = 12
rank begin p = 12
rank check p = 11
rank quit p = 10
rank join_player p = player_rank p
rank absent p = 0
rank returned p = 0

-- One step of the task, or of the player where the task is blocked.
unfoldable pub advance : Env → System → System
advance env s = elim (task_step s) [
  | some t ↦ t
  | none ↦ elim (player_step env s) [ some t ↦ t | none ↦ s ]
]

unfoldable pub settle : (ℕ → Env) → ℕ → System → System
settle envs zero s = s
settle envs (suc n) s = settle envs n (advance (envs n) s)

-- `Audio_end` waits.
record IsJoining (s : System) : Type 0 where
  inv : Inv s
  joins : s.control ≡ joining

pub task_step-control : (s t : System) → task_step s ≡ some t → t.control ≡ s.control
unfolding task_step
task_step-control s t h = ground arith

pub player_step-control :
    (env : Env) (s t : System) → player_step env s ≡ some t → t.control ≡ s.control
unfolding player_step
player_step-control env s t h = ground arith

-- A round is a step of the system, or none is possible.
pub advance_cases :
    (env : Env) (s : System)
    → ((t : System) × (task_step s ≡ some t) × (advance env s ≡ t))
      ⊎ (((t : System) × (player_step env s ≡ some t) × (advance env s ≡ t)) ⊎ (advance env s ≡ s))
unfolding advance
advance_cases env s = elim (Option-cases (task_step s)) [
  | inl none_left ↦ elim (Option-cases (player_step env s)) [
    | inl blocked ↦ inr (inr (ground arith))
    | inr (t, e) ↦ inr (inl (t, e, ground arith))
  ]
  | inr (t, e) ↦ inl (t, e, ground arith)
]

advance-IsJoining : (env : Env) (s : System) → IsJoining s → IsJoining (advance env s)
advance-IsJoining env s j = elim (advance_cases env s) [
  | inl (t, e, a) ↦
      rw a (record { inv = task_step-Inv j.inv e; joins = task_step-control s t e ∙ j.joins })
  | inr (inl (t, e, a)) ↦ rw a (record {
    inv = player_step-Inv env j.inv e;
    joins = player_step-control env s t e ∙ j.joins;
  })
  | inr (inr a) ↦ rw a j
]

advance-rank :
    (env : Env) (s : System)
    → IsJoining s
    → s.task ≢ returned
    → rank (advance env s).task (advance env s).player < rank s.task s.player
unfolding advance task_step player_step get_message process_message
advance-rank env s j h = ground (arith, length-pitches_of_le s.audio.next_track_id s.player)

pub advance-returned :
    (env : Env) (s : System) → s.task ≡ returned → (advance env s).task ≡ returned
unfolding advance task_step player_step
advance-returned env s h = ground arith

pub settle-returned :
    (envs : ℕ → Env) (n : ℕ) (s : System) → s.task ≡ returned → (settle envs n s).task ≡ returned
unfolding settle
settle-returned envs zero s h = h
settle-returned envs (suc n) s h =
    settle-returned envs n (advance (envs n) s) (advance-returned (envs n) s h)

rank-pos : (env : Env) (s : System) → IsJoining s → s.task ≢ returned → 1 ≤ rank s.task s.player
rank-pos env s j h = omega (arith, advance-rank env s j h)

is_returned : TaskPc → Bool
is_returned returned = true
is_returned _ = false

pub returned_cases : (t : TaskPc) → (t ≡ returned) ⊎ (t ≢ returned)
unfolding is_returned
returned_cases t = elim (Bool-cases (is_returned t)) [
  | inl e ↦ inl (ground arith)
  | inr e ↦ inr (λ h. ground arith)
]

settle-rank :
    (envs : ℕ → Env) (n : ℕ) (s : System)
    → IsJoining s
    → rank s.task s.player ≤ n
    → (settle envs n s).task ≡ returned
unfolding settle
settle-rank envs zero s j h = elim (returned_cases s.task) [
  | inl e ↦ settle-returned envs 0 s e
  | inr ne ↦ absurd (omega (arith, rank-pos (envs 0) s j ne))
]
settle-rank envs (suc n) s j h = elim (returned_cases s.task) [
  | inl e ↦ settle-returned envs (suc n) s e
  | inr ne ↦
      settle-rank envs n (advance (envs n) s) (advance-IsJoining (envs n) s j)
        (omega (arith, advance-rank (envs n) s j ne))
]

pub rank-le : (t : TaskPc) (p : PlayerPc) → pitches_left p ≤ 2 → rank t p ≤ 14
rank-le t p h = ground arith

-- Whatever the threads have done since the program started: when `Audio_end` waits for the audio
-- task, the task returns within fourteen steps of its own or of the player (which moves when the task
-- is blocked), whatever the system answers to the speaker.
pub settle-joining :
    {Ok : Env → Type 0} (envs : ℕ → Env) (s t : System)
    → IsInitial s
    → Invariant.IsValid s.audio.queue
    → Reach Ok s t
    → t.control ≡ joining
    → (settle envs 14 t).task ≡ returned
settle-joining envs s t i v r c =
    let inv = Reach-Inv (initial-Inv s i v) r in
    settle-rank envs 14 t (record { inv = inv; joins = c }) (rank-le t.task t.player inv.pitches_le)

Step-rank :
    {Ok : Env → Type 0} (s t : System)
    → Step Ok s t
    → Inv s
    → s.control ≡ joining
    → t.control ≡ joining
    → rank t.task t.player ≤ rank s.task s.player
unfolding task_step player_step get_message process_message send_track audio_set_volume
Step-rank s t (Step.task e) v c d = ground arith
Step-rank s t (Step.player env ok e) v c d =
    ground (arith, length-pitches_of_le s.audio.next_track_id s.player)
Step-rank s t (Step.wake e) v c d = ground arith
Step-rank s t _ v c d = ground arith

-- Nor does any other thread hold the task up: as long as `Audio_end` waits, no step whatever of
-- the system takes the task further from its return.
pub rank-joining :
    {Ok : Env → Type 0} (s t u : System)
    → IsInitial s
    → Invariant.IsValid s.audio.queue
    → Reach Ok s t
    → Step Ok t u
    → t.control ≡ joining
    → u.control ≡ joining
    → rank u.task u.player ≤ rank t.task t.player
rank-joining s t u i v r st c d = Step-rank t u st (Reach-Inv (initial-Inv s i v) r) c d
