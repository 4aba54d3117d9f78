-- ===== src/Audio/System/Silence.antt =====
-- The speaker behind the threads of Audio.c.
use battery_info.Prelude.{◌∷◌, ℕ, ◌≡◌, refl, Bool, true, false, some, arith}
use battery_info.Speaker.Env.{Env, Speaker}
use battery_info.Speaker.Pitch.{Works}
use battery_info.Speaker.Off.{
  IsOff, IsQuiet, Same-IsOff, Same-IsQuiet, init-Same, set_volume-Same, play_pitch-IsQuiet,
  play_pitch-IsOff, de_init-IsQuiet, de_init-IsOff,
}
use battery_info.Audio.Queue.{init_messaging, get_message, send_message}
use battery_info.Audio.Control.{
  Audio, Answers, audio_init, audio_started, audio_close, audio_send_end, send_track,
  process_message, audio_set_volume,
}
use battery_info.Audio.System.{
  PlayerPc, no_player, stopped, looping, sounding, silencing, is_gone, System, Step, Reach,
  IsInitial, task_step, player_step,
}

-- The player is there and has not returned.
abbrev pub is_active : PlayerPc → Bool
is_active no_player = false
is_active stopped = false
is_active _ = true

-- The speaker is off unless the player is active, which it is not without a task.
record Inv (s : System) : Type 0 where
  quiet : IsQuiet s.audio.speaker
  off : is_active s.player ≡ false → IsOff s.audio.speaker
  gone : is_gone s.task ≡ true → is_active s.player ≡ false

-- What a call leaves of the speaker: it is quiet again, and off if it was off.
record Keeps (s t : Speaker) : Type 0 where
  quiet : IsQuiet s → IsQuiet t
  off : IsQuiet s → IsOff s → IsOff t

audio_init-Keeps : (w : Answers) (a : Audio) → Keeps a.speaker (audio_init w a).1.speaker
unfolding audio_init init_messaging
audio_init-Keeps w a =
    let same = init-Same w.system a.speaker in
    let quiet = Same-IsQuiet same in let off = Same-IsOff same in ground arith

audio_close-Keeps :
    (w : Answers) (a : Audio) → Works w.system → Keeps a.speaker (audio_close w a).1.speaker
unfolding audio_close
audio_close-Keeps w a ok =
    let quiet = de_init-IsQuiet w.system a.speaker ok in
    let off = de_init-IsOff w.system a.speaker ok in ground arith

audio_set_volume-Keeps :
    (w : Answers) (level : ℕ) (a : Audio) → Keeps a.speaker (audio_set_volume w level a).1.speaker
unfolding audio_set_volume
audio_set_volume-Keeps w level a =
    let same = set_volume-Same w.system level a.speaker in
    record { quiet = Same-IsQuiet same; off = λ q. Same-IsOff same }

-- A call that only changes the speaker.
speaker-Inv :
    {s : System} (t : System)
    → Keeps s.audio.speaker t.audio.speaker
    → t.task ≡ s.task
    → t.player ≡ s.player
    → Inv s
    → Inv t
speaker-Inv t k e f v = record {
  quiet = k.quiet v.quiet;
  off = λ h. k.off v.quiet (v.off (rw f at h));
  gone = λ h. rw f (v.gone (rw e at h));
}

player_cases :
    (env : Env) {s t : System} (p : PlayerPc)
    → Works env
    → Inv s
    → s.player ≡ p
    → player_step env s ≡ some t
    → Inv t
unfolding player_step
player_cases env {s} (sounding p (f ∷ fs)) w v e h =
    let quiet = play_pitch-IsQuiet env f s.audio.speaker w v.quiet in ground arith
player_cases env {s} silencing w v e h =
    let quiet = play_pitch-IsQuiet env 0 s.audio.speaker w v.quiet in
    let off = play_pitch-IsOff env s.audio.speaker w v.quiet in ground arith
player_cases env (looping p) w v e h = ground arith
player_cases env _ w v e h = ground arith

player_step-Inv :
    (env : Env) {s t : System} → Works env → Inv s → player_step env s ≡ some t → Inv t
player_step-Inv env {s} w v h = player_cases env s.player w v refl h

task_step-Inv : {s t : System} → Inv s → task_step s ≡ some t → Inv t
unfolding task_step process_message get_message
task_step-Inv {s} {t} v h = ground arith

Step-Inv : {s t : System} → Step Works s t → Inv s → Inv t
unfolding audio_started audio_send_end send_track send_message
Step-Inv (Step.task e) v = task_step-Inv v e
Step-Inv (Step.player env ok e) v = player_step-Inv env ok v e
Step-Inv (Step.wake e) v = ground arith
Step-Inv {s} (Step.init_call w ok e) v = speaker-Inv _ (audio_init-Keeps w s.audio) refl refl v
Step-Inv (Step.start_call w e ok gone) v = ground arith
Step-Inv (Step.start_return e) v = ground arith
Step-Inv (Step.end_call e r) v = ground arith
Step-Inv {s} (Step.end_send w e h l) v = ground arith
Step-Inv {s} (Step.end_return w ok e r) v =
    speaker-Inv _ (audio_close-Keeps w s.audio ok) refl refl v
Step-Inv {s} (Step.end_idle w ok e a b) v =
    speaker-Inv _ (audio_close-Keeps w s.audio ok) refl refl v
Step-Inv {s} (Step.volume_call w n ok) v =
    speaker-Inv _ (audio_set_volume-Keeps w n s.audio) refl refl v
Step-Inv (Step.play_call i t m) v = ground arith
Step-Inv {s} (Step.play_send w i t c h) v = ground arith

Reach-Inv : {s t : System} → Inv s → Reach Works s t → Inv t
Reach-Inv v Reach.here = v
Reach-Inv v (Reach.next r st) = Step-Inv st (Reach-Inv v r)

-- Whatever the threads have done since the program started, with the channel of the speaker off, and
-- in whatever order: the channel is off whenever the player is not there or has returned, so
-- while no task runs and behind every end of one. The mutexes of the speaker can be locked and its files written.
pub Reach-IsOff :
    (s t : System)
    → IsInitial s
    → IsOff s.audio.speaker
    → Reach Works s t
    → is_active t.player ≡ false
    → IsOff t.audio.speaker
Reach-IsOff s t i o r h =
    let quiet : IsQuiet s.audio.speaker = record { ended = λ e. o; zero_freq = λ e. o } in
    (Reach-Inv (ground arith) r).off h
