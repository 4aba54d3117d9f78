-- ===== src/Speaker/Device.antt =====
-- The interface: `Speaker_Init`, `Speaker_PlayPitch`, `Speaker_DeInit`.
use battery_info.Prelude.{ℕ, ◌/◌, not, List, [], ◌∷◌, none, some, ◌==◌, if◌then◌else◌}
use battery_info.Prelude.Int.{pos}
use battery_info.Speaker.Env.{
  period, duty_cycle, enable, speaker_inited, speaker_ended, Speaker, Env, is_inited,
  speaker_error_none, speaker_error_sysfs, speaker_error_state, speaker_error_mutex,
}
use battery_info.Speaker.Pwm.{to_int, find_dir, pwm_write, export_channel}
use battery_info.Speaker.Volume.{open_volume_pins, close_volume_pins}

-- The pins, once the channel is exported; only then does the state change.
init_pins : Env → Speaker → ℕ × Speaker
unfolding open_volume_pins
init_pins env s =
    let (error, s') = open_volume_pins env s in
    if error == speaker_error_none
    then (error, record s' { state = speaker_inited })
    else (error, s')

init_channel : Env → Speaker → ℕ × Speaker
unfolding init_pins export_channel
init_channel env s =
    let (error, s') = export_channel env s in
    if error == speaker_error_none then init_pins env s' else (error, s')

-- `Speaker_Init`
unfoldable pub init : Env → Speaker → ℕ × Speaker
unfolding init_channel
init env s =
    if env.speaker_lock_fails
    then (speaker_error_mutex, s)
    else if is_inited s.state
    then (speaker_error_state, s)
    else elim env.pwm_dev_dir [
      | none ↦ (speaker_error_sysfs, s)
      | some names ↦ init_channel env (record s { speaker_dir = find_dir names s.speaker_dir })
    ]

-- The writes of `Speaker_PlayPitch`: for a tone the period, half of it, and 1; for silence 0, 0.
unfoldable pub write_pitch : Env → ℕ → Speaker → Speaker
write_pitch env f s =
    if f == 0
    then pwm_write env enable (pos 0) (pwm_write env duty_cycle (pos 0) s)
    else let p = env.period_ns f in
      pwm_write env enable (pos 1)
        (pwm_write env duty_cycle (to_int (p / 2)) (pwm_write env period (to_int p) s))

-- `Speaker_PlayPitch`
unfoldable pub play_pitch : Env → ℕ → Speaker → ℕ × Speaker
play_pitch env f s =
    if env.speaker_lock_fails
    then (speaker_error_mutex, s)
    else if not (is_inited s.state)
    then (speaker_error_state, s)
    else if f == s.current_freq
    then (speaker_error_none, s)
    else (speaker_error_none, record (write_pitch env f s) { current_freq = f })

-- The calls of `Speaker_PlayPitch` for some pitches, one after the other.
unfoldable pub feed : Env → List ℕ → Speaker → Speaker
feed env [] s = s
feed env (f ∷ fs) s = feed env fs (play_pitch env f s).1

-- `Speaker_DeInit`
unfoldable pub de_init : Env → Speaker → ℕ × Speaker
de_init env s =
    if env.speaker_lock_fails
    then (speaker_error_mutex, s)
    else if not (is_inited s.state)
    then (speaker_error_state, s)
    else let s1 = pwm_write env enable (pos 0) (pwm_write env duty_cycle (pos 0) s) in
      (speaker_error_none, record (close_volume_pins env s1) { state = speaker_ended })
