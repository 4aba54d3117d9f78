-- ===== src/Speaker/Failure.antt =====
-- What is left behind: a failed initialisation, and the frequency that survives `Speaker_DeInit`.
use battery_info.Prelude.{ℕ, ◌≡◌, refl, ◌∙◌, ◌≢◌, some, arith}
use battery_info.Prelude.Int.{pos}
use battery_info.Speaker.Env.{enable, speaker_inited, speaker_ended, Speaker, Env}
use battery_info.Speaker.Volume.{close_volume_pins}
use battery_info.Speaker.Device.{init, play_pitch, de_init}
use battery_info.Speaker.Pitch.{last_value, Works, pwm_write_lem}

init-failed :
    (env : Env) (s : Speaker)
    → s.state ≡ speaker_ended
    → (init env s).0 ≢ 0
    → (init env s).1.state ≡ speaker_ended
unfolding init
init-failed env s e h = ground arith

de_init-ended : (env : Env) (s : Speaker) → s.state ≡ speaker_ended → (de_init env s).1 ≡ s
unfolding de_init
de_init-ended env s e = ground arith

-- When `Speaker_Init` fails on a speaker that is not initialised, a `Speaker_DeInit` behind it has no
-- effect: a chip or a line that the failed call has opened stays open.
de_init-init_failed :
    (env env' : Env) (s : Speaker)
    → s.state ≡ speaker_ended
    → (init env s).0 ≢ 0
    → (de_init env' (init env s).1).1 ≡ (init env s).1
de_init-init_failed env env' s e h = de_init-ended env' (init env s).1 (init-failed env s e h)

-- `Speaker_Init` keeps the current frequency and the enable register.
init-kept :
    (env : Env) (s : Speaker)
    → ((init env s).1.current_freq ≡ s.current_freq)
      × (last_value enable (init env s).1.effects ≡ last_value enable s.effects)
unfolding init
init-kept env s = ground arith

init-ok : (env : Env) (s : Speaker) → (init env s).0 ≡ 0 → (init env s).1.state ≡ speaker_inited
unfolding init
init-ok env s h = ground arith

close_volume_pins-current_freq :
    (env : Env) (s : Speaker) → (close_volume_pins env s).current_freq ≡ s.current_freq
unfolding close_volume_pins
close_volume_pins-current_freq env s = ground arith

close_volume_pins-enable :
    (env : Env) (s : Speaker)
    → last_value enable (close_volume_pins env s).effects ≡ last_value enable s.effects
unfolding close_volume_pins
close_volume_pins-enable env s = ground arith

pub de_init-kept :
    (env : Env) (s : Speaker)
    → Works env
    → s.state ≡ speaker_inited
    → ((de_init env s).1.current_freq ≡ s.current_freq)
      × (last_value enable (de_init env s).1.effects ≡ some (pos 0))
unfolding de_init
de_init-kept env s w i =
    simp
      (
        w.speaker_lock,
        i,
        close_volume_pins-current_freq env,
        close_volume_pins-enable env,
        pwm_write_lem env,
        w,
      )
      (refl, refl)

play_pitch-same :
    (env : Env) (f : ℕ) (s : Speaker)
    → Works env
    → s.state ≡ speaker_inited
    → s.current_freq ≡ f
    → play_pitch env f s ≡ (0, s)
unfolding play_pitch
play_pitch-same env f s w i e = ground (arith, w.speaker_lock)

-- The frequency that is current when the speaker is deinitialised cannot be played again after the
-- next initialisation: the deinitialisation turns the channel off, and the call for the same
-- frequency reports success, changes nothing, and leaves the channel off.
pub play_pitch-restart :
    (env : Env) (f : ℕ) (s : Speaker)
    → Works env
    → s.state ≡ speaker_inited
    → s.current_freq ≡ f
    → let s1 = (de_init env s).1 in
      let (error, s2) = init env s1 in
      error ≡ 0 → (play_pitch env f s2 ≡ (0, s2)) × (last_value enable s2.effects ≡ some (pos 0))
play_pitch-restart env f s w i e ok =
    let s1 = (de_init env s).1 in
    let (freq, off) = de_init-kept env s w i in
    let (freq', off') = init-kept env s1 in
    (play_pitch-same env f (init env s1).1 w (init-ok env s1 ok) (freq' ∙ freq ∙ e), off' ∙ off)
