-- ===== src/Speaker/Off.antt =====
-- When the channel of Speaker.c is off.
use battery_info.Prelude.{
  ℕ, zero, suc, ◌≡◌, ◌≢◌, ◌==◌, ==_iff, sym, ◌∙◌, refl, Bool-cases, true, false, inl, inr, some,
  arith,
}
use battery_info.Prelude.Int.{pos}
use battery_info.Speaker.Env.{
  enable, duty_cycle, speaker_ended, speaker_inited, Speaker, Env, is_inited,
}
use battery_info.Speaker.Pitch.{last_value, Works, pwm_write_lem, write_pitch-effects}
use battery_info.Speaker.Pwm.{pwm_write, export_channel}
use battery_info.Speaker.Volume.{open_volume_pins, close_volume_pins, set_volume}
use battery_info.Speaker.Device.{init, write_pitch, play_pitch, de_init}

-- The register that turns the channel on does not hold 1.
abbrev pub IsOff : Speaker → Type 0
IsOff s = last_value enable s.effects ≢ some (pos 1)

-- A speaker that is not initialised, or has recorded silence, is off.
pub record IsQuiet (s : Speaker) : Type 0 where
  pub ended : s.state ≡ speaker_ended → IsOff s
  pub zero_freq : s.current_freq ≡ 0 → IsOff s

-- A call that neither turns the channel on or off nor plays a pitch nor ends the speaker.
pub record Same (s t : Speaker) : Type 0 where
  pub register : last_value enable t.effects ≡ last_value enable s.effects
  pub freq : t.current_freq ≡ s.current_freq
  pub state : t.state ≡ speaker_ended → s.state ≡ speaker_ended

pub Same-IsOff : {s t : Speaker} → Same s t → IsOff s → IsOff t
Same-IsOff same h = rw same.register h

pub Same-IsQuiet : {s t : Speaker} → Same s t → IsQuiet s → IsQuiet t
Same-IsQuiet same q = record {
  ended = λ e. rw same.register (q.ended (same.state e));
  zero_freq = λ e. rw same.register (q.zero_freq (rw same.freq at e));
}

pub init-Same : (env : Env) (s : Speaker) → Same s (init env s).1
unfolding init export_channel open_volume_pins
init-Same env s = ground arith

pub set_volume-Same : (env : Env) (level : ℕ) (s : Speaker) → Same s (set_volume env level s).1
unfolding set_volume
set_volume-Same env level s = ground arith

close_volume_pins-Same : (env : Env) (s : Speaker) → Same s (close_volume_pins env s)
unfolding close_volume_pins
close_volume_pins-Same env s = ground arith

-- What holds of a speaker before and behind a call that can be made.
pub inited : (s : Speaker) → is_inited s.state ≡ true → s.state ≡ speaker_inited
inited s h = ground arith

not_inited : (s : Speaker) → is_inited s.state ≡ false → s.state ≡ speaker_ended
not_inited s h = ground arith

silent_register : (env : Env) (s : Speaker) → Works env → IsOff (write_pitch env 0 s)
silent_register env s w = write_pitch-effects env 0 s w

pub play_pitch-IsOff :
    (env : Env) (s : Speaker) → Works env → IsQuiet s → IsOff (play_pitch env 0 s).1
unfolding play_pitch
play_pitch-IsOff env s w q = elim (Bool-cases (is_inited s.state)) [
  | inr e ↦ simp (w.speaker_lock, e) (q.ended (not_inited s e))
  | inl e ↦ elim (Bool-cases (0 == s.current_freq)) [
    | inl same ↦
        simp (w.speaker_lock, e, same) (q.zero_freq (sym ((==_iff 0 s.current_freq).0 same)))
    | inr new ↦ simp (w.speaker_lock, e, new) (silent_register env s w)
  ]
]

pub play_pitch-state :
    (env : Env) (f : ℕ) (s : Speaker)
    → s.state ≡ speaker_inited
    → (play_pitch env f s).1.state ≡ speaker_inited
unfolding play_pitch write_pitch pwm_write
play_pitch-state env f s i = ground arith

play_pitch-freq :
    (env : Env) (f : ℕ) (s : Speaker)
    → Works env
    → s.state ≡ speaker_inited
    → (play_pitch env f s).1.current_freq ≡ f
unfolding play_pitch
play_pitch-freq env f s w i = elim (Bool-cases (f == s.current_freq)) [
  | inl same ↦ simp (w.speaker_lock, i, same) (sym ((==_iff f s.current_freq).0 same))
  | inr new ↦ simp (w.speaker_lock, i, new) refl
]

-- A speaker that is not initialised refuses the call.
play_pitch-ended :
    (env : Env) (f : ℕ) (s : Speaker) → is_inited s.state ≡ false → (play_pitch env f s).1 ≡ s
unfolding play_pitch
play_pitch-ended env f s e = ground arith

pub play_pitch-IsQuiet :
    (env : Env) (f : ℕ) (s : Speaker) → Works env → IsQuiet s → IsQuiet (play_pitch env f s).1
play_pitch-IsQuiet env zero s w q =
    let off = play_pitch-IsOff env s w q in record { ended = λ e. off; zero_freq = λ e. off }
play_pitch-IsQuiet env (suc f) s w q = elim (Bool-cases (is_inited s.state)) [
  | inr e ↦ rw (play_pitch-ended env (suc f) s e) q
  | inl e ↦
      let stays = play_pitch-state env (suc f) s (inited s e) in
      let new = play_pitch-freq env (suc f) s w (inited s e) in
      record { ended = λ h. (let bad = sym stays ∙ h in cc); zero_freq = λ h. absurd (omega arith) }
]

closed_register :
    (env : Env) (s : Speaker)
    → Works env
    → IsOff
        (close_volume_pins env (pwm_write env enable (pos 0) (pwm_write env duty_cycle (pos 0) s)))
closed_register env s w =
    Same-IsOff (close_volume_pins-Same env _) (simp (pwm_write_lem env, w) (λ e. cc))

-- Behind `Speaker_DeInit` the speaker is off.
pub de_init-IsQuiet : (env : Env) (s : Speaker) → Works env → IsQuiet s → IsQuiet (de_init env s).1
unfolding de_init
de_init-IsQuiet env s w q = elim (Bool-cases (is_inited s.state)) [
  | inr e ↦ simp (w.speaker_lock, e) q
  | inl e ↦
      let off = closed_register env s w in
      simp (w.speaker_lock, e) (record { ended = λ h. off; zero_freq = λ h. off })
]

pub de_init-IsOff :
    (env : Env) (s : Speaker) → Works env → IsQuiet s → IsOff s → IsOff (de_init env s).1
unfolding de_init
de_init-IsOff env s w q o = elim (Bool-cases (is_inited s.state)) [
  | inr e ↦ simp (w.speaker_lock, e) o
  | inl e ↦ simp (w.speaker_lock, e) (closed_register env s w)
]
