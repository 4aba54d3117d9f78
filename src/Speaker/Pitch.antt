-- ===== src/Speaker/Pitch.antt =====
-- `Speaker_PlayPitch` and the registers of the PWM channel.
use battery_info.Prelude.{
  ℕ, zero, suc, ◌/◌, ◌≡◌, refl, sym, ==_iff, ◌≢◌, Bool, true, false, List, [], ◌∷◌, Option, none,
  some, ◌==◌, if◌then◌else◌, arith, Bool-cases, inl, inr,
}
use battery_info.Prelude.Int.{ℤ, pos}
use battery_info.Speaker.Env.{
  PwmFile, export, period, duty_cycle, enable, Effect, wrote, set_line, released, closed,
  speaker_inited, Speaker, emit, Env,
}
use battery_info.Prelude.Text.{Text}
use battery_info.Speaker.Pwm.{to_int, subdir_file, pwm_write}
use battery_info.Speaker.Device.{write_pitch, play_pitch}

abbrev is_file : PwmFile → PwmFile → Bool
is_file export export = true
is_file period period = true
is_file duty_cycle duty_cycle = true
is_file enable enable = true
is_file _ _ = false

-- What a register of the channel holds: the last value written to its file.
abbrev pub last_value : PwmFile → List Effect → Option ℤ
last_value f [] = none
last_value f (wrote g path v ∷ es) = if is_file f g then some v else last_value f es
last_value f (set_line l v ∷ es) = last_value f es
last_value f (released l ∷ es) = last_value f es
last_value f (closed c ∷ es) = last_value f es

-- The channel gives frequency `f`: it is off at 0, and else it is on, with the period of `f` and
-- half of it as the duty cycle.
abbrev pub Sounding : (ℕ → ℕ) → ℕ → List Effect → Type 0
Sounding period_ns zero es = last_value enable es ≢ some (pos 1)
Sounding period_ns (suc f) es =
    (last_value enable es ≡ some (pos 1))
    × (last_value period es ≡ some (to_int (period_ns (suc f))))
    × (last_value duty_cycle es ≡ some (to_int (period_ns (suc f) / 2)))

-- During the call the mutexes can be locked and the files written.
pub record Works (env : Env) : Type 0 where
  pub speaker_lock : env.speaker_lock_fails ≡ false
  pub volume_lock : env.volume_lock_fails ≡ false
  pub fopen : (p : Text) → env.fopen_fails p ≡ false
  pub fprintf : (p : Text) → env.fprintf_fails p ≡ false

pub pwm_write_lem :
    (env : Env) (f : PwmFile) (v : ℤ) (s : Speaker)
    → Works env
    → pwm_write env f v s ≡ emit (wrote f (subdir_file s.speaker_dir f) v) s
unfolding pwm_write
pwm_write_lem env f v s w =
    ground (arith, w.fopen (subdir_file s.speaker_dir f), w.fprintf (subdir_file s.speaker_dir f))

suc-==-zero : (f : ℕ) → (suc f == 0) ≡ false
suc-==-zero f = ground arith

-- The writes for a frequency leave the channel giving it.
pub write_pitch-effects :
    (env : Env) (f : ℕ) (s : Speaker)
    → Works env
    → (Sounding env.period_ns f (write_pitch env f s).effects)
unfolding write_pitch
write_pitch-effects env zero s w = simp (pwm_write_lem env, w) (λ e. cc)
write_pitch-effects env (suc f) s w = simp (suc-==-zero, pwm_write_lem env, w) (refl, refl, refl)

-- Where the files can be written, the channel of an initialised speaker that gives its current
-- frequency gives the new one after the call, which records it; also where it writes nothing
-- because the frequency is the same.
pub play_pitch-Sounding :
    (env : Env) (f : ℕ) (s : Speaker)
    → Works env
    → s.state ≡ speaker_inited
    → Sounding env.period_ns s.current_freq s.effects
    → let (error, s') = play_pitch env f s in
      (error ≡ 0) × (s'.current_freq ≡ f) × Sounding env.period_ns f s'.effects
unfolding play_pitch
play_pitch-Sounding env f s w i h = elim (Bool-cases (f == s.current_freq)) [
  | inl same ↦
      let e : f ≡ s.current_freq = (==_iff f s.current_freq).0 same in
      simp (w.speaker_lock, i, same) (refl, sym e, rw e h)
  | inr new ↦ simp (w.speaker_lock, i, new) (refl, refl, write_pitch-effects env f s w)
]
