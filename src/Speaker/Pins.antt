-- ===== src/Speaker/Pins.antt =====
-- The volume pins: what an initialised speaker has, and what a level sets.
use battery_info.Prelude.{
  ℕ, zero, suc, ◌/◌, ◌%◌, ◌≤◌, ◌≡◌, ◌≢◌, false, leb, if◌then◌else◌, List, [], ◌∷◌, none, some,
  arith,
}
use battery_info.Speaker.Env.{set_line, speaker_inited, Speaker, Env, speaker_error_out_of_bounds}
use battery_info.Speaker.Volume.{open_volume_pins, close_volume_pins, set_volume, pin_value}
use battery_info.Speaker.Pwm.{pwm_write}
use battery_info.Speaker.Device.{init, write_pitch, play_pitch, de_init}

-- An initialised speaker has its chip and both lines.
pub record HasPins (s : Speaker) : Type 0 where
  pub chip_open : s.chip ≢ none
  pub en1_open : s.en1_line ≢ none
  pub en2_open : s.en2_line ≢ none

abbrev pub IsValid : Speaker → Type 0
IsValid s = s.state ≡ speaker_inited → HasPins s

open_volume_pins-HasPins :
    (env : Env) (s : Speaker) → (open_volume_pins env s).0 ≡ 0 → HasPins (open_volume_pins env s).1
unfolding open_volume_pins
open_volume_pins-HasPins env s h = ground arith

init-IsValid : (env : Env) (s : Speaker) → IsValid s → IsValid (init env s).1
unfolding init
init-IsValid env s v h = ground arith

play_pitch-IsValid : (env : Env) (f : ℕ) (s : Speaker) → IsValid s → IsValid (play_pitch env f s).1
unfolding play_pitch write_pitch pwm_write
play_pitch-IsValid env f s v h = ground (arith, v)

de_init-IsValid : (env : Env) (s : Speaker) → IsValid s → IsValid (de_init env s).1
unfolding de_init close_volume_pins pwm_write
de_init-IsValid env s v h = ground (arith, v)

set_volume-IsValid : (env : Env) (n : ℕ) (s : Speaker) → IsValid s → IsValid (set_volume env n s).1
unfolding set_volume
set_volume-IsValid env n s v h = ground (arith, v)

-- A call of the interface, with what the system answers during it.
pub data Call : Type 0 where
  init_call de_init_call : Env → Call
  play_pitch_call set_volume_call : Env → ℕ → Call

unfoldable pub step : Speaker → Call → ℕ × Speaker
step s (init_call env) = init env s
step s (de_init_call env) = de_init env s
step s (play_pitch_call env f) = play_pitch env f s
step s (set_volume_call env n) = set_volume env n s

-- The state after a row of calls.
unfoldable pub run : List Call → Speaker → Speaker
run [] s = s
run (c ∷ cs) s = run cs (step s c).1

step-IsValid : (c : Call) (s : Speaker) → IsValid s → IsValid (step s c).1
unfolding step
step-IsValid (init_call env) s v = init-IsValid env s v
step-IsValid (de_init_call env) s v = de_init-IsValid env s v
step-IsValid (play_pitch_call env f) s v = play_pitch-IsValid env f s v
step-IsValid (set_volume_call env n) s v = set_volume-IsValid env n s v

-- From a speaker that is not initialised, and through any calls whatever the system answers to
-- them: whenever the speaker counts as initialised, its chip and both of its lines are open.
pub run-HasPins :
    (calls : List Call) (s : Speaker)
    → IsValid s
    → (run calls s).state ≡ speaker_inited
    → HasPins (run calls s)
unfolding run
run-HasPins [] s v h = v h
run-HasPins (c ∷ cs) s v h = run-HasPins cs (step s c).1 (step-IsValid c s v) h

pin_bits :
    (level : ℕ) → level ≤ 3 → (pin_value level 1 ≡ level % 2) × (pin_value level 2 ≡ level / 2)
pin_bits zero h = omega arith
pin_bits (suc zero) h = omega arith
pin_bits (suc (suc zero)) h = omega arith
pin_bits (suc (suc (suc zero))) h = omega arith
pin_bits (suc (suc (suc (suc n)))) h = absurd (omega arith)

-- Where both lines are open and the pins can be written, a level of at most 3 sets the second
-- pin to its low bit and then the first pin to its high bit, and changes nothing else; a greater
-- level is refused as out of bounds, and changes nothing.
pub set_volume_lem :
    (env : Env) (level l1 l2 : ℕ) (s : Speaker)
    → env.volume_lock_fails ≡ false
    → ((l v : ℕ) → env.line_set_value_fails l v ≡ false)
    → s.en1_line ≡ some l1
    → s.en2_line ≡ some l2
    → set_volume env level s ≡ (
        if leb level 3
        then (
          0,
          record s { effects = set_line l1 (level / 2) ∷ set_line l2 (level % 2) ∷ s.effects },
        )
        else (speaker_error_out_of_bounds, s))
unfolding set_volume
set_volume_lem env level l1 l2 s lock works e1 e2 =
    ground (arith, pin_bits level, works l2 (pin_value level 1), works l1 (pin_value level 2))
