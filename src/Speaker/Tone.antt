-- ===== src/Speaker/Tone.antt =====
-- The speaker of Speaker.c as its callers see it, and what each call does to a state that stands for it.
use battery_info.Prelude.{
  ℕ, zero, suc, ◌≡◌, refl, Bool, Option-cases, true, false, not, leb, ◌==◌, List, none, some,
  if◌then◌else◌, arith, inl, inr,
}
use battery_info.Prelude.Text.{Text, codes}
use battery_info.Speaker.Env.{
  export, period, duty_cycle, enable, speaker_inited, Speaker, Env, is_inited, speaker_error_none,
  speaker_error_out_of_bounds, speaker_error_state, speaker_error_sysfs,
}
use battery_info.Speaker.Pwm.{subdir_file, find_dir, pwm_write, export_channel}
use battery_info.Speaker.Volume.{open_chip, open_volume_pins, close_volume_pins, set_volume}
use battery_info.Speaker.Device.{init, write_pitch, play_pitch, de_init}
use battery_info.Speaker.Pitch.{last_value, Sounding, Works}
use battery_info.Speaker.Pins.{
  Call, init_call, de_init_call, play_pitch_call, set_volume_call, set_volume_lem,
}

-- The speaker as its callers see it: whether it is initialised, the frequency that sounds (0 for
-- none), and the one that was asked for last.
pub record Tone : Type 0 where
  pub active : Bool
  pub sounds : ℕ
  pub asked : ℕ

unfoldable pub tone_step : Tone → Call → ℕ × Tone
tone_step t (init_call env) =
    if t.active then (speaker_error_state, t) else (speaker_error_none, record t { active = true })
tone_step t (de_init_call env) =
    if t.active
    then (speaker_error_none, record t { active = false; sounds = 0 })
    else (speaker_error_state, t)
tone_step t (play_pitch_call env f) =
    if not t.active
    then (speaker_error_state, t)
    else if f == t.asked
    then (speaker_error_none, t)
    else (speaker_error_none, record t { sounds = f; asked = f })
tone_step t (set_volume_call env n) = (
  if not t.active
      then speaker_error_sysfs
      else if leb n 3
      then speaker_error_none
      else speaker_error_out_of_bounds,
  t,
)

-- The system refuses nothing during the call.
pub record Succeeds (period_ns : ℕ → ℕ) (env : Env) : Type 0 where
  pub works : Works env
  pub dir : (names : List Text) × (env.pwm_dev_dir ≡ some names)
  pub chip : (name : Text) → (c : ℕ) × (env.chip_open_by_name name ≡ some c)
  pub line : (c offset : ℕ) → (l : ℕ) × (env.chip_get_line c offset ≡ some l)
  pub request : (l : ℕ) → env.line_request_fails l ≡ false
  pub set : (l v : ℕ) → env.line_set_value_fails l v ≡ false
  pub same_period : env.period_ns ≡ period_ns

abbrev pub env_of : Call → Env
env_of (init_call env) = env
env_of (de_init_call env) = env
env_of (play_pitch_call env f) = env
env_of (set_volume_call env n) = env

-- The three registers of the channel.
pub record SameChannel (s t : Speaker) : Type 0 where
  pub enable_same : last_value enable t.effects ≡ last_value enable s.effects
  pub period_same : last_value period t.effects ≡ last_value period s.effects
  pub duty_same : last_value duty_cycle t.effects ≡ last_value duty_cycle s.effects

pub SameChannel-Sounding :
    (period_ns : ℕ → ℕ) (f : ℕ) {s t : Speaker}
    → SameChannel s t
    → Sounding period_ns f s.effects
    → Sounding period_ns f t.effects
SameChannel-Sounding p zero c h = rw c.enable_same h
SameChannel-Sounding p (suc f) c h = rw (c.enable_same, c.period_same, c.duty_same) h

pub init-SameChannel : (env : Env) (s : Speaker) → SameChannel s (init env s).1
unfolding init export_channel open_volume_pins
init-SameChannel env s = ground arith

pub set_volume-SameChannel :
    (env : Env) (n : ℕ) (s : Speaker) → SameChannel s (set_volume env n s).1
unfolding set_volume
set_volume-SameChannel env n s = ground arith

-- The volume pins are open.
abbrev pub has_pins : Speaker → Bool
has_pins s = elim s.en1_line [
  | none ↦ false
  | some l1 ↦ elim s.en2_line [ none ↦ false | some l2 ↦ true ]
]

-- The state that stands for the tone.
pub record Represents (period_ns : ℕ → ℕ) (s : Speaker) (t : Tone) : Type 0 where
  pub active : is_inited s.state ≡ t.active
  pub pins : has_pins s ≡ t.active
  pub asked : s.current_freq ≡ t.asked
  pub sounding : Sounding period_ns t.sounds s.effects

-- The chip that is open, or is opened.
chip_of :
    {p : ℕ → ℕ} (env : Env) (s : Speaker)
    → Succeeds p env
    → (c : ℕ) × (open_chip env s.chip ≡ some c)
chip_of env s w = elim (Option-cases s.chip) [
  | inl e ↦ rw e (w.chip (codes "gpiochip7"))
  | inr (c, e) ↦ rw e (c, refl)
]

init_result :
    (env : Env) (s : Speaker) (names : List Text) (c l1 l2 : ℕ)
    → env.speaker_lock_fails ≡ false
    → is_inited s.state ≡ false
    → env.pwm_dev_dir ≡ some names
    → let path = subdir_file (find_dir names s.speaker_dir) export in
      env.fopen_fails path ≡ false
      → env.fprintf_fails path ≡ false
      → env.volume_lock_fails ≡ false
      → open_chip env s.chip ≡ some c
      → env.chip_get_line c 8 ≡ some l1
      → env.chip_get_line c 9 ≡ some l2
      → env.line_request_fails l1 ≡ false
      → env.line_request_fails l2 ≡ false
      → let (r, s') = init env s in
        (r ≡ 0)
        × (is_inited s'.state ≡ true)
        × (has_pins s' ≡ true)
        × (s'.current_freq ≡ s.current_freq)
unfolding init export_channel open_volume_pins
init_result env s names c l1 l2 lock e dir file print lock2 chip line1 line2 free1 free2 =
    ground arith

pub init_lem :
    {p : ℕ → ℕ} (env : Env) (s : Speaker)
    → Succeeds p env
    → is_inited s.state ≡ false
    → let (r, s') = init env s in
      (r ≡ 0)
      × (is_inited s'.state ≡ true)
      × (has_pins s' ≡ true)
      × (s'.current_freq ≡ s.current_freq)
init_lem env s w e =
    let works = w.works in
    let (names, dir) = w.dir in
    let (c, chip) = chip_of env s w in
    let (l1, line1) = w.line c 8 in
    let (l2, line2) = w.line c 9 in
    init_result env s names c l1 l2 works.speaker_lock e dir (works.fopen _) (works.fprintf _)
      works.volume_lock chip line1 line2 (w.request l1) (w.request l2)

-- What a call leaves alone.
pub set_volume-kept :
    (env : Env) (n : ℕ) (s : Speaker)
    → let s' = (set_volume env n s).1 in
      (s'.state ≡ s.state) × (has_pins s' ≡ has_pins s) × (s'.current_freq ≡ s.current_freq)
unfolding set_volume
set_volume-kept env n s = ground arith

pub write_pitch-kept :
    (env : Env) (f : ℕ) (s : Speaker)
    → let s' = write_pitch env f s in (s'.state ≡ s.state) × (has_pins s' ≡ has_pins s)
unfolding write_pitch pwm_write
write_pitch-kept env f s = ground arith

close_volume_pins-closed :
    (env : Env) (s : Speaker)
    → env.volume_lock_fails ≡ false
    → has_pins (close_volume_pins env s) ≡ false
unfolding close_volume_pins
close_volume_pins-closed env s h = ground arith

pub de_init_lem :
    (env : Env) (s : Speaker)
    → Works env
    → s.state ≡ speaker_inited
    → let (r, s') = de_init env s in (r ≡ 0) × (is_inited s'.state ≡ false) × (has_pins s' ≡ false)
unfolding de_init
de_init_lem env s w i =
    simp (w.speaker_lock, i) (refl, refl, close_volume_pins-closed env _ w.volume_lock)

pub set_volume-refused :
    (env : Env) (n : ℕ) (s : Speaker)
    → env.volume_lock_fails ≡ false
    → has_pins s ≡ false
    → (set_volume env n s).0 ≡ speaker_error_sysfs
unfolding set_volume
set_volume-refused env n s lock h = ground arith

lines_of :
    (s : Speaker)
    → has_pins s ≡ true
    → (l1 : ℕ) × (l2 : ℕ) × (s.en1_line ≡ some l1) × (s.en2_line ≡ some l2)
lines_of s h = elim (Option-cases s.en1_line) [
  | inl none1 ↦ absurd (ground arith)
  | inr (l1, e1) ↦ elim (Option-cases s.en2_line) [
    | inl none2 ↦ absurd (ground arith)
    | inr (l2, e2) ↦ (l1, l2, e1, e2)
  ]
]

pub set_volume-taken :
    {p : ℕ → ℕ} (env : Env) (n : ℕ) (s : Speaker)
    → Succeeds p env
    → has_pins s ≡ true
    → (set_volume env n s).0 ≡ (if leb n 3 then speaker_error_none else speaker_error_out_of_bounds)
set_volume-taken env n s w h =
    let (l1, l2, e1, e2) = lines_of s h in
    rw (set_volume_lem env n l1 l2 s w.works.volume_lock w.set e1 e2) (ground arith)

-- Calls that the state refuses.
pub init-refused :
    (env : Env) (s : Speaker)
    → env.speaker_lock_fails ≡ false
    → is_inited s.state ≡ true
    → init env s ≡ (speaker_error_state, s)
unfolding init
init-refused env s lock e = ground arith

pub de_init-refused :
    (env : Env) (s : Speaker)
    → env.speaker_lock_fails ≡ false
    → is_inited s.state ≡ false
    → de_init env s ≡ (speaker_error_state, s)
unfolding de_init
de_init-refused env s lock e = ground arith

pub play_pitch-refused :
    (env : Env) (f : ℕ) (s : Speaker)
    → env.speaker_lock_fails ≡ false
    → is_inited s.state ≡ false
    → play_pitch env f s ≡ (speaker_error_state, s)
unfolding play_pitch
play_pitch-refused env f s lock e = ground arith
