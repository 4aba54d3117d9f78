-- ===== src/Speaker/Env.antt =====
-- The state of Speaker.c, and what the system answers to its calls.
use battery_info.Prelude.{ℕ, Bool, List, ◌∷◌, Option}
use battery_info.Prelude.Int.{ℤ}
use battery_info.Prelude.Text.{Text}

-- The files of the PWM channel that the code writes, by the name that it passes down.
pub data PwmFile : Type 0 where
  export period duty_cycle enable : PwmFile

-- What reached the hardware.
pub data Effect : Type 0 where
  wrote : PwmFile → Text → ℤ → Effect
  set_line : ℕ → ℕ → Effect
  released : ℕ → Effect
  closed : ℕ → Effect

-- `enum Speaker_State`
pub data SpeakerState : Type 0 where
  speaker_inited speaker_ended : SpeakerState

-- The static variables, `CurrentFreq` of `Speaker_PlayPitch` among them. Pointers to gpiod's chips
-- and lines are numbers, and null is `none`. `effects` is the newest first.
pub record Speaker : Type 0 where
  pub state : SpeakerState
  pub speaker_dir : Text
  pub en1_line : Option ℕ
  pub en2_line : Option ℕ
  pub chip : Option ℕ
  pub current_freq : ℕ
  pub effects : List Effect

abbrev pub emit : Effect → Speaker → Speaker
emit e s = record s { effects = e ∷ s.effects }

-- The answers of pthread, the file system and libgpiod during one call of the interface, and the
-- floating-point quotient of `Speaker_PlayPitch`, (unsigned long long)(1.0 / f / 1E-9).
pub record Env : Type 0 where
  pub speaker_lock_fails : Bool
  pub volume_lock_fails : Bool
  pub pwm_dev_dir : Option (List Text)  -- opendir and readdir
  pub fopen_fails : Text → Bool
  pub fprintf_fails : Text → Bool
  pub errno_is_ebusy : Bool
  pub chip_open_by_name : Text → Option ℕ
  pub chip_get_line : ℕ → ℕ → Option ℕ
  pub line_request_fails : ℕ → Bool
  pub line_set_value_fails : ℕ → ℕ → Bool
  pub period_ns : ℕ → ℕ

-- `enum Speaker_ErrorCodes`
abbrev pub speaker_error_none : ℕ
speaker_error_none = 0

abbrev pub speaker_error_sysfs : ℕ
speaker_error_sysfs = 1

abbrev pub speaker_error_out_of_bounds : ℕ
speaker_error_out_of_bounds = 2

abbrev pub speaker_error_state : ℕ
speaker_error_state = 3

abbrev pub speaker_error_mutex : ℕ
speaker_error_mutex = 4

-- `enum Speaker_GPIO_ErrorCodes`
abbrev pub speaker_gpio_error_open_chip : ℕ
speaker_gpio_error_open_chip = 1

abbrev pub speaker_gpio_error_get_line : ℕ
speaker_gpio_error_get_line = 2

abbrev pub is_inited : SpeakerState → Bool
is_inited speaker_inited = Bool.true
is_inited speaker_ended = Bool.false
