-- ===== src/Speaker/Volume.antt =====
-- The volume pins: `OpenVolumePins`, `CloseVolumePins`, `Speaker_SetVolume`, `Speaker_GetMaxVolume`.
use Prim.Native.Nat.{bit_and}
use battery_info.Prelude.{ℕ, ◌||◌, Option, none, some, ltb, ◌==◌, if◌then◌else◌}
use battery_info.Prelude.Text.{codes}
use battery_info.Speaker.Env.{
  set_line, released, closed, Speaker, emit, Env, speaker_error_none, speaker_error_sysfs,
  speaker_error_out_of_bounds, speaker_error_mutex, speaker_gpio_error_open_chip,
  speaker_gpio_error_get_line,
}

abbrev speaker_max_volume_level : ℕ
speaker_max_volume_level = 3

abbrev gpio_offset_spkr_en1 : ℕ
gpio_offset_spkr_en1 = 8

abbrev gpio_offset_spkr_en2 : ℕ
gpio_offset_spkr_en2 = 9

abbrev spkr_en1_bit : ℕ
spkr_en1_bit = 2

abbrev spkr_en2_bit : ℕ
spkr_en2_bit = 1

-- The second line, and the end of `OpenVolumePins`.
open_en2 : Env → ℕ → Speaker → ℕ × Speaker
open_en2 env c s = elim (env.chip_get_line c gpio_offset_spkr_en2) [
  | none ↦ (speaker_gpio_error_get_line, record s { en2_line = none })
  | some l ↦ (
    if env.line_request_fails l then speaker_gpio_error_get_line else speaker_error_none,
    record s { en2_line = some l },
  )
]

open_en1 : Env → ℕ → Speaker → ℕ × Speaker
unfolding open_en2
open_en1 env c s = elim (env.chip_get_line c gpio_offset_spkr_en1) [
  | none ↦ (speaker_gpio_error_get_line, record s { en1_line = none })
  | some l ↦
      if env.line_request_fails l
      then (speaker_gpio_error_get_line, record s { en1_line = some l })
      else open_en2 env c (record s { en1_line = some l })
]

-- A chip that is open is kept.
abbrev pub open_chip : Env → Option ℕ → Option ℕ
open_chip env none = env.chip_open_by_name (codes "gpiochip7")
open_chip env (some c) = some c

unfoldable pub open_volume_pins : Env → Speaker → ℕ × Speaker
unfolding open_en1
open_volume_pins env s =
    if env.volume_lock_fails then (speaker_error_mutex, s) else elim (open_chip env s.chip) [
      | none ↦ (speaker_gpio_error_open_chip, record s { chip = none })
      | some c ↦ open_en1 env c (record s { chip = some c })
    ]

-- `gpiod_line_set_value`
abbrev set_value : Env → ℕ → ℕ → Speaker → Speaker
set_value env l v s = if env.line_set_value_fails l v then s else emit (set_line l v) s

-- A line is set to 0 and released.
close_en2 : Env → Option ℕ → Speaker → Speaker
close_en2 env none s = s
close_en2 env (some l) s = emit (released l) (record (set_value env l 0 s) { en2_line = none })

close_en1 : Env → Option ℕ → Speaker → Speaker
close_en1 env none s = s
close_en1 env (some l) s = emit (released l) (record (set_value env l 0 s) { en1_line = none })

close_chip : Option ℕ → Speaker → Speaker
close_chip none s = s
close_chip (some c) s = emit (closed c) (record s { chip = none })

-- `CloseVolumePins`, whose result its caller drops.
unfoldable pub close_volume_pins : Env → Speaker → Speaker
unfolding close_en2 close_en1 close_chip
close_volume_pins env s =
    if env.volume_lock_fails
    then s
    else let s2 = close_en2 env s.en2_line s in
      let s1 = close_en1 env s2.en1_line s2 in close_chip s1.chip s1

-- `Level & bit`, as the value of a pin.
abbrev pub pin_value : ℕ → ℕ → ℕ
pin_value level bit = if bit_and level bit == bit then 1 else 0

set_pins : Env → ℕ → ℕ → ℕ → Speaker → ℕ × Speaker
set_pins env level l1 l2 s =
    let v2 = pin_value level spkr_en2_bit in
    let v1 = pin_value level spkr_en1_bit in
    (
      if env.line_set_value_fails l2 v2 || env.line_set_value_fails l1 v1
          then speaker_error_sysfs
          else speaker_error_none,
      set_value env l1 v1 (set_value env l2 v2 s),
    )

set_level : Env → ℕ → Option ℕ → Option ℕ → Speaker → ℕ × Speaker
unfolding set_pins
set_level env level (some l1) (some l2) s =
    if ltb speaker_max_volume_level level
    then (speaker_error_out_of_bounds, s)
    else set_pins env level l1 l2 s
set_level env level _ _ s = (speaker_error_sysfs, s)

-- `Speaker_SetVolume`
unfoldable pub set_volume : Env → ℕ → Speaker → ℕ × Speaker
unfolding set_level
set_volume env level s =
    if env.volume_lock_fails
    then (speaker_error_mutex, s)
    else set_level env level s.en1_line s.en2_line s

-- `Speaker_GetMaxVolume`
abbrev pub get_max_volume : ℕ
get_max_volume = speaker_max_volume_level
