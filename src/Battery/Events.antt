-- ===== src/Battery/Events.antt =====
-- `MonitorForGPIOEvent` and the round of `BatteryTaskLoop`.
use Prim.Native.Nat.{bit_or}
use battery_info.Prelude.{
  ℕ, List, [], ◌∷◌, ◌++◌, Option, none, some, length, ltb, ◌==◌, if◌then◌else◌,
}
use battery_info.Battery.State.{
  in_dock_pin, charging_pin, line_in_base, line_charging, Battery, Gpiod, power_line,
}
use battery_info.Battery.Gpio.{is_meter_in_dock, is_battery_charging}

-- GPIOD_LINE_BULK_MAX_LINES
abbrev max_lines : ℕ
max_lines = 64

add_line : Option ℕ → List ℕ → List ℕ
add_line none ls = ls
add_line (some l) ls = if ltb (length ls) max_lines then ls ++ (l ∷ []) else ls

-- The lines of `power_lines` that are open, in order.
unfoldable pub bulk_lines : Battery → List ℕ
unfolding add_line
bulk_lines b = add_line (power_line line_charging b) (add_line (power_line line_in_base b) [])

-- The bit that an event on a line adds to `*GPIOs`.
abbrev pub mark : Gpiod → ℕ → ℕ → ℕ
mark g l gpios =
    if g.line_offset l == in_dock_pin
    then bit_or gpios 1
    else if g.line_offset l == charging_pin
    then bit_or gpios 2
    else gpios

unfoldable pub mark_all : Gpiod → List ℕ → ℕ → ℕ
mark_all g [] gpios = gpios
mark_all g (l ∷ ls) gpios = mark_all g ls (mark g l gpios)

-- A wait that fails leaves `*GPIOs` as it is.
abbrev marked : Gpiod → Option (List ℕ) → ℕ → ℕ
marked g none gpios = gpios
marked g (some events) gpios = mark_all g events gpios

-- `MonitorForGPIOEvent` with `*GPIOs` at `gpios`
unfoldable pub monitor_for_gpio_event : Gpiod → Battery → ℕ → ℕ
monitor_for_gpio_event g b gpios = marked g (g.line_event_wait_bulk (bulk_lines b)) gpios

-- What a round of `BatteryTaskLoop` does with the bits.
unfoldable pub refresh : Gpiod → ℕ → Battery → Battery
refresh g gpios b =
    let b1 = if gpios == 1 then record b { is_in_dock = is_meter_in_dock g b } else b in
    if gpios == 2 then record b1 { is_charging = is_battery_charging g b1 } else b1

unfoldable pub battery_task_round : Gpiod → Battery → Battery
unfolding refresh
battery_task_round g b = refresh g (monitor_for_gpio_event g b 0) b
