-- ===== src/Battery/Gpio.antt =====
-- Opening, reading and closing the lines of Battery.cpp.
use battery_info.Prelude.{ℕ, zero, Bool, true, false, ◌==◌, Option, none, some, if◌then◌else◌}
use battery_info.Prelude.Int.{ℤ, pos, negsuc}
use battery_info.Prelude.Text.{codes}
use battery_info.Battery.State.{
  in_dock_pin, charging_pin, LineId, line_in_base, line_charging, released, closed, Battery, Gpiod,
  pin, power_line, set_power_line, is_null, failed, emit,
}

-- gpiod_line_request_falling_edge_events on the charging line, and the end of the function.
request_charging : Gpiod → Option ℕ → Battery → ℤ × Battery
request_charging g none b = (failed, b)
request_charging g (some l) b =
    (if g.line_request_falling_edge_events_fails l then failed else pos 0, b)

-- The second half of `InitializeBatteryGPIOs`: the charging line.
init_charging : Gpiod → Battery → ℤ × Battery
unfolding request_charging
init_charging g b =
    let chip = g.chip_open_by_name (codes "gpiochip5") in
    let b1 = record b { charging_chip = chip } in
    if is_null chip
    then (failed, b1)
    else let line = g.chip_get_line chip charging_pin in
      request_charging g line (record b1 { charging_line = line })

request_in_dock : Gpiod → Option ℕ → Battery → ℤ × Battery
unfolding init_charging
request_in_dock g none b = (failed, b)
request_in_dock g (some l) b =
    if g.line_request_falling_edge_events_fails l then (failed, b) else init_charging g b

-- `InitializeBatteryGPIOs`
unfoldable pub initialize_battery_gpios : Gpiod → Battery → ℤ × Battery
unfolding request_in_dock
initialize_battery_gpios g b =
    let chip = g.chip_open_by_name (codes "gpiochip1") in
    let b1 = record b { in_dock_chip = chip } in
    if is_null chip
    then (failed, b1)
    else let line = g.chip_get_line chip in_dock_pin in
      request_in_dock g line (record b1 { in_dock_line = line })

abbrev is_negative : ℤ → Bool
is_negative (pos n) = false
is_negative (negsuc n) = true

-- `Battery_Init`; `none` when battery_lock is held, so that the call does not return. The lock is
-- given back where the lines are there, and not where the function returns -1.
unfoldable pub battery_init : Gpiod → Battery → Option (ℤ × Battery)
battery_init g b =
    if b.locked
    then none
    else let (result, b1) = initialize_battery_gpios g (record b { locked = true }) in
      if is_negative result then some (failed, b1) else some (pos 0, record b1 { locked = false })

-- `RunBatteryMonitor` drops the result.
unfoldable run_battery_monitor : Gpiod → Battery → Option Battery
unfolding battery_init
run_battery_monitor g b = elim (battery_init g b) [ none ↦ none | some (r, b1) ↦ some b1 ]

-- gpiod_line_release where the line is not null
abbrev release : Option ℕ → Battery → Battery
release l b = if is_null l then b else emit (released l) b

-- `CloseGPIOs`: the chips are set to null, the lines are not.
unfoldable pub close_gpios : Battery → Battery
close_gpios b =
    let b1 = release b.in_dock_line b in
    let b2 =
      if is_null b1.in_dock_chip
      then b1
      else record (emit (closed b1.in_dock_chip) b1) { in_dock_chip = none } in
    let b3 = release b2.charging_line b2 in
    if is_null b3.charging_chip
    then b3
    else record (emit (closed b3.charging_chip) b3) { charging_chip = none }

-- `RunBatteryMonitorCleanup`; `none` when battery_lock is held.
unfoldable pub run_battery_monitor_cleanup : Battery → Option Battery
unfolding close_gpios
run_battery_monitor_cleanup b =
    if b.locked
    then none
    else some (record (close_gpios (record b { locked = true })) { locked = false })

request_power_line : Gpiod → Option ℕ → Battery → ℤ × Battery
request_power_line g none b = (failed, b)
request_power_line g (some l) b =
    (if g.line_request_falling_edge_events_fails l then failed else pos 0, b)

-- `OpenGPIO`: a line that is not open is taken from the dock's chip.
unfoldable pub open_gpio : Gpiod → LineId → Battery → ℤ × Battery
unfolding request_power_line
open_gpio g id b =
    let line =
      if is_null (power_line id b)
      then g.chip_get_line b.in_dock_chip (pin id)
      else power_line id b in
    request_power_line g line (set_power_line id line b)

-- `CloseGPIO`
unfoldable close_gpio : LineId → Battery → Battery
close_gpio id b =
    if is_null (power_line id b)
    then b
    else set_power_line id none (emit (released (power_line id b)) b)

-- `GetGPIOLineValue`
unfoldable get_gpio_line_value : Gpiod → LineId → Battery → ℤ
get_gpio_line_value g id b =
    if is_null (power_line id b) then failed else g.line_get_value (power_line id b)

-- `ReadGPIO`, with BATTERY_GPIO_IN_BASE = 1 and BATTERY_GPIO_CHARGING = 2
unfoldable pub read_gpio : Gpiod → ℕ → Battery → ℤ
unfolding get_gpio_line_value
read_gpio g gpio b =
    if gpio == 1
    then get_gpio_line_value g line_in_base b
    else if gpio == 2
    then get_gpio_line_value g line_charging b
    else failed

-- `(value = …) == NULL`: the comparison is with 0.
abbrev nonzero_or_failed : ℤ → ℤ
nonzero_or_failed (pos zero) = failed
nonzero_or_failed v = v

-- `IsMeterInDock`
unfoldable pub is_meter_in_dock : Gpiod → Battery → ℤ
is_meter_in_dock g b = nonzero_or_failed (g.line_get_value b.in_dock_line)

-- `IsBatteryCharging`
unfoldable pub is_battery_charging : Gpiod → Battery → ℤ
is_battery_charging g b = nonzero_or_failed (g.line_get_value b.charging_line)
