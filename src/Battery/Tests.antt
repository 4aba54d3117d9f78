-- ===== src/Battery/Tests.antt =====
-- The theorems of the battery on a libgpiod that has two lines.
use battery_info.Prelude.{ℕ, ◌+◌, ◌≡◌, refl, true, false, ◌==◌, Option, none, some, if◌then◌else◌}
use battery_info.Prelude.Int.{ℤ, pos}
use battery_info.Battery.State.{Battery, Gpiod, initial}
use battery_info.Battery.Gpio.{battery_init, run_battery_monitor_cleanup, initialize_battery_gpios}
use battery_info.Battery.Events.{bulk_lines, monitor_for_gpio_event}
use battery_info.Battery.Locking.{Outcome, battery_init_returns, battery_init-stuck}
use battery_info.Battery.Lines.{monitor_for_gpio_event-bits}

abbrev number : Option ℕ → ℕ
number none = 0
number (some n) = n

-- Line 105 is the dock's and line 115 the charger's; both read 0, and both had an event.
abbrev pub gpiod : Gpiod
gpiod = record {
  chip_open_by_name = λ name. some 100;
  chip_get_line = λ c pin. some (number c + pin);
  line_request_falling_edge_events_fails = λ l. false;
  line_get_value = λ l. pos 0;
  line_event_wait_bulk = λ ls. some ls;
  line_offset = λ l. if l == 105 then 5 else 15;
}

-- There is no chip.
abbrev bare : Gpiod
bare = record gpiod { chip_open_by_name = λ name. none }

abbrev opened : Battery
opened = record initial {
  in_dock_chip = some 100;
  in_dock_line = some 105;
  charging_chip = some 100;
  charging_line = some 115;
}

battery_init_returns_example : (r : ℤ × Battery) × (battery_init gpiod initial ≡ some r) × Outcome r
battery_init_returns_example = battery_init_returns gpiod initial refl

abbrev stuck : Battery
stuck = (initialize_battery_gpios bare (record initial { locked = true })).1

battery_init-stuck_example :
    (battery_init gpiod stuck ≡ none) × (run_battery_monitor_cleanup stuck ≡ none)
unfolding battery_init initialize_battery_gpios
battery_init-stuck_example = battery_init-stuck bare gpiod initial stuck refl

-- With the power lines that `OpenGPIO` opens.
abbrev powered : Battery
powered = record opened { in_base_power_line = some 105; charging_power_line = some 115 }

monitor_for_gpio_event-bits_example : monitor_for_gpio_event gpiod powered 0 ≡ 3
unfolding bulk_lines
monitor_for_gpio_event-bits_example = monitor_for_gpio_event-bits gpiod powered
