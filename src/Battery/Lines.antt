-- ===== src/Battery/Lines.antt =====
-- Which lines the code reads, watches and gives back.
use battery_info.Prelude.{
  ℕ, ◌+◌, ◌≡◌, refl, ◌∙◌, ◌≢◌, inl, inr, Bool, true, false, ◌||◌, List, [], ◌∷◌, Option, none, some,
  Option-cases, arith, ◌==◌, if◌then◌else◌,
}
use battery_info.Prelude.Int.{ℤ, pos}
use battery_info.Battery.State.{
  Battery, Gpiod, failed, initial, LineId, line_in_base, line_charging, released, power_line,
  in_dock_pin, charging_pin,
}
use battery_info.Battery.Gpio.{
  initialize_battery_gpios, battery_init, close_gpios, open_gpio, read_gpio, is_meter_in_dock,
}
use battery_info.Battery.Events.{bulk_lines}
use battery_info.Battery.Events.{
  mark, mark_all, monitor_for_gpio_event, refresh, battery_task_round,
}

-- `IsMeterInDock` passes a line's value on, but for 0, which becomes -1; so it is never 0.
pub is_meter_in_dock_lem :
    (g : Gpiod) (b : Battery)
    → (is_meter_in_dock g b ≢ pos 0)
      × (g.line_get_value b.in_dock_line ≢ pos 0
          → is_meter_in_dock g b ≡ g.line_get_value b.in_dock_line)
unfolding is_meter_in_dock
is_meter_in_dock_lem g b = ground arith

-- `CloseGPIOs` sets the chips to null and keeps the lines: run once more it releases each line
-- that was there once more, and closes no chip.
close_gpios-twice :
    (b : Battery) (dock charger : ℕ)
    → b.in_dock_line ≡ some dock
    → b.charging_line ≡ some charger
    → let once = close_gpios b in
      (once.in_dock_chip ≡ none)
      × (once.charging_chip ≡ none)
      × ((close_gpios once).effects ≡ released (some charger) ∷ released (some dock) ∷ once.effects)
unfolding close_gpios
close_gpios-twice b dock charger hd hc = ground arith

-- The power lines are not those that `Battery_Init` opens: after it `ReadGPIO` fails for every
-- number, whatever the lines' values are.
read_gpio-battery_init :
    (g : Gpiod) (gpio : ℕ) {r : ℤ × Battery}
    → battery_init g initial ≡ some r
    → read_gpio g gpio r.1 ≡ failed
unfolding battery_init initialize_battery_gpios read_gpio
read_gpio-battery_init g gpio h = ground arith

abbrev is_charger : LineId → Bool
is_charger line_charging = true
is_charger line_in_base = false

-- `OpenGPIO` takes every line that is not open from the chip of the dock, that of the charger too.
open_gpio-chip :
    (g : Gpiod) (id : LineId) (b : Battery)
    → power_line id b ≡ none
    → power_line id (open_gpio g id b).1
      ≡ g.chip_get_line b.in_dock_chip (if is_charger id then charging_pin else in_dock_pin)
unfolding open_gpio
open_gpio-chip g id b h = ground arith

or_assoc : (a b c : Bool) → ((a || b) || c) ≡ (a || (b || c))
or_assoc true b c = refl
or_assoc false b c = refl

abbrev reported : Option (List ℕ) → List ℕ
reported none = []
reported (some events) = events

module _ (g : Gpiod) where
  -- Whether some line of the list has the offset.
  abbrev pub any_at : ℕ → List ℕ → Bool
  any_at n [] = false
  any_at n (l ∷ ls) = g.line_offset l == n || any_at n ls

  abbrev pub bits : Bool → Bool → ℕ
  bits dock charger = (if dock then 1 else 0) + (if charger then 2 else 0)

  -- The lines of which the wait reports an event.
  abbrev pub woken : Battery → List ℕ
  woken b = reported (g.line_event_wait_bulk (bulk_lines b))

  mark-bits :
      (l : ℕ) (d c : Bool)
      → mark g l (bits d c) ≡ bits (d || g.line_offset l == 5) (c || g.line_offset l == 15)
  mark-bits l true true = ground arith
  mark-bits l true false = ground arith
  mark-bits l false true = ground arith
  mark-bits l false false = ground arith

  mark_all-bits :
      (ls : List ℕ) (d c : Bool)
      → mark_all g ls (bits d c) ≡ bits (d || any_at 5 ls) (c || any_at 15 ls)
  unfolding mark_all
  mark_all-bits [] d c = ground arith
  mark_all-bits (l ∷ ls) d c = rw (mark-bits l d c) (
      mark_all-bits ls (d || g.line_offset l == 5) (c || g.line_offset l == 15)
      ∙ rw (
        or_assoc d (g.line_offset l == 5) (any_at 5 ls),
        or_assoc c (g.line_offset l == 15) (any_at 15 ls),
      ))

  -- `MonitorForGPIOEvent` sets exactly the bits of the lines that had an event: 1 where one of them
  -- is the dock's, and 2 where one of them is the charger's; with no event it sets none.
  pub monitor_for_gpio_event-bits :
      (b : Battery)
      → monitor_for_gpio_event g b 0
        ≡ bits (any_at in_dock_pin (woken b)) (any_at charging_pin (woken b))
  unfolding monitor_for_gpio_event
  monitor_for_gpio_event-bits b = elim (Option-cases (g.line_event_wait_bulk (bulk_lines b))) [
    | inl e ↦ rw e refl
    | inr (events, e) ↦ rw e (mark_all-bits events false false)
  ]

  -- When both lines had an event, the round of `BatteryTaskLoop` reads neither of them.
  battery_task_round-both :
      (b : Battery)
      → any_at in_dock_pin (woken b) ≡ true
      → any_at charging_pin (woken b) ≡ true
      → battery_task_round g b ≡ b
  unfolding battery_task_round refresh
  battery_task_round-both b hd hc = rw (monitor_for_gpio_event-bits b, hd, hc)
