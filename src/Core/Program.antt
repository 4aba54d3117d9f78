-- ===== src/Core/Program.antt =====
-- The program of core.cpp once `main_menu` has run: the rounds of its eight threads and the events on
-- the two buttons, one after the other in any order.
pub mod Kept
pub mod Survival
pub mod Strings
pub mod Stale
pub mod Leaves
use battery_info.Prelude.{Bool, List, [], ◌∷◌, Option, none, some}
use battery_info.Prelude.Text.{Text}
use battery_info.Gui.Calls.{GuiObj, Gui}
use battery_info.Audio.Control.{Answers}
use battery_info.Battery.State.{Gpiod}
use battery_info.Battery.Gauge.{GaugeFile}
use battery_info.Core.Monitors.{
  battery_current_round, battery_voltage_round, battery_health_round, battery_temp_round,
  battery_level_round, in_dock_round, battery_charging_round,
}
use battery_info.Core.App.{App, brightness_round}
use battery_info.Core.Brightness.{Press, press}

-- A round of a thread, with what it reads, or an event on a button.
pub data Happening : Type 0 where
  current_read voltage_read temp_read : GaugeFile → Happening
  health_read : Option (Option Text) → Happening
  level_read : GaugeFile → Bool → Happening
  dock_read charging_read : Gpiod → Happening
  brightness_read : Happening
  pressed : Answers → Press → Happening

abbrev set_voltage : App → Option (Gui GuiObj) → Option App
set_voltage a none = none
set_voltage a (some m) = let (o, log) = m a.calls in some (record a { voltage = o; calls = log })

abbrev set_temp : App → Option (Gui GuiObj) → Option App
set_temp a none = none
set_temp a (some m) = let (o, log) = m a.calls in some (record a { battery_temp = o; calls = log })

-- `none` is the end of the program by an exception that leaves a thread.
unfoldable pub happen : Happening → App → Option App
happen (current_read f) a =
    let (o, log) = battery_current_round f a.current a.calls in
    some (record a { current = o; calls = log })
happen (voltage_read f) a = set_voltage a (battery_voltage_round f a.voltage)
happen (temp_read f) a = set_temp a (battery_temp_round f a.battery_temp)
happen (health_read f) a =
    let (o, log) = battery_health_round f a.battery_health a.calls in
    some (record a { battery_health = o; calls = log })
happen (level_read f b) a =
    let (o, log) = battery_level_round f b a.battery_level a.calls in
    some (record a { battery_level = o; calls = log })
happen (dock_read g) a =
    let (o, log) = in_dock_round g a.battery a.in_dock a.calls in
    some (record a { in_dock = o; calls = log })
happen (charging_read g) a =
    let (o, log) = battery_charging_round g a.battery a.charging a.calls in
    some (record a { charging = o; calls = log })
happen brightness_read a = some (brightness_round a)
happen (pressed w p) a = some (press w p a)

unfoldable pub happenings : List Happening → App → Option App
happenings [] a = some a
happenings (h ∷ hs) a = elim (happen h a) [ none ↦ none | some b ↦ happenings hs b ]

-- What holds after a row, if the program has not ended.
abbrev pub Later : (App → Type 0) → Option App → Type 0
Later P none = Unit
Later P (some b) = P b

pub Later-Unit : (o : Option App) → Later (λ b. Unit) o
Later-Unit none = tt
Later-Unit (some b) = tt

pub Later-then :
    {P : App → Type 0} (Q : App → Type 0) (o : Option App) (hs : List Happening)
    → Later P o
    → ((a : App) → P a → Later Q (happenings hs a))
    → Later Q (elim o [ none ↦ none | some b ↦ happenings hs b ])
Later-then Q none hs v next = tt
Later-then Q (some b) hs v next = next b v
