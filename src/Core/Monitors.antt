-- ===== src/Core/Monitors.antt =====
-- One round of each thread of core.cpp that watches the battery: the reading, the text and the
-- colour, and the label that shows them. A round returns the label's object with its new colour.
use mathlib.Core.Option
use battery_info.Prelude.{
  Bool, not, ◌&&◌, ◌^◌, ◌-◌, leb, Option, none, some, ◌++◌, length, if◌then◌else◌,
}
use battery_info.Prelude.Int.{ℤ, pos, negsuc, ◌+ℤ◌, ltb_ℤ}
use battery_info.Prelude.Text.{Text, codes, text_eq, sub_size, insert}
use battery_info.Prelude.Decimal.{to_string}
use battery_info.Gui.Calls.{
  Color, red, green, orange, Buffer, local, destroyed, GuiObj, Gui, pure, ◌>>◌, call,
}
use battery_info.Gui.Widgets.{change_label}
use battery_info.Battery.State.{Battery, Gpiod}
use battery_info.Battery.Gpio.{is_meter_in_dock, is_battery_charging}
use battery_info.Battery.Gauge.{
  GaugeFile, get_battery_percentage, get_battery_temp, get_battery_current, get_battery_voltage,
  get_battery_health,
}

abbrev leb_ℤ : ℤ → ℤ → Bool
leb_ℤ a b = not (ltb_ℤ b a)

abbrev pub eqb_ℤ : ℤ → ℤ → Bool
eqb_ℤ a b = leb_ℤ a b && leb_ℤ b a

-- The local strings of the rounds.
abbrev pub battery_current_formatted : Buffer
battery_current_formatted = local 1

abbrev pub battery_voltage_formatted : Buffer
battery_voltage_formatted = local 2

abbrev pub health_string : Buffer
health_string = local 3

abbrev pub battery_temp_formatted : Buffer
battery_temp_formatted = local 4

abbrev pub battery_level_formatted : Buffer
battery_level_formatted = local 5

abbrev pub is_meter_in_dock_value : Buffer
is_meter_in_dock_value = local 6

abbrev pub is_battery_charging_value : Buffer
is_battery_charging_value = local 7

-- The label takes the colour, and then the text, which stands in a local string of the round.
unfoldable pub show : Buffer → Color → Text → GuiObj → Gui GuiObj
show string color text obj = do
  change_label (record obj { color = color }) (record { buffer = string; text = text })
  call (destroyed string)
  pure (record obj { color = color })

abbrev pub current_color : ℤ → Color
current_color v =
    if leb_ℤ (pos 50) v && leb_ℤ v (pos 700)
    then green
    else if leb_ℤ (pos 1) v && ltb_ℤ v (pos 50)
    then orange
    else if ltb_ℤ (pos 700) v && ltb_ℤ v (pos 850)
    then orange
    else red

unfoldable pub current_text : ℤ → Text
current_text v = to_string v ++ codes " mA"

-- `battery_current_monitor`
unfoldable pub battery_current_round : GaugeFile → GuiObj → Gui GuiObj
battery_current_round file current =
    let v = get_battery_current file in
    show battery_current_formatted (current_color v) (current_text v) current

abbrev pub voltage_color : ℤ → Color
voltage_color v =
    if leb_ℤ (pos 350) v && leb_ℤ v (pos 550)
    then green
    else if ltb_ℤ (pos 560) v
    then orange
    else red

-- The point goes before the last two characters; `none` is the exception of `insert`.
unfoldable pub voltage_text : ℤ → Option Text
voltage_text v =
    let s = to_string v in
    Option.map (λ t. t ++ codes " V") (insert s (sub_size (length s) 2) (codes "."))

abbrev pub shown_text : Buffer → Color → GuiObj → Option Text → Option (Gui GuiObj)
shown_text string color obj none = none
shown_text string color obj (some text) = some (show string color text obj)

-- `battery_voltage_monitor`; with `none` the exception leaves the thread, which ends the program.
unfoldable pub battery_voltage_round : GaugeFile → GuiObj → Option (Gui GuiObj)
battery_voltage_round file voltage =
    let v = get_battery_voltage file in
    shown_text battery_voltage_formatted (voltage_color v) voltage (voltage_text v)

abbrev health_text : Text → Text
health_text h = if leb (length h) 0 then codes "ERROR" else h

abbrev health_color : Text → Color
health_color h =
    if text_eq h (codes "Good") then green else if text_eq h (codes "Ok") then orange else red

-- `battery_health_monitor`
unfoldable pub battery_health_round : Option (Option Text) → GuiObj → Gui GuiObj
battery_health_round file battery_health =
    let h = health_text (get_battery_health file) in
    show health_string (health_color h) h battery_health

abbrev temp_color : ℤ → Color
temp_color v =
    if leb_ℤ (pos 400) v && leb_ℤ v (pos 500)
    then green
    else if ltb_ℤ (pos 480) v
    then orange
    else red

-- The point goes before the last character.
unfoldable pub temp_text : ℤ → Option Text
temp_text v =
    let s = to_string v in
    Option.map (λ t. t ++ codes " ºC") (insert s (sub_size (length s) 1) (codes "."))

-- `battery_temp_monitor`
unfoldable pub battery_temp_round : GaugeFile → GuiObj → Option (Gui GuiObj)
battery_temp_round file battery_temp =
    let v = get_battery_temp file in
    shown_text battery_temp_formatted (temp_color v) battery_temp (temp_text v)

abbrev pub level_color : ℤ → Color
level_color v =
    if leb_ℤ (pos 75) v then green else if leb_ℤ (pos 25) v && ltb_ℤ v (pos 75) then orange else red

-- `n + 1` of an `int`, which wraps at the greatest one.
abbrev pub add_one : ℤ → ℤ
add_one n = if eqb_ℤ n (pos (2 ^ 31 - 1)) then negsuc (2 ^ 31 - 1) else n +ℤ pos 1

-- What the label of the level shows: the reading and 1.
unfoldable pub shown_level : GaugeFile → Bool → ℤ
shown_level file close_fails = add_one (get_battery_percentage file close_fails)

-- `battery_level_monitor`
unfoldable pub battery_level_round : GaugeFile → Bool → GuiObj → Gui GuiObj
battery_level_round file close_fails battery_level =
    let v = shown_level file close_fails in
    show battery_level_formatted (level_color v) (to_string v ++ codes "%") battery_level

abbrev true_or_false : Bool → Text
true_or_false b = if b then codes "TRUE" else codes "FALSE"

abbrev green_or_red : Bool → Color
green_or_red b = if b then green else red

-- `in_dock_monitor`: TRUE for the value 0
unfoldable pub in_dock_round : Gpiod → Battery → GuiObj → Gui GuiObj
in_dock_round g b in_dock =
    let there = eqb_ℤ (is_meter_in_dock g b) (pos 0) in
    show is_meter_in_dock_value (green_or_red there) (true_or_false there) in_dock

-- `battery_charging_monitor`: TRUE for the value 1
unfoldable pub battery_charging_round : Gpiod → Battery → GuiObj → Gui GuiObj
battery_charging_round g b charging =
    let charges = eqb_ℤ (is_battery_charging g b) (pos 1) in
    show is_battery_charging_value (green_or_red charges) (true_or_false charges) charging
