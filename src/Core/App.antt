-- ===== src/Core/App.antt =====
-- The state of the program, and the buttons and the label of the brightness in core.cpp.
use battery_info.Prelude.{not, List, ◌∷◌, ◌++◌, if◌then◌else◌}
use battery_info.Prelude.Int.{ℤ, pos, ◌+ℤ◌, ◌-ℤ◌}
use battery_info.Prelude.Text.{Text, codes, text_eq}
use battery_info.Prelude.Decimal.{to_string}
use battery_info.Gui.Calls.{Buffer, local, destroyed, Call, GuiObj}
use battery_info.Gui.Widgets.{change_label}
use battery_info.Audio.Track.{key_press}
use battery_info.Audio.Control.{Audio, Answers, play_track}
use battery_info.Battery.State.{Battery}

-- The threads that `main_menu` starts.
pub data Monitor : Type 0 where
  brightness_monitor battery_current_monitor battery_voltage_monitor : Monitor
  battery_health_monitor battery_temp_monitor battery_level_monitor : Monitor
  in_dock_monitor battery_charging_monitor : Monitor

-- The globals of core.cpp that change while the program runs, the calls of LVGL, the commands given
-- to `system` and the threads started (each the newest first), and the state of the other libraries.
pub record App : Type 0 where
  pub brightness : ℤ
  pub brightness_string : Text
  pub title : GuiObj
  pub current_label : GuiObj
  pub voltage_label : GuiObj
  pub battery_health_label : GuiObj
  pub battery_temp_label : GuiObj
  pub battery_level_label : GuiObj
  pub in_dock_label : GuiObj
  pub charging_label : GuiObj
  pub brightness_label : GuiObj
  pub current : GuiObj
  pub voltage : GuiObj
  pub battery_health : GuiObj
  pub battery_temp : GuiObj
  pub battery_level : GuiObj
  pub in_dock : GuiObj
  pub charging : GuiObj
  pub brightness_value : GuiObj
  pub decrease_btn : GuiObj
  pub increase_btn : GuiObj
  pub calls : List Call
  pub commands : List Text
  pub threads : List Monitor
  pub audio : Audio
  pub battery : Battery

abbrev pub command : Text → Text
command b = codes "echo " ++ b ++ codes " >> /sys/class/backlight/lcd-backlight/brightness"

-- `SetScreenBrightness`
unfoldable pub set_screen_brightness : ℤ → App → App
set_screen_brightness brightness a =
    let b = to_string brightness in
    record a { brightness_string = b; commands = command b ∷ a.commands }

-- `lv_event_t`: the click, and the other events.
pub data Event : Type 0 where
  clicked other : Event

-- The click of a button; the change stays in the range of an `int` for two thousand million clicks.
clicked_button : Answers → (ℤ → ℤ) → App → App
unfolding set_screen_brightness
clicked_button w change a =
    let b = change a.brightness in
    set_screen_brightness b
      (record a { audio = (play_track w key_press a.audio).1; brightness = b })

-- `decrease_brightness_btn_callback`
unfoldable pub decrease_brightness_btn_callback : Answers → Event → App → App
unfolding clicked_button
decrease_brightness_btn_callback w clicked a = clicked_button w (λ b. b -ℤ pos 1) a
decrease_brightness_btn_callback w other a = a

-- `increase_brightness_btn_callback`
unfoldable pub increase_brightness_btn_callback : Answers → Event → App → App
unfolding clicked_button
increase_brightness_btn_callback w clicked a = clicked_button w (λ b. b +ℤ pos 1) a
increase_brightness_btn_callback w other a = a

-- The local string `b` of `brightness_monitor`.
abbrev pub brightness_string_b : Buffer
brightness_string_b = local 8

-- A round of `brightness_monitor`; the string ends with the round, which makes no difference where it
-- was not handed out.
unfoldable pub brightness_round : App → App
brightness_round a =
    let b = to_string a.brightness in
    let obj = record (a.brightness_value) { text = b } in
    let log = (change_label obj (record { buffer = brightness_string_b; text = b }) a.calls).1 in
    let changed = record a {
      brightness_value = obj;
      calls = destroyed brightness_string_b ∷ log;
    } in
    if not (text_eq a.brightness_value.text b) then changed else a
