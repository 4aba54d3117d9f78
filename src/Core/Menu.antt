-- ===== src/Core/Menu.antt =====
-- The screen that core.cpp sets up: the two buttons, the labels, and the start of the threads.
use battery_info.Prelude.{Bool, List, [], if◌then◌else◌, ℕ, ◌-◌, ◌/◌, true, ◌∷◌, Option, none, some}
use battery_info.Prelude.Text.{Text, codes}
use battery_info.Prelude.Int.{ℤ}
use battery_info.Gui.Calls.{
  red, green, orange, statstrip_reg_40, statstrip_bold_40, align_right, align_center, usleep,
  lasting_chars, GuiObj, Gui, pure, ◌>>=◌, ◌>>◌, call, Handle,
}
use battery_info.Gui.Widgets.{Screen, add_title, add_label, add_button}
use battery_info.Battery.State.{Battery, Gpiod}
use battery_info.Battery.Gpio.{battery_init}
use battery_info.Core.App.{
  Monitor, App, brightness_monitor, battery_current_monitor, battery_voltage_monitor,
  battery_health_monitor, battery_temp_monitor, battery_level_monitor, in_dock_monitor,
  battery_charging_monitor,
}

-- HALF_SCREEN
abbrev half_screen : Screen → ℕ
half_screen s = s.canvas_width / 2

-- STRT_Y, on a screen of at least 110 lines
abbrev strt_y : Screen → ℕ
strt_y s = s.canvas_height - 100 - 10

-- A function of gui.cpp that is given an object keeps its result in `obj`.
abbrev kept : GuiObj → Gui Handle → Gui GuiObj
kept obj m = do h ← m; pure (record obj { obj = h })

-- One half of `AddAdjustBrightness`
abbrev adjust_button : Screen → GuiObj → Gui GuiObj
adjust_button s btn =
    let placed = record btn {
      font = statstrip_bold_40;
      obj_id = 9;
      y = strt_y s;
      w = 220;
      h = 100;
    } in
    kept placed (add_button s placed)

-- `AddAdjustBrightness`; the two functions of the buttons are numbered 1 and 2.
unfoldable pub add_adjust_brightness : Screen → App → App
add_adjust_brightness s a =
    let (d, log) =
      adjust_button s (record (a.decrease_btn) { text = codes "-"; cb = 1; color = red; x = 13 })
        a.calls in
    let (i, log') =
      adjust_button s (record (a.increase_btn) { text = codes "+"; cb = 2; color = green; x = 246 })
        (usleep 1000 ∷ log) in
    record a { decrease_btn = d; increase_btn = i; calls = log' }

-- A label on the left, whose object is not kept; the column is that of a screen at least 70 wide.
unfoldable pub name_label : Screen → Text → ℕ → ℕ → GuiObj → Gui GuiObj
name_label s t x y obj =
    let placed = record obj {
      font = statstrip_reg_40;
      text = t;
      text_align = align_right;
      x = x;
      y = y;
      w = half_screen s - 35;
      h = 50;
    } in
    do _ ← add_label s placed (lasting_chars t); call (usleep 10000); pure placed

-- A label on the right, which shows "Checking..." until its thread has a value.
unfoldable pub value_label : Screen → ℕ → GuiObj → Gui GuiObj
value_label s y obj =
    let t = codes "Checking..." in
    let placed = record obj {
      font = statstrip_reg_40;
      text = t;
      text_align = align_center;
      set_color = true;
      color = orange;
      x = 240;
      y = y;
      w = half_screen s;
      h = 50;
    } in
    do made ← kept placed (add_label s placed (lasting_chars t)); call (usleep 10000); pure made

unfoldable pub current_row : Screen → App → Gui App
current_row s a = do
  l ← name_label s (codes "Current:") 0 175 a.current_label
  v ← value_label s 175 a.current
  pure (record a { current_label = l; current = v })

unfoldable pub voltage_row : Screen → App → Gui App
voltage_row s a = do
  l ← name_label s (codes "Voltage:") 0 225 a.voltage_label
  v ← value_label s 225 a.voltage
  pure (record a { voltage_label = l; voltage = v })

unfoldable pub battery_health_row : Screen → App → Gui App
battery_health_row s a = do
  l ← name_label s (codes "Health:") 0 275 a.battery_health_label
  v ← value_label s 275 a.battery_health
  pure (record a { battery_health_label = l; battery_health = v })

unfoldable pub battery_temp_row : Screen → App → Gui App
battery_temp_row s a = do
  l ← name_label s (codes "Temp:") 0 325 a.battery_temp_label
  v ← value_label s 325 a.battery_temp
  pure (record a { battery_temp_label = l; battery_temp = v })

unfoldable pub battery_level_row : Screen → App → Gui App
battery_level_row s a = do
  l ← name_label s (codes "Level:") 0 375 a.battery_level_label
  v ← value_label s 375 a.battery_level
  pure (record a { battery_level_label = l; battery_level = v })

unfoldable pub in_dock_row : Screen → App → Gui App
in_dock_row s a = do
  l ← name_label s (codes "In Dock:") 0 425 a.in_dock_label
  v ← value_label s 425 a.in_dock
  pure (record a { in_dock_label = l; in_dock = v })

unfoldable pub charging_row : Screen → App → Gui App
charging_row s a = do
  l ← name_label s (codes "Charging:") 0 475 a.charging_label
  v ← value_label s 475 a.charging
  pure (record a { charging_label = l; charging = v })

-- The result of the last `AddLabel` is dropped: `brightness_value.obj` stays as it was.
unfoldable pub brightness_row : Screen → App → Gui App
brightness_row s a =
    let t = codes "60" in
    let placed = record (a.brightness_value) {
      font = statstrip_reg_40;
      text = t;
      text_align = align_center;
      x = 240;
      y = 625;
      w = half_screen s - 35;
      h = 50;
    } in
    do
      l ← name_label s (codes "Brightness:") 50 625 a.brightness_label
      _ ← add_label s placed (lasting_chars t)
      call (usleep 250000)
      pure (record a { brightness_label = l; brightness_value = placed })

unfoldable pub title_row : Screen → App → Gui App
title_row s a =
    let placed = record (a.title) { text = codes "Battery Monitor"; y = 35 } in
    do _ ← add_title s placed placed.text; call (usleep 10000); pure (record a { title = placed })

-- The labels of `main_menu`, from the top.
unfoldable pub menu_labels : Screen → App → Gui App
menu_labels s a0 = do
  a1 ← title_row s a0
  a2 ← current_row s a1
  a3 ← voltage_row s a2
  a4 ← battery_health_row s a3
  a5 ← battery_temp_row s a4
  a6 ← battery_level_row s a5
  a7 ← in_dock_row s a6
  a8 ← charging_row s a7
  brightness_row s a8

-- The application behind the labels of `main_menu`.
unfoldable pub labelled : Screen → App → App
labelled s a = let (made, log) = menu_labels s a a.calls in record made { calls = log }

-- pthread_create of a thread: the first argument tells whether it succeeds, and the result is dropped.
abbrev pub create_thread : (Monitor → Bool) → Monitor → App → App
create_thread creates m a = record a { threads = if creates m then m ∷ a.threads else a.threads }

-- The threads that `main_menu` creates, in their order.
abbrev pub monitors : List Monitor
monitors =
    brightness_monitor ∷ battery_current_monitor ∷ battery_voltage_monitor ∷ battery_health_monitor
    ∷ battery_temp_monitor ∷ battery_level_monitor ∷ in_dock_monitor ∷ battery_charging_monitor ∷ []

abbrev pub create_threads : (Monitor → Bool) → List Monitor → App → App
create_threads creates [] a = a
create_threads creates (m ∷ ms) a = create_threads creates ms (create_thread creates m a)

-- What `Battery_Init` left, and the second after it.
abbrev pub battery_ready : Battery → App → App
battery_ready b a = record a { battery = b; calls = usleep 1000000 ∷ a.calls }

-- The end of `main_menu`; the second argument is what `Battery_Init` left.
abbrev pub started : (Monitor → Bool) → Battery → App → App
started creates b a = create_threads creates monitors (battery_ready b a)

-- `none` if `Battery_Init` waits for ever; its result is dropped.
abbrev pub finish : (Monitor → Bool) → App → Option (ℤ × Battery) → Option App
finish creates a none = none
finish creates a (some (r, b)) = some (started creates b a)

-- `main_menu`, without its argument, which it only copies, while no other thread runs.
unfoldable pub main_menu : Screen → Gpiod → (Monitor → Bool) → App → Option App
unfolding labelled
main_menu s g creates a =
    let made = labelled s a in finish creates made (battery_init g made.battery)
