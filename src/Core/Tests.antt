-- ===== src/Core/Tests.antt =====
-- The theorems of the program on readings, on a start of the screen, and on a row of clicks.
use battery_info.Core.Main.{Session, Turn, Reach, here, next, main, main_start}
use battery_info.Core.Main.Launch.{main-silent, main_lem}
use battery_info.Gui.Locking.{IsGuarded}
use battery_info.Prelude.{Bool}
use battery_info.Core.Program.{
  Happening, happen, dock_read, voltage_read, brightness_read, pressed, happenings,
}
use battery_info.Core.Program.Kept.{IsWell, happenings-IsWell}
use battery_info.Core.Program.Survival.{happenings-fatal}
use battery_info.Core.Program.Strings.{of_voltage, label_of, Dangling}
use battery_info.Core.Program.Stale.{read_now, read_later, happenings-Dangling}
use battery_info.Prelude.{◌≡◌, ◌↔◌, refl, true, false, List, [], ◌∷◌, none, some, arith}
use battery_info.Prelude.Int.{◌+ℤ◌, ◌-ℤ◌, pos}
use battery_info.Prelude.Text.{codes}
use battery_info.Prelude.Decimal.{to_string, decimal}
use battery_info.Gui.Calls.{red, GuiObj}
use battery_info.Gui.Tests.{screen, blank}
use battery_info.Audio.Tests.{answers, silent}
use battery_info.Battery.State.{initial}
use battery_info.Battery.Tests.{gpiod}
use battery_info.Battery.Gauge.{value, get_battery_voltage}
use battery_info.Core.Monitors.{show, in_dock_round, voltage_text, battery_voltage_round}
use battery_info.Core.Shown.Display.{Dangles}
use battery_info.Core.Shown.Texts.{voltage_text-digits}
use battery_info.Core.App.{
  App, Monitor, in_dock_monitor, clicked, other, command, increase_brightness_btn_callback,
  set_screen_brightness, brightness_round,
}
use battery_info.Gui.Widgets.{change_label}
use battery_info.Prelude.Text.{insert}
use battery_info.Battery.Gpio.{is_meter_in_dock}
use battery_info.Battery.Gpio.{battery_init, initialize_battery_gpios}
use battery_info.Core.Menu.{
  add_adjust_brightness, started, labelled, main_menu, menu_labels, title_row, current_row,
  voltage_row, battery_health_row, battery_temp_row, battery_level_row, in_dock_row, charging_row,
  brightness_row, name_label, value_label,
}
use battery_info.Core.Setup.{main_menu-in_dock_round}
use battery_info.Core.Brightness.{
  Press, on_decrease, on_increase, presses, press, IsShown, presses_lem,
}

abbrev colored : GuiObj
colored = record blank { set_color = true; obj = some 7 }

abbrev app : App
app = record {
  brightness = pos 60;
  brightness_string = codes "60";
  title = blank;
  current_label = blank;
  voltage_label = blank;
  battery_health_label = blank;
  battery_temp_label = blank;
  battery_level_label = blank;
  in_dock_label = blank;
  charging_label = blank;
  brightness_label = blank;
  current = blank;
  voltage = blank;
  battery_health = blank;
  battery_temp = blank;
  battery_level = blank;
  in_dock = blank;
  charging = blank;
  brightness_value = blank;
  decrease_btn = blank;
  increase_btn = blank;
  calls = [];
  commands = command (codes "60") ∷ [];
  threads = [];
  audio = silent;
  battery = initial;
}

voltage_text-digits_example :
    voltage_text (get_battery_voltage (some (value (pos 3712000)))) ≡ some (codes "3.71 V")
unfolding decimal
voltage_text-digits_example = voltage_text-digits 3712000 (omega arith) (omega arith)

abbrev after_menu : App
after_menu =
    started (λ m. true)
      (record initial {
        in_dock_chip = some 100;
        in_dock_line = some 105;
        charging_chip = some 100;
        charging_line = some 115;
      })
      (labelled screen app)

main_menu-in_dock_round_example :
    Dangles after_menu.in_dock.obj red
      (codes "FALSE")
      (in_dock_round gpiod after_menu.battery after_menu.in_dock after_menu.calls).1
unfolding main_menu labelled menu_labels title_row current_row voltage_row battery_health_row
    battery_temp_row battery_level_row in_dock_row charging_row brightness_row name_label
    value_label battery_init initialize_battery_gpios
main_menu-in_dock_round_example =
    main_menu-in_dock_round screen gpiod (λ m. true) app after_menu refl

abbrev row : List Press
row = on_decrease clicked ∷ on_increase other ∷ on_decrease clicked ∷ on_increase clicked ∷ []

presses_lem_example :
    ((presses answers row app).brightness ≡ pos 59) × IsShown (presses answers row app)
unfolding ◌+ℤ◌ ◌-ℤ◌ to_string decimal
presses_lem_example = presses_lem answers row app ([], refl, refl)

-- A click on + before the first row of the menu; one thread is not created.
abbrev creates : Monitor → Bool
creates in_dock_monitor = false
creates m = true

abbrev clicked_once : Session
clicked_once =
    let l = main screen (some 1) app in record l { app = press answers (on_increase clicked) l.app }

clicked_once-Reach : Reach creates screen (main screen (some 1) app) clicked_once
unfolding happen main press increase_brightness_btn_callback set_screen_brightness
clicked_once-Reach =
    next here (Turn.other_turn (pressed answers (on_increase clicked)) _ refl refl refl)

clicked_once_brightness : clicked_once.app.brightness ≡ pos 61
unfolding main main_start press increase_brightness_btn_callback set_screen_brightness
    add_adjust_brightness ◌+ℤ◌
clicked_once_brightness = refl

main-silent_example :
    IsGuarded clicked_once.app.calls × IsShown clicked_once.app × (clicked_once.app.audio ≡ silent)
main-silent_example =
    main-silent creates screen (some 1) app clicked_once refl refl refl clicked_once-Reach

main_lem_example :
    (m : Session) × Reach creates screen clicked_once m × (m.menu ≡ []) × IsWell m.app
unfolding main
main_lem_example =
    main_lem creates screen gpiod (some 1) app clicked_once refl refl clicked_once-Reach refl

-- Labels that take a colour.
abbrev ready : App
ready = record app {
  current = colored;
  voltage = colored;
  battery_health = colored;
  battery_temp = colored;
  battery_level = colored;
  in_dock = colored;
  charging = colored;
}

ready-IsWell : IsWell ready
unfolding to_string decimal
ready-IsWell = record {
  guarded = refl;
  colored = record {
    current_ok = refl;
    voltage_ok = refl;
    health_ok = refl;
    temp_ok = refl;
    level_ok = refl;
    in_dock_ok = refl;
    charging_ok = refl;
  };
  shown = ([], refl, refl);
}

-- A voltage of 3.7 V, a click, and a voltage that is not there.
abbrev story : List Happening
story =
    voltage_read (some (value (pos 3712000)))
    ∷ pressed answers (on_increase clicked)
    ∷ brightness_read
    ∷ voltage_read (some (value (pos 0)))
    ∷ []

happenings-fatal_example : (happenings story ready ≡ none) ↔ (true ≡ true)
happenings-fatal_example =
    happenings-fatal story ready ((omega arith, omega arith), ((omega arith, omega arith), tt))

-- The first three of these, and a round of the thread of the dock: the program goes on.
abbrev day : List Happening
day =
    dock_read gpiod
    ∷ voltage_read (some (value (pos 3712000)))
    ∷ pressed answers (on_increase clicked)
    ∷ brightness_read
    ∷ []

abbrev evening : App
evening = elim (happenings day ready) [ none ↦ ready | some b ↦ b ]

day-evening : happenings day ready ≡ some evening
unfolding happenings happen in_dock_round show change_label battery_voltage_round voltage_text
    get_battery_voltage press to_string decimal insert is_meter_in_dock
    increase_brightness_btn_callback set_screen_brightness brightness_round ◌+ℤ◌
day-evening = refl

evening_brightness : evening.brightness ≡ pos 61
unfolding happenings happen in_dock_round show change_label battery_voltage_round voltage_text
    get_battery_voltage press to_string decimal insert is_meter_in_dock
    increase_brightness_btn_callback set_screen_brightness brightness_round ◌+ℤ◌
evening_brightness = refl

happenings-IsWell_example : IsWell evening
happenings-IsWell_example = happenings-IsWell day ready evening ready-IsWell day-evening

happenings-Dangling_example : Dangling (label_of of_voltage evening).obj evening.calls
happenings-Dangling_example =
    happenings-Dangling of_voltage day ready evening (read_later (read_now refl)) day-evening
