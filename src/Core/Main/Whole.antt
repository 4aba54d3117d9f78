-- ===== src/Core/Main/Whole.antt =====
-- `main_menu` of core.cpp as the row of its parts.
use battery_info.Prelude.{◌≡◌, refl, ◌∙◌, Bool, List, [], ◌∷◌, Option, none, some}
use battery_info.Gui.Widgets.{Screen}
use battery_info.Battery.State.{Battery, Gpiod}
use battery_info.Battery.Gpio.{battery_init}
use battery_info.Core.App.{
  App, Monitor, brightness_monitor, battery_current_monitor, battery_voltage_monitor,
  battery_health_monitor, battery_temp_monitor, battery_level_monitor, in_dock_monitor,
  battery_charging_monitor,
}
use battery_info.Prelude.Int.{ℤ}
use battery_info.Core.Menu.{
  title_row, current_row, voltage_row, battery_health_row, battery_temp_row, battery_level_row,
  in_dock_row, charging_row, brightness_row, name_label, value_label, menu_labels, labelled,
  main_menu, finish,
}
use battery_info.Core.Main.{Part, create, init_battery, inited, row, run_part, menu_parts}

unfoldable pub run_parts : Screen → Gpiod → (Monitor → Bool) → List Part → App → Option App
run_parts s g w [] a = some a
run_parts s g w (p ∷ ps) a = elim (run_part s g w p a) [
  | none ↦ none
  | some b ↦ run_parts s g w ps b
]

creations : List Part
creations =
    create brightness_monitor
    ∷ create battery_current_monitor
    ∷ create battery_voltage_monitor
    ∷ create battery_health_monitor
    ∷ create battery_temp_monitor
    ∷ create battery_level_monitor
    ∷ create in_dock_monitor
    ∷ create battery_charging_monitor
    ∷ []

run_parts-rows :
    (s : Screen) (g : Gpiod) (w : Monitor → Bool) (a : App)
    → run_parts s g w menu_parts a ≡ run_parts s g w (init_battery ∷ creations) (labelled s a)
unfolding run_parts run_part row labelled menu_labels title_row current_row voltage_row
    battery_health_row battery_temp_row battery_level_row in_dock_row charging_row brightness_row
    name_label value_label creations
run_parts-rows s g w a = refl

run_parts-end :
    (s : Screen) (g : Gpiod) (w : Monitor → Bool) (a : App) (o : Option (ℤ × Battery))
    → elim (inited a o) [ none ↦ none | some b ↦ run_parts s g w creations b ] ≡ finish w a o
unfolding run_parts run_part creations
run_parts-end s g w a none = refl
run_parts-end s g w a (some (r, b)) = refl

-- With no turn of another thread between its parts, `main_menu` is the row of them.
run_parts-main_menu :
    (s : Screen) (g : Gpiod) (w : Monitor → Bool) (a : App)
    → run_parts s g w menu_parts a ≡ main_menu s g w a
unfolding run_parts run_part main_menu
run_parts-main_menu s g w a =
    run_parts-rows s g w a
    ∙ run_parts-end s g w (labelled s a) (battery_init g (labelled s a).battery)
