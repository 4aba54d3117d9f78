-- ===== src/Core/Setup.antt =====
-- What the functions of core.cpp that set the screen up leave for the threads.
use mathlib.Core.Option
use battery_info.Prelude.{Bool, sym, ℕ, ◌≡◌, refl, true, List, Option, none, some, arith}
use battery_info.Prelude.Text.{Text, codes}
use battery_info.Prelude.Int.{ℤ}
use battery_info.Gui.Calls.{Gui, Call, GuiObj, red}
use battery_info.Gui.Widgets.{Screen, add_button}
use battery_info.Gui.Locking.{IsGuarded, guarded}
use battery_info.Battery.State.{Battery, Gpiod}
use battery_info.Core.Monitors.{in_dock_round}
use battery_info.Core.Shown.Display.{Dangles, in_dock_round-Dangles}
use battery_info.Core.App.{App, Monitor}
use battery_info.Core.Menu.{
  started, finish, labelled, name_label, value_label, title_row, current_row, voltage_row,
  battery_health_row, battery_temp_row, battery_level_row, in_dock_row, charging_row,
  brightness_row, add_adjust_brightness, menu_labels, main_menu,
}

-- The seven labels of values take a colour.
pub record IsColored (a : App) : Type 0 where
  pub current_ok : a.current.set_color ≡ true
  pub voltage_ok : a.voltage.set_color ≡ true
  pub health_ok : a.battery_health.set_color ≡ true
  pub temp_ok : a.battery_temp.set_color ≡ true
  pub level_ok : a.battery_level.set_color ≡ true
  pub in_dock_ok : a.in_dock.set_color ≡ true
  pub charging_ok : a.charging.set_color ≡ true

-- The function keeps the calls guarded.
unfoldable pub Keeps : {A : Type 0} → Gui A → Type 0
Keeps m = (log : List Call) → IsGuarded log → IsGuarded (m log).1

name_label-Keeps : (s : Screen) (t : Text) (x y : ℕ) (obj : GuiObj) → Keeps (name_label s t x y obj)
unfolding Keeps name_label
name_label-Keeps s t x y obj log h = search guarded

value_label-Keeps : (s : Screen) (y : ℕ) (obj : GuiObj) → Keeps (value_label s y obj)
unfolding Keeps value_label
value_label-Keeps s y obj log h = search guarded

pub title_row-Keeps : (s : Screen) (a : App) → Keeps (title_row s a)
unfolding Keeps title_row
title_row-Keeps s a log h = search guarded

pub current_row-Keeps : (s : Screen) (a : App) → Keeps (current_row s a)
unfolding Keeps current_row
current_row-Keeps s a log h = value_label-Keeps _ _ _ _ (name_label-Keeps _ _ _ _ _ _ h)

pub voltage_row-Keeps : (s : Screen) (a : App) → Keeps (voltage_row s a)
unfolding Keeps voltage_row
voltage_row-Keeps s a log h = value_label-Keeps _ _ _ _ (name_label-Keeps _ _ _ _ _ _ h)

pub battery_health_row-Keeps : (s : Screen) (a : App) → Keeps (battery_health_row s a)
unfolding Keeps battery_health_row
battery_health_row-Keeps s a log h = value_label-Keeps _ _ _ _ (name_label-Keeps _ _ _ _ _ _ h)

pub battery_temp_row-Keeps : (s : Screen) (a : App) → Keeps (battery_temp_row s a)
unfolding Keeps battery_temp_row
battery_temp_row-Keeps s a log h = value_label-Keeps _ _ _ _ (name_label-Keeps _ _ _ _ _ _ h)

pub battery_level_row-Keeps : (s : Screen) (a : App) → Keeps (battery_level_row s a)
unfolding Keeps battery_level_row
battery_level_row-Keeps s a log h = value_label-Keeps _ _ _ _ (name_label-Keeps _ _ _ _ _ _ h)

pub in_dock_row-Keeps : (s : Screen) (a : App) → Keeps (in_dock_row s a)
unfolding Keeps in_dock_row
in_dock_row-Keeps s a log h = value_label-Keeps _ _ _ _ (name_label-Keeps _ _ _ _ _ _ h)

pub charging_row-Keeps : (s : Screen) (a : App) → Keeps (charging_row s a)
unfolding Keeps charging_row
charging_row-Keeps s a log h = value_label-Keeps _ _ _ _ (name_label-Keeps _ _ _ _ _ _ h)

pub brightness_row-Keeps : (s : Screen) (a : App) → Keeps (brightness_row s a)
unfolding Keeps brightness_row
brightness_row-Keeps s a log h = search (guarded, name_label-Keeps)

-- The two buttons are made under the lock.
pub add_adjust_brightness-IsGuarded :
    (s : Screen) (a : App) → IsGuarded a.calls → IsGuarded (add_adjust_brightness s a).calls
unfolding add_adjust_brightness add_button
add_adjust_brightness-IsGuarded s a h = ground arith

pub labelled-IsColored : (s : Screen) (a : App) → IsColored (labelled s a)
unfolding labelled menu_labels title_row current_row voltage_row battery_health_row battery_temp_row
    battery_level_row in_dock_row charging_row brightness_row name_label value_label
labelled-IsColored s a = record {
  current_ok = refl;
  voltage_ok = refl;
  health_ok = refl;
  temp_ok = refl;
  level_ok = refl;
  in_dock_ok = refl;
  charging_ok = refl;
}

pub started-IsColored :
    (w : Monitor → Bool) (b : Battery) (a : App) → IsColored a → IsColored (started w b a)
started-IsColored w b a c = record {
  current_ok = c.current_ok;
  voltage_ok = c.voltage_ok;
  health_ok = c.health_ok;
  temp_ok = c.temp_ok;
  level_ok = c.level_ok;
  in_dock_ok = c.in_dock_ok;
  charging_ok = c.charging_ok;
}

finish-IsColored :
    (w : Monitor → Bool) (a b : App) (o : Option (ℤ × Battery))
    → IsColored a
    → finish w a o ≡ some b
    → IsColored b
finish-IsColored w a b none c e = cc
finish-IsColored w a b (some (r, t)) c e =
    let same = Option.some-injective _ _ e in rw (sym same) (started-IsColored w t a c)

-- After the menu, and whatever the line of the dock reads, the first round of the thread of the dock
-- gives its label the colour red and a string FALSE that is gone behind the round.
pub main_menu-in_dock_round :
    (s : Screen) (g : Gpiod) (w : Monitor → Bool) (a b : App)
    → main_menu s g w a ≡ some b
    → Dangles b.in_dock.obj red (codes "FALSE") (in_dock_round g b.battery b.in_dock b.calls).1
unfolding main_menu
main_menu-in_dock_round s g w a b ran =
    let colored = finish-IsColored w (labelled s a) b _ (labelled-IsColored s a) ran in
    in_dock_round-Dangles g b.battery b.in_dock b.calls colored.in_dock_ok
