-- ===== src/Core/Main.antt =====
-- `main` of core.cpp, with the thread of `main_menu` and all that runs beside them: the buttons are
-- there before that thread starts.
pub mod Launch
pub mod Whole
use battery_info.Prelude.{
  ◌≡◌, Bool, true, false, ◌||◌, ◌==◌, ℕ, List, [], ◌∷◌, Option, none, some, if◌then◌else◌,
}
use battery_info.Prelude.Int.{ℤ}
use battery_info.Gui.Calls.{Handle, Gui}
use battery_info.Gui.Start.{gui_init}
use battery_info.Gui.Widgets.{Screen}
use battery_info.Battery.State.{Battery, Gpiod}
use battery_info.Battery.Gpio.{battery_init}
use battery_info.Core.App.{
  App, Monitor, set_screen_brightness, brightness_monitor, battery_current_monitor,
  battery_voltage_monitor, battery_health_monitor, battery_temp_monitor, battery_level_monitor,
  in_dock_monitor, battery_charging_monitor,
}
use battery_info.Core.Menu.{
  add_adjust_brightness, title_row, current_row, voltage_row, battery_health_row, battery_temp_row,
  battery_level_row, in_dock_row, charging_row, brightness_row, create_thread, battery_ready,
}
use battery_info.Core.Program.{
  Happening, current_read, voltage_read, temp_read, health_read, level_read, dock_read,
  charging_read, brightness_read, pressed, happen,
}

-- `main` up to the thread of `main_menu`; the second argument is the active screen.
unfoldable pub main_start : Screen → Handle → App → App
main_start s active a =
    let bright = set_screen_brightness a.brightness a in
    let ready = record bright { calls = (gui_init s.lvgl active bright.calls).1 } in
    add_adjust_brightness s ready

-- The rows of the menu, and the parts of `main_menu`.
pub data Row : Type 0 where
  title current voltage battery_health battery_temp battery_level in_dock charging : Row
  brightness : Row

pub data Part : Type 0 where
  show_row : Row → Part
  init_battery : Part
  create : Monitor → Part

unfoldable pub row : Row → Screen → App → Gui App
row title = title_row
row current = current_row
row voltage = voltage_row
row battery_health = battery_health_row
row battery_temp = battery_temp_row
row battery_level = battery_level_row
row in_dock = in_dock_row
row charging = charging_row
row brightness = brightness_row

abbrev pub menu_parts : List Part
menu_parts =
    show_row title
    ∷ show_row current
    ∷ show_row voltage
    ∷ show_row battery_health
    ∷ show_row battery_temp
    ∷ show_row battery_level
    ∷ show_row in_dock
    ∷ show_row charging
    ∷ show_row brightness
    ∷ init_battery
    ∷ create brightness_monitor
    ∷ create battery_current_monitor
    ∷ create battery_voltage_monitor
    ∷ create battery_health_monitor
    ∷ create battery_temp_monitor
    ∷ create battery_level_monitor
    ∷ create in_dock_monitor
    ∷ create battery_charging_monitor
    ∷ []

abbrev inited : App → Option (ℤ × Battery) → Option App
inited a none = none
inited a (some (r, b)) = some (battery_ready b a)

-- One part of `main_menu`; `none` if `Battery_Init` waits for ever.
unfoldable pub run_part : Screen → Gpiod → (Monitor → Bool) → Part → App → Option App
unfolding row
run_part s g creates (show_row r) a =
    let (made, log) = row r s a a.calls in some (record made { calls = log })
run_part s g creates init_battery a = inited a (battery_init g a.battery)
run_part s g creates (create m) a = some (create_thread creates m a)

-- Where `main` is: in pthread_cond_wait, in pthread_join, at its end.
pub data MainPc : Type 0 where
  waiting joining finished : MainPc

abbrev pub is_finished : MainPc → Bool
is_finished finished = true
is_finished _ = false

-- The state of the program, what is left of `main_menu`, and `main`.
pub record Session : Type 0 where
  pub app : App
  pub menu : List Part
  pub main : MainPc

abbrev number : Monitor → ℕ
number brightness_monitor = 0
number battery_current_monitor = 1
number battery_voltage_monitor = 2
number battery_health_monitor = 3
number battery_temp_monitor = 4
number battery_level_monitor = 5
number in_dock_monitor = 6
number battery_charging_monitor = 7

abbrev runs : ℕ → List Monitor → Bool
runs n [] = false
runs n (m ∷ ms) = n == number m || runs n ms

-- The thread of the round runs; the buttons are always there.
abbrev pub can_happen : Happening → List Monitor → Bool
can_happen (current_read f) ms = runs 1 ms
can_happen (voltage_read f) ms = runs 2 ms
can_happen (health_read f) ms = runs 3 ms
can_happen (temp_read f) ms = runs 4 ms
can_happen (level_read f b) ms = runs 5 ms
can_happen (dock_read g) ms = runs 6 ms
can_happen (charging_read g) ms = runs 7 ms
can_happen brightness_read ms = runs 0 ms
can_happen (pressed w p) ms = true

-- The turns of `main`, of `main_menu`, and of the other threads, while `main` has not finished; nothing
-- signals the condition of `main`, so it wakes with no signal or not at all. The first argument tells
-- what pthread_create answers for the eight threads.
pub data Turn (creates : Monitor → Bool) (s : Screen) (l : Session) : Session → Type 0 where
  menu_turn :
      (g : Gpiod) (p : Part) (ps : List Part) (a : App)
      → is_finished l.main ≡ false
      → l.menu ≡ p ∷ ps
      → run_part s g creates p l.app ≡ some a
      → Turn creates s l (record l { app = a; menu = ps })
  other_turn :
      (h : Happening) (a : App)
      → is_finished l.main ≡ false
      → can_happen h l.app.threads ≡ true
      → happen h l.app ≡ some a
      → Turn creates s l (record l { app = a })
  wake : l.main ≡ waiting → Turn creates s l (record l { main = joining })
  join : l.main ≡ joining → l.menu ≡ [] → Turn creates s l (record l { main = finished })

pub data Reach (creates : Monitor → Bool) (s : Screen) (l : Session) : Session → Type 0 where
  here : Reach creates s l l
  next : {m n : Session} → Reach creates s l m → Turn creates s m n → Reach creates s l n

-- `main` has created the thread of `main_menu`.
unfoldable pub main : Screen → Handle → App → Session
unfolding main_start
main s active a = record { app = main_start s active a; menu = menu_parts; main = waiting }
