-- ===== src/Gui/Locking.antt =====
-- lvgl_lock of gui.cpp, and the calls of LVGL.
use battery_info.Prelude.{ℕ, ◌≡◌, Bool, true, false, List, [], ◌∷◌, Option, none, some, arith}
use battery_info.Prelude.Text.{Text}
use battery_info.Gui.Calls.{
  Call, mutex_lock, mutex_unlock, usleep, destroyed, Chars, driver, thread_create, thread_cancel,
  Handle, GuiObj,
}
use battery_info.Gui.Widgets.{
  Screen, add_label, change_label, add_title, add_button, disable_button,
}

abbrev pub after : Call → Option Bool → Option Bool
after c none = none
after mutex_lock (some false) = some true
after mutex_lock (some true) = none
after mutex_unlock (some true) = some false
after mutex_unlock (some false) = none
after (usleep n) (some b) = some b
after (destroyed d) (some b) = some b
after (driver d) (some b) = some b
after (thread_create t) (some b) = some b
after (thread_cancel t) (some b) = some b
after c (some true) = some true
after c (some false) = none

-- Whether the lock is held after the calls (the newest first); `none` if one of them was a second
-- lock, an unlock of a free lock, or, with the lock free, a call of LVGL other than those that start
-- it and its drivers.
abbrev pub held : List Call → Option Bool
held [] = some false
held (c ∷ cs) = after c (held cs)

-- The calls are guarded, and the lock is free behind them.
abbrev pub IsGuarded : List Call → Type 0
IsGuarded log = held log ≡ some false

pub usleep-IsGuarded : (n : ℕ) (log : List Call) → IsGuarded log → IsGuarded (usleep n ∷ log)
usleep-IsGuarded n log h = ground arith

pub add_title-IsGuarded :
    (s : Screen) (obj : GuiObj) (text : Text) (log : List Call)
    → IsGuarded log
    → IsGuarded (add_title s obj text log).1
unfolding add_title
add_title-IsGuarded s obj text log h = ground arith

pub add_label-IsGuarded :
    (s : Screen) (obj : GuiObj) (text : Chars) (log : List Call)
    → IsGuarded log
    → IsGuarded (add_label s obj text log).1
unfolding add_label
add_label-IsGuarded s obj text log h = ground arith

pub change_label-IsGuarded :
    (obj : GuiObj) (text : Chars) (log : List Call)
    → IsGuarded log
    → IsGuarded (change_label obj text log).1
unfolding change_label
change_label-IsGuarded obj text log h = ground arith

pub add_button-IsGuarded :
    (s : Screen) (obj : GuiObj) (log : List Call)
    → IsGuarded log
    → IsGuarded (add_button s obj log).1
unfolding add_button
add_button-IsGuarded s obj log h = ground arith

-- For `search`, on a sequence of calls.
pub ruleset guarded =
    (usleep-IsGuarded, add_title-IsGuarded, add_label-IsGuarded, add_button-IsGuarded)

-- `DisableButton` calls LVGL on a free lock.
pub disable_button-unguarded :
    (b : Handle) (log : List Call) → IsGuarded log → held (disable_button b log).1 ≡ none
unfolding disable_button
disable_button-unguarded b log h = ground arith
