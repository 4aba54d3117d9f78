-- ===== src/Gui/Use.antt =====
-- The functions of gui.cpp that change the screen, and lvgl_lock.
use battery_info.Prelude.{◌≤◌, ◌≡◌, refl, ap, Bool, List, Option, none, some, arith}
use battery_info.Prelude.Text.{Text}
use battery_info.Gui.Calls.{Call, Chars, Handle, GuiObj}
use battery_info.Gui.Styles.{clear_screen}
use battery_info.Gui.Start.{gui_clean_up}
use battery_info.Gui.Grid.{draw_quad_grid_display}
use battery_info.Gui.Locking.{
  IsGuarded, add_label-IsGuarded, change_label-IsGuarded, add_button-IsGuarded,
}
use battery_info.Gui.Table.{GuiTable, add_table, HasRows, add_table_lem}
use battery_info.Gui.Widgets.{
  Screen, add_label, change_label, add_title, add_direction_label, add_countdown_label, add_button,
  add_touch_button, disable_button, set_gui_obj_visibility, remove_gui_obj,
}

-- A use of the interface; that of `AddTable` has the rows, and whether the test was run and passed.
pub data Use : Type 0 where
  label_use countdown_use change_use : GuiObj → Chars → Use
  title_use : GuiObj → Text → Use
  button_use touch_use remove_use : GuiObj → Use
  direction_use grid_use clean_up_use : Use
  clear_use disable_use : Handle → Use
  visibility_use : GuiObj → Bool → Use
  table_use : GuiTable → List (List Text) → Bool → Bool → Use

-- `none` where the code reads outside the rows of a table.
unfoldable pub perform : Screen → Use → List Call → Option (List Call)
perform s (label_use obj text) log = some (add_label s obj text log).1
perform s (title_use obj text) log = some (add_title s obj text log).1
perform s (countdown_use obj text) log = some (add_countdown_label s obj text log).1
perform s (change_use obj text) log = some (change_label obj text log).1
perform s (button_use obj) log = some (add_button s obj log).1
perform s (touch_use obj) log = some (add_touch_button s obj log).1
perform s (remove_use obj) log = some (remove_gui_obj obj log).1
perform s grid_use log = some (draw_quad_grid_display s log).1
perform s clean_up_use log = some (gui_clean_up log).1
perform s (clear_use active) log = some (clear_screen active log).1
perform s (disable_use b) log = some (disable_button b log).1
perform s direction_use log = some (add_direction_label s log).1
perform s (visibility_use obj hide) log = some (set_gui_obj_visibility obj hide log).1
perform s (table_use t values was_run did_pass) log =
    elim (add_table s.lvgl t values was_run did_pass) [ none ↦ none | some m ↦ some (m log).1 ]

-- Not `DisableButton`, and of a table one that has the rows that it is said to have.
abbrev pub IsLocked : Use → Type 0
IsLocked (disable_use b) = ⊥
IsLocked (table_use t values was_run did_pass) = (1 ≤ t.r) × HasRows t.r values
IsLocked _ = Unit

-- Each function of gui.cpp that adds, changes or removes widgets, draws the coloured grid, clears the
-- screen or ends the threads, except `DisableButton`, with any arguments (those of a table as many as
-- it reads): with the lock free before and every call so far guarded, it comes to its end, each
-- call of LVGL is made with the lock held, no call locks it twice, and it is free at the end.
pub perform-IsGuarded :
    (s : Screen) (u : Use) (log : List Call)
    → IsLocked u
    → IsGuarded log
    → (done : List Call) × (perform s u log ≡ some done) × IsGuarded done
unfolding perform add_title add_countdown_label add_touch_button remove_gui_obj add_direction_label
    set_gui_obj_visibility draw_quad_grid_display gui_clean_up clear_screen
perform-IsGuarded s (label_use obj text) log l h = (_, refl, add_label-IsGuarded s obj text log h)
perform-IsGuarded s (change_use obj text) log l h = (_, refl, change_label-IsGuarded obj text log h)
perform-IsGuarded s (button_use obj) log l h = (_, refl, add_button-IsGuarded s obj log h)
perform-IsGuarded s (disable_use b) log l h = absurd l
perform-IsGuarded s (table_use t values was_run did_pass) log (some_row, rows) h =
    let (m, made, guarded) = add_table_lem s.lvgl t values was_run did_pass log some_row rows h in
    ((m log).1, ap (λ o. elim o [ none ↦ none | some n ↦ some (n log).1 ]) made, guarded)
perform-IsGuarded s _ log l h = (_, refl, ground arith)
