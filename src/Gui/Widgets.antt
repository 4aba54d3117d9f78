-- ===== src/Gui/Widgets.antt =====
-- The labels and buttons of gui.cpp.
use battery_info.Prelude.{ℕ, Bool, true, false, ◌||◌, ◌&&◌, [], ◌∷◌, none, ◌==◌, if◌then◌else◌}
use battery_info.Prelude.Text.{Text, codes}
use battery_info.Gui.Calls.{
  blue, background, align_left, align_center, statstrip_bold_40, statstrip_bold_50, Style,
  line_style, pass_button_style, fail_button_style, reset_button_style, regular_button_style,
  touch_button_style, default, checked, disabled, label, button, line, part_main, Handle, GuiObj,
  mutex_lock, mutex_unlock, usleep, set_long_mode, set_recolor, set_align, set_text_static,
  set_text, set_user_data, set_user_id, set_width, set_size, set_pos, align_top, set_text_opa,
  set_bg_opa, set_text_font, set_text_color, set_bg_color, set_hidden, set_checkable, toggle,
  delete, set_points, add_style, set_event_cb, set_state, Lvgl, Gui, pure, ◌>>=◌, ◌>>◌, call,
  create, when, Chars, lasting_chars,
}

-- LV_HOR_RES_MAX and LV_VER_RES_MAX are set where LVGL is configured: the size of the screen.
pub record Screen : Type 0 where
  pub lvgl : Lvgl
  pub canvas_width : ℕ
  pub canvas_height : ℕ

-- `AddLabel`
unfoldable pub add_label : Screen → GuiObj → Chars → Gui Handle
add_label s obj text = do
  call mutex_lock
  h ← create s.lvgl label none
  call (set_long_mode h)
  call (set_recolor h true)
  call (set_align h obj.text_align)
  call (set_text_static h text)
  call (set_width h obj.w)
  call (set_pos h obj.x obj.y)
  call (set_text_opa h)
  call (set_text_font h obj.font)
  when obj.set_color (call (set_text_color h part_main obj.color))
  when obj.hidden (call (set_hidden h true))
  call mutex_unlock
  pure h

-- `ChangeLabel`
unfoldable pub change_label : GuiObj → Chars → Gui (Unit {0})
change_label obj text = do
  call mutex_lock
  call (set_text_static obj.obj text)
  when obj.set_color (call (set_text_color obj.obj part_main obj.color))
  call mutex_unlock

-- `AddTitle`
unfoldable pub add_title : Screen → GuiObj → Text → Gui Handle
add_title s title text = do
  call mutex_lock
  h ← create s.lvgl label none
  call (set_long_mode h)
  call (set_align h align_center)
  call (set_text h text)
  call (set_size h s.canvas_width 60)
  call (align_top h 0 title.y)
  call (set_bg_color h background)
  call (set_bg_opa h)
  call (set_text_opa h)
  call (set_text_font h statstrip_bold_50)
  call (set_text_color h part_main blue)
  call (usleep 5000)
  l ← create s.lvgl line none
  call (set_points l)
  call (add_style l part_main line_style)
  call mutex_unlock
  pure h

-- `AddDirectionLabel`
unfoldable pub add_direction_label : Screen → Gui (Unit {0})
add_direction_label s = do
  call mutex_lock
  h ← create s.lvgl label none
  call (set_long_mode h)
  call (set_align h align_left)
  call (set_text_static h (lasting_chars (codes "Directions:")))
  call (set_size h s.canvas_width 35)
  call (set_pos h 35 250)
  call (set_text_font h statstrip_bold_40)
  call mutex_unlock

-- `AddCountdownLabel`
unfoldable pub add_countdown_label : Screen → GuiObj → Chars → Gui Handle
add_countdown_label s ta text = do
  call mutex_lock
  h ← create s.lvgl label none
  call (set_long_mode h)
  call (set_align h ta.text_align)
  call (set_text_static h text)
  call (set_width h ta.w)
  call (set_pos h ta.x ta.y)
  call (set_text_font h ta.font)
  call mutex_unlock
  pure h

abbrev starts_with : Text → Text → Bool
starts_with [] ys = true
starts_with (x ∷ xs) [] = false
starts_with (x ∷ xs) (y ∷ ys) = x == y && starts_with xs ys

-- `text.find(word) != npos`, for a word that is not empty
abbrev pub contains : Text → Text → Bool
contains word [] = false
contains word (c ∷ cs) = starts_with word (c ∷ cs) || contains word cs

-- The style of a button goes by its text.
abbrev pub chosen_style : Text → Style
chosen_style text =
    if contains (codes "PASS") text
    then pass_button_style
    else if contains (codes "FAIL") text
    then fail_button_style
    else if contains (codes "RESET") text
    then reset_button_style
    else regular_button_style

-- `AddButton`
unfoldable pub add_button : Screen → GuiObj → Gui Handle
add_button s btn = do
  call mutex_lock
  b ← create s.lvgl button none
  call (set_event_cb b btn.cb)
  call (set_pos b btn.x btn.y)
  call (set_size b btn.w btn.h)
  call (add_style b part_main (chosen_style btn.text))
  l ← create s.lvgl label b
  call (set_text_font l statstrip_bold_40)
  call (set_text l btn.text)
  call (set_state l default)
  when btn.btn_toggle (do call (set_checkable b true); call (toggle b))
  call (set_user_data b btn.text)
  call (set_state b default)
  call mutex_unlock
  pure b

-- `AddTouchButton`
unfoldable pub add_touch_button : Screen → GuiObj → Gui Handle
add_touch_button s btn = do
  call mutex_lock
  b ← create s.lvgl button none
  call (set_event_cb b btn.cb)
  call (set_pos b btn.x btn.y)
  call (set_size b btn.w btn.h)
  call (set_checkable b true)
  call (set_user_id b btn.obj_id)
  call (add_style b part_main touch_button_style)
  call (set_state b checked)
  call mutex_unlock
  pure b

-- `DisableButton`, in which the two calls of the mutex are commented out.
unfoldable pub disable_button : Handle → Gui (Unit {0})
disable_button b = call (set_state b disabled)

-- `SetGuiObjVisibility`; the result is null.
unfoldable pub set_gui_obj_visibility : GuiObj → Bool → Gui Handle
set_gui_obj_visibility obj hide = do
  call mutex_lock
  call (set_hidden obj.obj hide)
  call mutex_unlock
  pure none

-- `RemoveGuiObj`; the result is null.
unfoldable pub remove_gui_obj : GuiObj → Gui Handle
remove_gui_obj obj = do
  call mutex_lock
  call (set_hidden obj.obj true)
  call (delete obj.obj)
  call mutex_unlock
  pure none
