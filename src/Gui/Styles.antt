-- ===== src/Gui/Styles.antt =====
-- `DeclareStyles` and `CreateScreen` of gui.cpp: the calls that set the styles up.
use battery_info.Prelude.{none, false}
use battery_info.Gui.Calls.{
  red, green, blue, orange, yellow, black, white, background, rgb, statstrip_reg_30,
  statstrip_bold_25, statstrip_bold_30, statstrip_bold_40, statstrip_bold_50, line_style,
  button_style, regular_button_style, pass_button_style, fail_button_style, reset_button_style,
  touch_button_style, title_label_style, regular_label_style, small_bold_label_style,
  regular_bold_label_style, large_bold_label_style, cell_style1, cell_style2, table_style,
  screen_style, line_width, line_color, line_rounded, text_color, text_font, bg_opa, bg_color,
  border_width, border_color, border_side, outline_width, pad_top, pad_bottom, number, colour,
  typeface, truth, opa_100, opa_50, opa_cover, no_side, default, checked, pressed, disabled,
  blank_screen, part_main, Handle, mutex_lock, mutex_unlock, style_init, style_copy, style_set,
  add_style, set_local_bg_opa, screen_load, screen_clean, Lvgl, Gui, ◌>>=◌, ◌>>◌, call, create,
}

-- The line, and the style that the buttons copy.
unfoldable pub declare_button_style : Gui (Unit {0})
declare_button_style = do
  call (style_init line_style)
  call (style_set line_style line_width default (number 5))
  call (style_set line_style line_color default (colour black))
  call (style_set line_style line_rounded default (truth false))
  call (style_init button_style)
  call (style_set button_style text_color default (colour white))
  call (style_set button_style text_color pressed (colour white))
  call (style_set button_style bg_opa default opa_100)
  call (style_set button_style bg_opa pressed opa_50)
  call (style_set button_style border_width default (number 5))
  call (style_set button_style border_color default (colour black))
  call (style_set button_style border_color pressed (colour black))
  call (style_set button_style border_color disabled (colour black))
  call (style_set button_style outline_width default (number 0))

-- The four kinds of buttons.
unfoldable pub declare_button_colors : Gui (Unit {0})
declare_button_colors = do
  call (style_init regular_button_style)
  call (style_copy regular_button_style button_style)
  call (style_set regular_button_style bg_color default (colour blue))
  call (style_set regular_button_style bg_color pressed (colour blue))
  call (style_set regular_button_style bg_color disabled (colour blue))
  call (style_init pass_button_style)
  call (style_copy pass_button_style button_style)
  call (style_set pass_button_style bg_color default (colour green))
  call (style_set pass_button_style bg_color pressed (colour green))
  call (style_set pass_button_style bg_color disabled (colour green))
  call (style_init fail_button_style)
  call (style_copy fail_button_style button_style)
  call (style_set fail_button_style bg_color default (colour red))
  call (style_set fail_button_style bg_color pressed (colour red))
  call (style_set fail_button_style bg_color disabled (colour red))
  call (style_init reset_button_style)
  call (style_copy reset_button_style button_style)
  call (style_set reset_button_style bg_color default (colour orange))
  call (style_set reset_button_style bg_color pressed (colour orange))
  call (style_set reset_button_style bg_color disabled (colour orange))

-- The opacities go to the style of the other buttons.
unfoldable pub declare_touch_button : Gui (Unit {0})
declare_touch_button = do
  call (style_init touch_button_style)
  call (style_set touch_button_style bg_color default (colour green))
  call (style_set touch_button_style bg_color checked (colour red))
  call (style_set touch_button_style bg_color disabled (colour green))
  call (style_set button_style bg_opa default opa_100)
  call (style_set button_style bg_opa checked opa_100)
  call (style_set button_style bg_opa disabled opa_100)
  call (style_set button_style bg_opa pressed opa_50)
  call (style_set touch_button_style border_width default (number 0))
  call (style_set touch_button_style border_width checked (number 0))
  call (style_set touch_button_style border_width disabled (number 0))
  call (style_set touch_button_style outline_width default (number 0))
  call (style_set touch_button_style outline_width checked (number 0))
  call (style_set touch_button_style outline_width disabled (number 0))

-- The labels.
unfoldable pub declare_label_styles : Gui (Unit {0})
declare_label_styles = do
  call (style_init title_label_style)
  call (style_set title_label_style text_font default (typeface statstrip_bold_50))
  call (style_set title_label_style text_color default (colour blue))
  call (style_init regular_label_style)
  call (style_set regular_label_style text_font default (typeface statstrip_reg_30))
  call (style_init small_bold_label_style)
  call (style_set small_bold_label_style text_font default (typeface statstrip_bold_30))
  call (style_init regular_bold_label_style)
  call (style_set regular_bold_label_style text_font default (typeface statstrip_bold_40))
  call (style_init large_bold_label_style)
  call (style_set large_bold_label_style text_font default (typeface statstrip_bold_50))

-- The table and its two kinds of cells.
unfoldable pub declare_table_styles : Gui (Unit {0})
declare_table_styles = do
  call (style_init table_style)
  call (style_set table_style text_font disabled (typeface statstrip_bold_25))
  call (style_set table_style bg_opa disabled opa_cover)
  call (style_set table_style bg_color disabled (colour (rgb 128 128 192)))
  call (style_set table_style border_color disabled (colour black))
  call (style_set table_style border_width disabled (number 3))
  call (style_init cell_style1)
  call (style_set table_style bg_opa disabled opa_cover)
  call (style_set cell_style1 text_font default (typeface statstrip_bold_25))
  call (style_set cell_style1 text_color default (colour white))
  call (style_set cell_style1 border_side default no_side)
  call (style_set cell_style1 border_width default (number 0))
  call (style_set cell_style1 pad_top default (number 10))
  call (style_set cell_style1 pad_bottom default (number 10))
  call (style_init cell_style2)
  call (style_set table_style bg_opa disabled opa_cover)
  call (style_set cell_style2 text_font default (typeface statstrip_bold_25))
  call (style_set cell_style2 text_color default (colour yellow))
  call (style_set cell_style2 border_side default no_side)
  call (style_set cell_style2 border_width default (number 0))
  call (style_set cell_style2 pad_top default (number 10))
  call (style_set cell_style2 pad_bottom default (number 10))

-- `DeclareStyles`
unfoldable pub declare_styles : Gui (Unit {0})
unfolding declare_button_style declare_button_colors declare_touch_button declare_label_styles
    declare_table_styles
declare_styles = do
  call mutex_lock
  declare_button_style
  declare_button_colors
  declare_touch_button
  declare_label_styles
  declare_table_styles
  call mutex_unlock

-- `CreateScreen`. The argument is the screen that is active, and LV_STATE_DEFAULT stands in the call
-- of `lv_obj_add_style` where a part is asked for: both are zero.
unfoldable pub create_screen : Lvgl → Handle → Gui (Unit {0})
create_screen lvgl active = do
  call mutex_lock
  call (style_init screen_style)
  call (style_set screen_style bg_color default (colour background))
  call (style_set button_style bg_opa default (number 255))
  call (style_set screen_style border_width default (number 0))
  call (set_local_bg_opa active)
  h ← create lvgl blank_screen none
  call (add_style h part_main screen_style)
  call (screen_load h)
  call mutex_unlock

-- `ClearScreen`
unfoldable pub clear_screen : Handle → Gui (Unit {0})
clear_screen active = do call mutex_lock; call (screen_clean active); call mutex_unlock
