-- ===== src/Gui/Calls.antt =====
-- `GuiObj` of Include/Gui.hpp, and the calls that gui.cpp makes of LVGL and of pthread.
use battery_info.Prelude.{
  ℕ, ◌≡◌, refl, Bool, true, false, ◌==◌, List, ◌∷◌, Option, none, some, if◌then◌else◌, arith,
}
use battery_info.Prelude.Text.{Text}

pub data Color : Type 0 where
  red green blue orange yellow lime black white background : Color
  rgb : ℕ → ℕ → ℕ → Color

pub data Align : Type 0 where
  align_left align_center align_right : Align

pub data Font : Type 0 where
  statstrip_reg_30 statstrip_reg_40 : Font
  statstrip_bold_25 statstrip_bold_30 statstrip_bold_40 statstrip_bold_50 : Font

-- The styles of gui.cpp.
pub data Style : Type 0 where
  line_style button_style regular_button_style pass_button_style fail_button_style : Style
  reset_button_style touch_button_style title_label_style regular_label_style : Style
  small_bold_label_style regular_bold_label_style large_bold_label_style : Style
  cell_style1 cell_style2 table_style screen_style : Style

-- What a style can set, and to what.
pub data Property : Type 0 where
  line_width line_color line_rounded text_color text_font bg_opa bg_color : Property
  border_width border_color border_side outline_width pad_top pad_bottom : Property

pub data Setting : Type 0 where
  number : ℕ → Setting
  colour : Color → Setting
  typeface : Font → Setting
  truth : Bool → Setting
  opa_100 opa_50 opa_cover no_side : Setting

pub data State : Type 0 where
  default checked pressed disabled : State

pub data Widget : Type 0 where
  label button line table canvas blank_screen : Widget

-- The parts of a table.
pub data Part : Type 0 where
  part_main part_bg part_cell1 part_cell2 : Part

-- A pointer to an `lv_obj_t`; null is `none`.
abbrev pub Handle : Type 0
Handle = Option ℕ

abbrev pub handle_eq : Handle → Handle → Bool
handle_eq none none = true
handle_eq (some a) (some b) = a == b
handle_eq _ _ = false

pub handle_eq_refl : (h : Handle) → handle_eq h h ≡ true
handle_eq_refl none = refl
handle_eq_refl (some a) = ground arith

-- The fields of `GuiObj` that the code reads; `cb`, a pointer to a function, is its number.
pub record GuiObj : Type 0 where
  pub obj : Handle
  pub label : Handle
  pub font : Font
  pub text_align : Align
  pub hidden : Bool
  pub set_color : Bool
  pub color : Color
  pub btn_toggle : Bool
  pub cb : ℕ
  pub text : Text
  pub obj_id : ℕ
  pub x : ℕ
  pub y : ℕ
  pub w : ℕ
  pub h : ℕ

-- The start of LVGL and of its drivers.
pub data Driver : Type 0 where
  lv_init fbdev_init evdev_init disp_buf_init disp_drv_init disp_drv_register : Driver
  indev_drv_init indev_drv_register : Driver

-- The two threads of gui.cpp.
pub data LvglThread : Type 0 where
  lvgl_task lvgl_tick : LvglThread

-- Where the characters of a `char *` stand: in a literal or a global string, or in a string that is
-- a local variable (each such variable has its number).
pub data Buffer : Type 0 where
  lasting : Buffer
  local : ℕ → Buffer

abbrev pub buffer_eq : Buffer → Buffer → Bool
buffer_eq lasting lasting = true
buffer_eq (local m) (local n) = m == n
buffer_eq _ _ = false

pub buffer_eq_refl : (b : Buffer) → buffer_eq b b ≡ true
buffer_eq_refl lasting = refl
buffer_eq_refl (local n) = ground arith

-- A `char *`, with the characters that it points to when it is passed.
pub record Chars : Type 0 where
  pub buffer : Buffer
  pub text : Text

-- The `c_str()` of a global string, or a literal.
abbrev pub lasting_chars : Text → Chars
lasting_chars t = record { buffer = lasting; text = t }

-- One call, or the end of a local string (`destroyed`). `created` is a call that makes a widget (on
-- the screen, or on another widget).
pub data Call : Type 0 where
  mutex_lock mutex_unlock : Call
  driver : Driver → Call
  thread_create thread_cancel : LvglThread → Call
  task_handler : Call
  tick_inc : ℕ → Call
  usleep : ℕ → Call
  destroyed : Buffer → Call
  created : Widget → Handle → Call
  set_long_mode : Handle → Call
  set_recolor : Handle → Bool → Call
  set_align : Handle → Align → Call
  set_text_static : Handle → Chars → Call
  set_text set_user_data : Handle → Text → Call
  set_user_id : Handle → ℕ → Call
  set_width : Handle → ℕ → Call
  set_size set_pos align_top align_center_of : Handle → ℕ → ℕ → Call
  set_text_opa set_bg_opa : Handle → Call
  set_text_font : Handle → Font → Call
  set_text_color : Handle → Part → Color → Call
  set_bg_color : Handle → Color → Call
  set_hidden set_checkable : Handle → Bool → Call
  toggle delete set_points : Handle → Call
  add_style : Handle → Part → Style → Call
  set_event_cb : Handle → ℕ → Call
  set_state : Handle → State → Call
  set_col_cnt set_row_cnt : Handle → ℕ → Call
  set_col_width : Handle → ℕ → ℕ → Call
  set_cell_type : Handle → ℕ → ℕ → Part → Call
  set_cell_align : Handle → ℕ → ℕ → Align → Call
  set_cell_value : Handle → ℕ → ℕ → Text → Call
  style_init : Style → Call
  style_copy : Style → Style → Call
  style_set : Style → Property → State → Setting → Call
  set_local_bg_opa set_canvas_buffer screen_load screen_clean : Handle → Call
  canvas_fill_bg : Handle → Color → Call
  draw_rect : Handle → ℕ → ℕ → ℕ → ℕ → Color → Call
  draw_text : Handle → ℕ → ℕ → ℕ → Color → Text → Call

-- The pointer that LVGL returns for a new widget, after the calls made so far.
pub record Lvgl : Type 0 where
  pub create : Widget → List Call → Handle

-- A function of gui.cpp: it adds its calls to those made so far, the newest first.
abbrev pub Gui : Type 0 → Type 0
Gui A = List Call → A × List Call

abbrev pub pure : {A : Type 0} → A → Gui A
pure a log = (a, log)

infixl 5 ◌>>=◌ ◌>>◌
abbrev pub ◌>>=◌ : {A B : Type 0} → Gui A → (A → Gui B) → Gui B
◌>>=◌ m f log = let (a, log') = m log in f a log'

abbrev pub ◌>>◌ : {B : Type 0} → Gui (Unit {0}) → Gui B → Gui B
m >> k = m >>= λ _. k

abbrev pub call : Call → Gui (Unit {0})
call c log = (tt, c ∷ log)

abbrev pub create : Lvgl → Widget → Handle → Gui Handle
create lv w parent log = let h = lv.create w log in (h, created w parent ∷ log)

abbrev pub when : Bool → Gui (Unit {0}) → Gui (Unit {0})
when b m log = if b then m log else (tt, log)
