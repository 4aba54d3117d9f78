-- ===== src/Gui/Look.antt =====
-- What the styles of gui.cpp set, behind its calls.
use battery_info.Prelude.{
  ℕ, ◌≡◌, Bool-cases, inl, inr, refl, ◌&&◌, ◌==◌, List, [], ◌∷◌, Option, none, some, if◌then◌else◌,
}
use battery_info.Prelude.Text.{Text, codes}
use battery_info.Gui.Calls.{
  Lvgl, Color, red, green, blue, orange, black, white, Style, line_style, button_style,
  regular_button_style, pass_button_style, fail_button_style, reset_button_style,
  touch_button_style, title_label_style, regular_label_style, small_bold_label_style,
  regular_bold_label_style, large_bold_label_style, cell_style1, cell_style2, table_style,
  screen_style, Property, line_width, line_color, line_rounded, text_color, text_font, bg_opa,
  bg_color, border_width, border_color, border_side, outline_width, pad_top, pad_bottom, Setting,
  colour, opa_100, opa_50, State, default, checked, pressed, disabled, Handle, Call, style_init,
  style_copy, style_set,
}
use battery_info.Gui.Widgets.{contains, chosen_style}
use battery_info.Gui.Locking.{IsGuarded}
use battery_info.Gui.Start.{gui_init}
use battery_info.Gui.Styles.{declare_styles, create_screen}

abbrev style_number : Style → ℕ
style_number line_style = 0
style_number button_style = 1
style_number regular_button_style = 2
style_number pass_button_style = 3
style_number fail_button_style = 4
style_number reset_button_style = 5
style_number touch_button_style = 6
style_number title_label_style = 7
style_number regular_label_style = 8
style_number small_bold_label_style = 9
style_number regular_bold_label_style = 10
style_number large_bold_label_style = 11
style_number cell_style1 = 12
style_number cell_style2 = 13
style_number table_style = 14
style_number screen_style = 15

abbrev property_number : Property → ℕ
property_number line_width = 0
property_number line_color = 1
property_number line_rounded = 2
property_number text_color = 3
property_number text_font = 4
property_number bg_opa = 5
property_number bg_color = 6
property_number border_width = 7
property_number border_color = 8
property_number border_side = 9
property_number outline_width = 10
property_number pad_top = 11
property_number pad_bottom = 12

abbrev state_number : State → ℕ
state_number default = 0
state_number checked = 1
state_number pressed = 2
state_number disabled = 3

-- What a style has for a property in a state (the calls are the newest first): nothing behind its
-- initialisation, what the other style had behind a copy, and else what was set last.
abbrev pub setting : Style → Property → State → List Call → Option Setting
setting s p st [] = none
setting s p st (style_init t ∷ cs) =
    let rest = setting s p st cs in if style_number s == style_number t then none else rest
setting s p st (style_copy t u ∷ cs) =
    let copied = setting u p st cs in
    let rest = setting s p st cs in if style_number s == style_number t then copied else rest
setting s p st (style_set t q st' v ∷ cs) =
    let rest = setting s p st cs in
    if style_number s == style_number t
      && property_number p == property_number q
      && state_number st == state_number st'
    then some v
    else rest
setting s p st (c ∷ cs) = setting s p st cs

-- The colour of a button, by its text.
abbrev pub button_color : Text → Color
button_color text =
    if contains (codes "PASS") text
    then green
    else if contains (codes "FAIL") text
    then red
    else if contains (codes "RESET") text
    then orange
    else blue

-- A style with the look of a button of the colour. In the state `checked` it sets no colour.
abbrev pub LooksLike : Style → Color → List Call → Type 0
LooksLike s c log =
    (setting s bg_color default log ≡ some (colour c))
    × (setting s bg_color pressed log ≡ some (colour c))
    × (setting s bg_color disabled log ≡ some (colour c))
    × (setting s border_color default log ≡ some (colour black))
    × (setting s border_color pressed log ≡ some (colour black))
    × (setting s border_color disabled log ≡ some (colour black))
    × (setting s text_color default log ≡ some (colour white))
    × (setting s bg_opa default log ≡ some opa_100)
    × (setting s bg_opa pressed log ≡ some opa_50)

-- The four styles that `AddButton` chooses from, and their colours.
data Button : Style → Color → Type 0 where
  regular : Button regular_button_style blue
  passed : Button pass_button_style green
  failed : Button fail_button_style red
  reset : Button reset_button_style orange

Button-LooksLike :
    {s : Style} {c : Color} (b : Button s c) (log : List Call)
    → LooksLike s c (declare_styles log).1
unfolding declare_styles
Button-LooksLike regular log = (refl, refl, refl, refl, refl, refl, refl, refl, refl)
Button-LooksLike passed log = (refl, refl, refl, refl, refl, refl, refl, refl, refl)
Button-LooksLike failed log = (refl, refl, refl, refl, refl, refl, refl, refl, refl)
Button-LooksLike reset log = (refl, refl, refl, refl, refl, refl, refl, refl, refl)

chosen_button : (text : Text) → Button (chosen_style text) (button_color text)
chosen_button text = elim (Bool-cases (contains (codes "PASS") text)) [
  | inl e ↦ rw e passed
  | inr e ↦ elim (Bool-cases (contains (codes "FAIL") text)) [
    | inl e1 ↦ rw (e, e1) failed
    | inr e1 ↦ elim (Bool-cases (contains (codes "RESET") text)) [
      | inl e2 ↦ rw (e, e1, e2) reset
      | inr e2 ↦ rw (e, e1, e2) regular
    ]
  ]
]

-- What the style that the buttons copy has for an opacity when they copy it, and in the end.
abbrev pub copied_opacity : State → Option Setting
copied_opacity default = some opa_100
copied_opacity pressed = some opa_50
copied_opacity _ = none

abbrev pub later_opacity : State → Setting
later_opacity pressed = opa_50
later_opacity _ = opa_100

every_state :
    (P : State → Type 0) (st : State) → P default → P checked → P pressed → P disabled → P st
every_state P default a b c d = a
every_state P checked a b c d = b
every_state P pressed a b c d = c
every_state P disabled a b c d = d

Button-opacity :
    {s : Style} {c : Color} (b : Button s c) (st : State) (log : List Call)
    → setting s bg_opa st (declare_styles log).1 ≡ copied_opacity st
unfolding declare_styles
Button-opacity regular st log =
    every_state
      (λ st. setting regular_button_style bg_opa st (declare_styles log).1 ≡ copied_opacity st) st
      refl refl refl refl
Button-opacity passed st log =
    every_state
      (λ st. setting pass_button_style bg_opa st (declare_styles log).1 ≡ copied_opacity st) st refl
      refl refl refl
Button-opacity failed st log =
    every_state
      (λ st. setting fail_button_style bg_opa st (declare_styles log).1 ≡ copied_opacity st) st refl
      refl refl refl
Button-opacity reset st log =
    every_state
      (λ st. setting reset_button_style bg_opa st (declare_styles log).1 ≡ copied_opacity st) st
      refl refl refl refl

touch-opacity :
    (st : State) (log : List Call)
    → (setting touch_button_style bg_opa st (declare_styles log).1 ≡ none)
      × (setting button_style bg_opa st (declare_styles log).1 ≡ some (later_opacity st))
unfolding declare_styles
touch-opacity default log = (refl, refl)
touch-opacity checked log = (refl, refl)
touch-opacity pressed log = (refl, refl)
touch-opacity disabled log = (refl, refl)

-- Behind `DeclareStyles` the style of the touch buttons has no opacity in any state. What is set for it
-- stands in button_style, which is opaque in every state, and half transparent while pressed. The
-- style that `AddButton` chooses for a text, whatever the text, has copied it before: it is opaque
-- by default and half transparent while pressed, and has no opacity when checked or disabled.
pub declare_styles-touch :
    (text : Text) (st : State) (log : List Call)
    → (setting touch_button_style bg_opa st (declare_styles log).1 ≡ none)
      × (setting button_style bg_opa st (declare_styles log).1 ≡ some (later_opacity st))
      × (setting (chosen_style text) bg_opa st (declare_styles log).1 ≡ copied_opacity st)
declare_styles-touch text st log =
    let (touch, button) = touch-opacity st log in
    (touch, button, Button-opacity (chosen_button text) st log)

pub gui_init-IsGuarded :
    (lvgl : Lvgl) (active : Handle) (log : List Call)
    → IsGuarded log
    → IsGuarded (gui_init lvgl active log).1
unfolding gui_init create_screen declare_styles
gui_init-IsGuarded lvgl active log h = rw h refl

gui_init-LooksLike :
    (lvgl : Lvgl) (active : Handle) (text : Text) (log : List Call)
    → LooksLike (chosen_style text) (button_color text) (gui_init lvgl active log).1
unfolding gui_init
gui_init-LooksLike lvgl active text log = Button-LooksLike (chosen_button text) _

gui_init-screen :
    (lvgl : Lvgl) (active : Handle) (st : State) (log : List Call)
    → setting screen_style bg_opa st (gui_init lvgl active log).1 ≡ none
unfolding gui_init create_screen declare_styles
gui_init-screen lvgl active default log = refl
gui_init-screen lvgl active checked log = refl
gui_init-screen lvgl active pressed log = refl
gui_init-screen lvgl active disabled log = refl

-- `GuiInit` calls LVGL under the lock only, but for the start of LVGL and of its drivers, when the
-- calls before it were made so and left the lock free. Behind it the style that `AddButton` chooses
-- for a text is green where the text says PASS, else red where it says FAIL, else orange where it
-- says RESET, and else blue, by default, pressed and disabled, with a black border and white
-- letters, opaque, and half transparent while pressed. The style of the screen has no opacity.
pub gui_init_lem :
    (lvgl : Lvgl) (active : Handle) (text : Text) (st : State) (log : List Call)
    → IsGuarded log
    → let done = (gui_init lvgl active log).1 in
      IsGuarded done
      × LooksLike (chosen_style text) (button_color text) done
      × (setting screen_style bg_opa st done ≡ none)
gui_init_lem lvgl active text st log h = (
  gui_init-IsGuarded lvgl active log h,
  gui_init-LooksLike lvgl active text log,
  gui_init-screen lvgl active st log,
)
