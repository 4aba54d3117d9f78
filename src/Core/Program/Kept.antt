-- ===== src/Core/Program/Kept.antt =====
-- What every round and every event keeps.
use mathlib.Core.Path.{subst}
use battery_info.Prelude.{◌≡◌, refl, List, [], ◌∷◌, Option, none, some, Bool-cases, inl, inr, arith}
use battery_info.Prelude.Text.{Text, text_eq}
use battery_info.Prelude.Decimal.{to_string}
use battery_info.Audio.Control.{Answers}
use battery_info.Gui.Calls.{Buffer, Color, GuiObj, Call}
use battery_info.Gui.Widgets.{change_label}
use battery_info.Gui.Locking.{IsGuarded}
use battery_info.Core.Monitors.{
  show, shown_text, battery_current_round, battery_voltage_round, battery_health_round,
  battery_temp_round, battery_level_round, in_dock_round, battery_charging_round,
}
use battery_info.Core.App.{
  App, set_screen_brightness, decrease_brightness_btn_callback, increase_brightness_btn_callback,
  brightness_round,
}
use battery_info.Core.Brightness.{Press, press, IsShown, press-IsShown}
use battery_info.Core.Setup.{IsColored}
use battery_info.Core.Program.{
  Happening, current_read, voltage_read, temp_read, health_read, level_read, dock_read,
  charging_read, brightness_read, pressed, set_voltage, set_temp, happen, happenings, Later,
  Later-then,
}

-- The calls of LVGL are guarded, the labels take their colours, and the backlight has the brightness.
pub record IsWell (a : App) : Type 0 where
  pub guarded : IsGuarded a.calls
  pub colored : IsColored a
  pub shown : IsShown a

show-IsGuarded :
    (string : Buffer) (color : Color) (text : Text) (obj : GuiObj) (log : List Call)
    → IsGuarded log
    → IsGuarded (show string color text obj log).1
unfolding show change_label
show-IsGuarded string color text obj log h = ground arith

show-set_color :
    (string : Buffer) (color : Color) (text : Text) (obj : GuiObj) (log : List Call)
    → (show string color text obj log).0.set_color ≡ obj.set_color
unfolding show
show-set_color string color text obj log = refl

-- What holds of a program that has not ended.
abbrev pub Alive : Option App → Type 0
Alive = Later IsWell

set_voltage-Alive :
    (a : App) (b : Buffer) (c : Color) (text : Option Text)
    → IsWell a
    → Alive (set_voltage a (shown_text b c a.voltage text))
unfolding show change_label
set_voltage-Alive a b c none v = tt
set_voltage-Alive a b c (some t) v = ground arith

set_temp-Alive :
    (a : App) (b : Buffer) (c : Color) (text : Option Text)
    → IsWell a
    → Alive (set_temp a (shown_text b c a.battery_temp text))
unfolding show change_label
set_temp-Alive a b c none v = tt
set_temp-Alive a b c (some t) v = ground arith

brightness_round-IsWell : (a : App) → IsWell a → IsWell (brightness_round a)
unfolding brightness_round change_label
brightness_round-IsWell a v =
    elim (Bool-cases (text_eq a.brightness_value.text (to_string a.brightness))) [
      | inl e ↦ rw e v
      | inr e ↦ rw e (ground arith)
    ]

pub press-IsGuarded :
    (w : Answers) (p : Press) (a : App) → IsGuarded a.calls → IsGuarded (press w p a).calls
unfolding press decrease_brightness_btn_callback increase_brightness_btn_callback
    set_screen_brightness
press-IsGuarded w p a h = ground arith

press-IsColored : (w : Answers) (p : Press) (a : App) → IsColored a → IsColored (press w p a)
unfolding press decrease_brightness_btn_callback increase_brightness_btn_callback
    set_screen_brightness
press-IsColored w p a c = ground arith

press-IsWell : (w : Answers) (p : Press) (a : App) → IsWell a → IsWell (press w p a)
press-IsWell w p a v = record {
  guarded = press-IsGuarded w p a v.guarded;
  colored = press-IsColored w p a v.colored;
  shown = press-IsShown w p a v.shown;
}

happen-Alive : (h : Happening) (a : App) → IsWell a → Alive (happen h a)
unfolding happen battery_current_round battery_level_round battery_health_round in_dock_round
    battery_charging_round battery_voltage_round battery_temp_round show change_label
happen-Alive (current_read f) a v = ground arith
happen-Alive (voltage_read f) a v = set_voltage-Alive a _ _ _ v
happen-Alive (temp_read f) a v = set_temp-Alive a _ _ _ v
happen-Alive (health_read f) a v = ground arith
happen-Alive (level_read f b) a v = ground arith
happen-Alive (dock_read g) a v = ground arith
happen-Alive (charging_read g) a v = ground arith
happen-Alive brightness_read a v = brightness_round-IsWell a v
happen-Alive (pressed w p) a v = press-IsWell w p a v

happenings-Alive : (hs : List Happening) (a : App) → IsWell a → Alive (happenings hs a)
unfolding happenings
happenings-Alive [] a v = v
happenings-Alive (h ∷ hs) a v =
    Later-then IsWell (happen h a) hs (happen-Alive h a v) (λ b w. happenings-Alive hs b w)

-- Every row of rounds and events that the program survives keeps it well: LVGL is called under the
-- lock only, the labels of values still take a colour, and the last command to the backlight and
-- the text hold the brightness, if all of this held before.
pub happenings-IsWell :
    (hs : List Happening) (a b : App) → IsWell a → happenings hs a ≡ some b → IsWell b
happenings-IsWell hs a b v e = subst Alive (e) (happenings-Alive hs a v)
