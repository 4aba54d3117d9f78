-- ===== src/Core/Program/Strings.antt =====
-- The strings that the threads of core.cpp leave their labels with.
use battery_info.Prelude.{
  ◌≡◌, ◌∙◌, ap, if◌then◌else◌, refl, Bool, true, false, List, ◌∷◌, Option, none, some, Bool-cases,
  inl, inr, arith,
}
use battery_info.Prelude.Text.{Text, text_eq}
use battery_info.Prelude.Decimal.{to_string}
use battery_info.Gui.Calls.{Buffer, destroyed, Color, GuiObj, Call, Handle, handle_eq}
use battery_info.Gui.Widgets.{change_label}
use battery_info.Core.Monitors.{
  show, shown_text, battery_current_round, battery_voltage_round, battery_health_round,
  battery_temp_round, battery_level_round, in_dock_round, battery_charging_round,
}
use battery_info.Audio.Control.{Answers}
use battery_info.Core.App.{
  clicked, other, App, set_screen_brightness, decrease_brightness_btn_callback,
  increase_brightness_btn_callback, brightness_round,
}
use battery_info.Core.Brightness.{Press, on_decrease, on_increase, press}
use battery_info.Core.Shown.Display.{dangling, spoilt, label_text, change_label-text}
use battery_info.Core.Program.{
  Happening, current_read, voltage_read, temp_read, health_read, level_read, dock_read,
  charging_read, brightness_read, pressed, set_voltage, set_temp, happen, Later,
}

-- The labels of the seven readings.
pub data Reading : Type 0 where
  of_current of_voltage of_temp of_health of_level of_dock of_charging : Reading

abbrev pub label_of : Reading → App → GuiObj
label_of of_current a = a.current
label_of of_voltage a = a.voltage
label_of of_temp a = a.battery_temp
label_of of_health a = a.battery_health
label_of of_level a = a.battery_level
label_of of_dock a = a.in_dock
label_of of_charging a = a.charging

-- The text of the label is a string that no longer exists.
abbrev pub Dangling : Handle → List Call → Type 0
Dangling h log = (t : Text) × (label_text h log ≡ some (dangling t))

-- A label that dangles stays so while any label takes a string that ends.
change_label-Dangling :
    (k : Handle) (string : Buffer) (text : Text) (obj : GuiObj) (log : List Call)
    → Dangling k log
    → Dangling k
        (destroyed string ∷ (change_label obj (record { buffer = string; text = text }) log).1)
change_label-Dangling k string text obj log (t, e) = (
  _,
  change_label-text k string text obj log
      ∙ ap (λ x. if handle_eq k obj.obj then some (dangling text) else spoilt string x) e
      ∙ chosen (handle_eq k obj.obj),
)
  where
    chosen :
        (b : Bool)
        → (if b then some (dangling text) else some (dangling t))
          ≡ some (dangling (if b then text else t))
    chosen true = refl
    chosen false = refl

pub show-Dangling :
    (k : Handle) (string : Buffer) (color : Color) (text : Text) (obj : GuiObj) (log : List Call)
    → Dangling k log
    → Dangling k (show string color text obj log).1
unfolding show
show-Dangling k string color text obj log d =
    change_label-Dangling k string text (record obj { color = color }) log d

brightness_round-Dangling :
    (k : Handle) (a : App) → Dangling k a.calls → Dangling k (brightness_round a).calls
unfolding brightness_round
brightness_round-Dangling k a d =
    elim (Bool-cases (text_eq a.brightness_value.text (to_string a.brightness))) [
      | inl e ↦ rw e d
      | inr e ↦ rw e (change_label-Dangling k _ _ _ _ d)
    ]

-- The handles of the labels.
pub record Handles : Type 0 where
  pub current : Handle
  pub voltage : Handle
  pub temp : Handle
  pub health : Handle
  pub level : Handle
  pub dock : Handle
  pub charging : Handle

unfoldable pub handles : App → Handles
handles a = record {
  current = a.current.obj;
  voltage = a.voltage.obj;
  temp = a.battery_temp.obj;
  health = a.battery_health.obj;
  level = a.battery_level.obj;
  dock = a.in_dock.obj;
  charging = a.charging.obj;
}

unfoldable pub pick : Reading → Handles → Handle
pick of_current hs = hs.current
pick of_voltage hs = hs.voltage
pick of_temp hs = hs.temp
pick of_health hs = hs.health
pick of_level hs = hs.level
pick of_dock hs = hs.dock
pick of_charging hs = hs.charging

pub pick-handles : (r : Reading) (a : App) → pick r (handles a) ≡ (label_of r a).obj
unfolding pick handles
pick-handles of_current a = refl
pick-handles of_voltage a = refl
pick-handles of_temp a = refl
pick-handles of_health a = refl
pick-handles of_level a = refl
pick-handles of_dock a = refl
pick-handles of_charging a = refl

-- The labels keep their handles, and those that dangle still do.
pub record Follows (a b : App) : Type 0 where
  pub same : handles b ≡ handles a
  pub still : (k : Handle) → Dangling k a.calls → Dangling k b.calls

set_voltage-Follows :
    (a : App) (b : Buffer) (c : Color) (text : Option Text)
    → Later (Follows a) (set_voltage a (shown_text b c a.voltage text))
unfolding handles show
set_voltage-Follows a b c none = tt
set_voltage-Follows a b c (some t) = record {
  same = refl;
  still = λ k d. show-Dangling k b c t a.voltage a.calls d;
}

set_temp-Follows :
    (a : App) (b : Buffer) (c : Color) (text : Option Text)
    → Later (Follows a) (set_temp a (shown_text b c a.battery_temp text))
unfolding handles show
set_temp-Follows a b c none = tt
set_temp-Follows a b c (some t) = record {
  same = refl;
  still = λ k d. show-Dangling k b c t a.battery_temp a.calls d;
}

brightness_round-handles : (a : App) → handles (brightness_round a) ≡ handles a
unfolding brightness_round handles
brightness_round-handles a = ground arith

press-Follows : (w : Answers) (p : Press) (a : App) → Follows a (press w p a)
unfolding press decrease_brightness_btn_callback increase_brightness_btn_callback
    set_screen_brightness handles
press-Follows w (on_decrease clicked) a = record { same = refl; still = λ k d. d }
press-Follows w (on_increase clicked) a = record { same = refl; still = λ k d. d }
press-Follows w (on_decrease other) a = record { same = refl; still = λ k d. d }
press-Follows w (on_increase other) a = record { same = refl; still = λ k d. d }

pub show-obj :
    (string : Buffer) (color : Color) (text : Text) (obj : GuiObj) (log : List Call)
    → (show string color text obj log).0.obj ≡ obj.obj
unfolding show
show-obj string color text obj log = refl

pub happen-Follows : (h : Happening) (a : App) → Later (Follows a) (happen h a)
unfolding happen battery_current_round battery_level_round battery_health_round in_dock_round
    battery_charging_round battery_voltage_round battery_temp_round handles
happen-Follows (current_read f) a = record {
  same = simp (show-obj) refl;
  still = λ k d. show-Dangling k _ _ _ _ _ d;
}
happen-Follows (voltage_read f) a = set_voltage-Follows a _ _ _
happen-Follows (temp_read f) a = set_temp-Follows a _ _ _
happen-Follows (health_read f) a = record {
  same = simp (show-obj) refl;
  still = λ k d. show-Dangling k _ _ _ _ _ d;
}
happen-Follows (level_read f b) a = record {
  same = simp (show-obj) refl;
  still = λ k d. show-Dangling k _ _ _ _ _ d;
}
happen-Follows (dock_read g) a = record {
  same = simp (show-obj) refl;
  still = λ k d. show-Dangling k _ _ _ _ _ d;
}
happen-Follows (charging_read g) a = record {
  same = simp (show-obj) refl;
  still = λ k d. show-Dangling k _ _ _ _ _ d;
}
happen-Follows brightness_read a = record {
  same = brightness_round-handles a;
  still = λ k d. brightness_round-Dangling k a d;
}
happen-Follows (pressed w p) a = press-Follows w p a
