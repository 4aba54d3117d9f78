-- ===== src/Core/Program/Leaves.antt =====
-- What a round or an event of core.cpp leaves as it was.
use battery_info.Prelude.{◌≡◌, refl, false, Option, none, some, Bool-cases, inl, inr, arith}
use battery_info.Prelude.Text.{Text, text_eq}
use battery_info.Prelude.Decimal.{to_string}
use battery_info.Audio.Control.{Answers, may_play, play_track}
use battery_info.Gui.Calls.{Buffer, Color}
use battery_info.Gui.Locking.{IsGuarded}
use battery_info.Gui.Widgets.{change_label}
use battery_info.Core.Monitors.{
  show, shown_text, battery_current_round, battery_voltage_round, battery_health_round,
  battery_temp_round, battery_level_round, in_dock_round, battery_charging_round,
}
use battery_info.Core.App.{
  App, clicked, other, set_screen_brightness, decrease_brightness_btn_callback,
  increase_brightness_btn_callback, brightness_round,
}
use battery_info.Core.Brightness.{Press, on_decrease, on_increase, press, IsShown, press-IsShown}
use battery_info.Core.Program.{
  Happening, current_read, voltage_read, temp_read, health_read, level_read, dock_read,
  charging_read, brightness_read, pressed, set_voltage, set_temp, happen, Later,
}
use battery_info.Core.Program.Kept.{press-IsGuarded}
use battery_info.Core.Program.Strings.{Reading, label_of}

pub record Leaves (a b : App) : Type 0 where
  pub guarded : IsGuarded a.calls → IsGuarded b.calls
  pub shown : IsShown a → IsShown b
  pub silent : may_play a.audio ≡ false → b.audio ≡ a.audio
  pub battery : b.battery ≡ a.battery
  pub set_color : (x : Reading) → (label_of x b).set_color ≡ (label_of x a).set_color

set_voltage-Leaves :
    (a : App) (b : Buffer) (c : Color) (text : Option Text)
    → Later (Leaves a) (set_voltage a (shown_text b c a.voltage text))
unfolding show change_label
set_voltage-Leaves a b c none = tt
set_voltage-Leaves a b c (some t) = record {
  guarded = λ h. ground arith;
  shown = λ h. h;
  silent = λ h. refl;
  battery = refl;
  set_color = λ x. ground arith;
}

set_temp-Leaves :
    (a : App) (b : Buffer) (c : Color) (text : Option Text)
    → Later (Leaves a) (set_temp a (shown_text b c a.battery_temp text))
unfolding show change_label
set_temp-Leaves a b c none = tt
set_temp-Leaves a b c (some t) = record {
  guarded = λ h. ground arith;
  shown = λ h. h;
  silent = λ h. refl;
  battery = refl;
  set_color = λ x. ground arith;
}

brightness_round-Leaves : (a : App) → Leaves a (brightness_round a)
unfolding brightness_round change_label
brightness_round-Leaves a =
    elim (Bool-cases (text_eq a.brightness_value.text (to_string a.brightness))) [
      | inl e ↦ rw e (record {
        guarded = λ h. h;
        shown = λ h. h;
        silent = λ h. refl;
        battery = refl;
        set_color = λ x. refl;
      })
      | inr e ↦ rw e (record {
        guarded = λ h. ground arith;
        shown = λ h. h;
        silent = λ h. refl;
        battery = refl;
        set_color = λ x. ground arith;
      })
    ]

press-audio :
    (w : Answers) (p : Press) (a : App) → may_play a.audio ≡ false → (press w p a).audio ≡ a.audio
unfolding press decrease_brightness_btn_callback increase_brightness_btn_callback
    set_screen_brightness play_track
press-audio w (on_decrease clicked) a h = simp (h) refl
press-audio w (on_increase clicked) a h = simp (h) refl
press-audio w (on_decrease other) a h = refl
press-audio w (on_increase other) a h = refl

press-set_color :
    (w : Answers) (p : Press) (a : App) (x : Reading)
    → (label_of x (press w p a)).set_color ≡ (label_of x a).set_color
unfolding press decrease_brightness_btn_callback increase_brightness_btn_callback
    set_screen_brightness
press-set_color w p a x = ground arith

press-battery : (w : Answers) (p : Press) (a : App) → (press w p a).battery ≡ a.battery
unfolding press decrease_brightness_btn_callback increase_brightness_btn_callback
    set_screen_brightness
press-battery w p a = ground arith

press-Leaves : (w : Answers) (p : Press) (a : App) → Leaves a (press w p a)
press-Leaves w p a = record {
  guarded = press-IsGuarded w p a;
  shown = press-IsShown w p a;
  silent = press-audio w p a;
  battery = press-battery w p a;
  set_color = press-set_color w p a;
}

pub happen-Leaves : (h : Happening) (a : App) → Later (Leaves a) (happen h a)
unfolding happen battery_current_round battery_level_round battery_health_round in_dock_round
    battery_charging_round battery_voltage_round battery_temp_round show change_label
happen-Leaves (current_read f) a = record {
  guarded = λ h. ground arith;
  shown = λ h. h;
  silent = λ h. refl;
  battery = refl;
  set_color = λ x. ground arith;
}
happen-Leaves (health_read f) a = record {
  guarded = λ h. ground arith;
  shown = λ h. h;
  silent = λ h. refl;
  battery = refl;
  set_color = λ x. ground arith;
}
happen-Leaves (level_read f b) a = record {
  guarded = λ h. ground arith;
  shown = λ h. h;
  silent = λ h. refl;
  battery = refl;
  set_color = λ x. ground arith;
}
happen-Leaves (dock_read g) a = record {
  guarded = λ h. ground arith;
  shown = λ h. h;
  silent = λ h. refl;
  battery = refl;
  set_color = λ x. ground arith;
}
happen-Leaves (charging_read g) a = record {
  guarded = λ h. ground arith;
  shown = λ h. h;
  silent = λ h. refl;
  battery = refl;
  set_color = λ x. ground arith;
}
happen-Leaves (voltage_read f) a = set_voltage-Leaves a _ _ _
happen-Leaves (temp_read f) a = set_temp-Leaves a _ _ _
happen-Leaves brightness_read a = brightness_round-Leaves a
happen-Leaves (pressed w p) a = press-Leaves w p a
