-- ===== src/Core/Brightness.antt =====
-- What the buttons of the brightness in core.cpp do, pressed any number of times.
use battery_info.Prelude.{
  Bool-cases, inl, inr, ℕ, ◌+◌, ◌≡◌, refl, ap, ◌∙◌, true, List, [], ◌∷◌, arith,
}
use battery_info.Prelude.Int.{pos, pos_part, neg_part, ◌+ℤ◌, ◌-ℤ◌, int_laws}
use battery_info.Prelude.Text.{Text, text_eq, text_eq_refl}
use battery_info.Prelude.Decimal.{to_string}
use battery_info.Gui.Locking.{IsGuarded}
use battery_info.Gui.Widgets.{change_label}
use battery_info.Audio.Control.{Answers}
use battery_info.Core.App.{
  App, command, set_screen_brightness, Event, clicked, other, decrease_brightness_btn_callback,
  increase_brightness_btn_callback, brightness_round,
}

-- An event on one of the two buttons.
pub data Press : Type 0 where
  on_decrease on_increase : Event → Press

unfoldable pub press : Answers → Press → App → App
press w (on_decrease e) a = decrease_brightness_btn_callback w e a
press w (on_increase e) a = increase_brightness_btn_callback w e a

unfoldable pub presses : Answers → List Press → App → App
unfolding press
presses w [] a = a
presses w (p ∷ ps) a = presses w ps (press w p a)

abbrev pub up : Press → ℕ
up (on_increase clicked) = 1
up _ = 0

abbrev pub down : Press → ℕ
down (on_decrease clicked) = 1
down _ = 0

-- The clicks on +, and those on -.
abbrev increases : List Press → ℕ
increases [] = 0
increases (p ∷ ps) = up p + increases ps

abbrev decreases : List Press → ℕ
decreases [] = 0
decreases (p ∷ ps) = down p + decreases ps

-- The text and the last command are those of the brightness.
abbrev pub IsShown : App → Type 0
IsShown a =
    (cs : List Text) × (a.brightness_string ≡ to_string a.brightness)
    × (a.commands ≡ command (to_string a.brightness) ∷ cs)

pub press-IsShown : (w : Answers) (p : Press) (a : App) → IsShown a → IsShown (press w p a)
unfolding press decrease_brightness_btn_callback increase_brightness_btn_callback
    set_screen_brightness
press-IsShown w (on_decrease clicked) a h = (_, refl, refl)
press-IsShown w (on_increase clicked) a h = (_, refl, refl)
press-IsShown w (on_decrease other) a h = h
press-IsShown w (on_increase other) a h = h

press-parts :
    (w : Answers) (p : Press) (a : App)
    → pos_part (press w p a).brightness + down p + neg_part a.brightness
      ≡ neg_part (press w p a).brightness + up p + pos_part a.brightness
unfolding press decrease_brightness_btn_callback increase_brightness_btn_callback
    set_screen_brightness
press-parts w (on_decrease clicked) a = omega int_laws
press-parts w (on_increase clicked) a = omega int_laws
press-parts w (on_decrease other) a = omega arith
press-parts w (on_increase other) a = omega arith

presses-parts :
    (w : Answers) (ps : List Press) (a : App)
    → pos_part (presses w ps a).brightness + decreases ps + neg_part a.brightness
      ≡ neg_part (presses w ps a).brightness + increases ps + pos_part a.brightness
unfolding presses
presses-parts w [] a = omega arith
presses-parts w (p ∷ ps) a =
    let first = press-parts w p a in let rest = presses-parts w ps (press w p a) in omega arith

presses-IsShown : (w : Answers) (ps : List Press) (a : App) → IsShown a → IsShown (presses w ps a)
unfolding presses
presses-IsShown w [] a h = h
presses-IsShown w (p ∷ ps) a h = presses-IsShown w ps (press w p a) (press-IsShown w p a h)

-- However often and in whatever order the buttons of the brightness are pressed, the brightness is
-- the one of the start plus the clicks on + less the clicks on - (no other event counts), and the
-- last command given to the backlight writes it, when the one before the presses did.
pub presses_lem :
    (w : Answers) (ps : List Press) (a : App)
    → IsShown a
    → ((presses w ps a).brightness ≡ a.brightness +ℤ pos (increases ps) -ℤ pos (decreases ps))
      × IsShown (presses w ps a)
presses_lem w ps a h =
    let parts = presses-parts w ps a in (omega int_laws, presses-IsShown w ps a h)

brightness_round-same :
    (a : App)
    → text_eq a.brightness_value.text (to_string a.brightness) ≡ true
    → brightness_round a ≡ a
unfolding brightness_round
brightness_round-same a e = simp (e) refl

brightness_round-text :
    (a : App) → text_eq (brightness_round a).brightness_value.text (to_string a.brightness) ≡ true
unfolding brightness_round
brightness_round-text a =
    elim (Bool-cases (text_eq a.brightness_value.text (to_string a.brightness))) [
      | inl e ↦ simp (e) refl
      | inr e ↦ simp (e) (text_eq_refl (to_string a.brightness))
    ]

pub brightness_round-brightness : (a : App) → (brightness_round a).brightness ≡ a.brightness
unfolding brightness_round
brightness_round-brightness a = ground arith

pub brightness_round-IsGuarded :
    (a : App) → IsGuarded a.calls → IsGuarded (brightness_round a).calls
unfolding brightness_round change_label
brightness_round-IsGuarded a h = ground arith

-- A round of the thread leaves the label's text that of the brightness, calls LVGL under the lock
-- only (the lock free before it and every call so far guarded), and changes nothing when repeated.
brightness_round_lem :
    (a : App)
    → IsGuarded a.calls
    → (text_eq (brightness_round a).brightness_value.text (to_string a.brightness) ≡ true)
      × IsGuarded (brightness_round a).calls
      × (brightness_round (brightness_round a) ≡ brightness_round a)
brightness_round_lem a h = (
  brightness_round-text a,
  brightness_round-IsGuarded a h,
  brightness_round-same (brightness_round a) (
      ap (λ b. text_eq (brightness_round a).brightness_value.text (to_string b))
        (brightness_round-brightness a)
      ∙ brightness_round-text a),
)
