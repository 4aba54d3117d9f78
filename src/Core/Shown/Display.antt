-- ===== src/Core/Shown/Display.antt =====
-- What a label holds behind a round, and the labels of the dock and of the charger.
use battery_info.Prelude.{
  Bool, ◌≡◌, refl, ap, ◌∙◌, ◌≢◌, true, false, List, [], ◌∷◌, Option, none, some, if◌then◌else◌,
  arith,
}
use battery_info.Prelude.Int.{ℤ, pos}
use battery_info.Prelude.Text.{Text, codes}
use battery_info.Gui.Calls.{
  handle_eq, handle_eq_refl, Color, red, green, Handle, Buffer, buffer_eq, buffer_eq_refl,
  lasting_chars, Chars, destroyed, GuiObj, Call, set_text_static, set_text, set_text_color,
  part_main, call, when,
}
use battery_info.Gui.Widgets.{change_label}
use battery_info.Battery.State.{Battery, Gpiod}
use battery_info.Battery.Gpio.{is_meter_in_dock, is_battery_charging}
use battery_info.Battery.Lines.{is_meter_in_dock_lem}
use battery_info.Core.Monitors.{show, in_dock_round, battery_charging_round, eqb_ℤ}

-- What a label has for a text: characters that are still there, or the place of a string that is
-- gone, with the characters that it held. A static text is the pointer that was passed; of any other
-- text LVGL makes a copy.
pub data LabelText : Type 0 where
  intact : Chars → LabelText
  dangling : Text → LabelText

abbrev pub spoilt : Buffer → Option LabelText → Option LabelText
spoilt b none = none
spoilt b (some (intact c)) =
    if buffer_eq b c.buffer then some (dangling c.text) else some (intact c)
spoilt b (some (dangling t)) = some (dangling t)

-- The text of a label after the calls (the newest first).
abbrev pub label_text : Handle → List Call → Option LabelText
label_text h [] = none
label_text h (set_text_static k c ∷ cs) =
    let rest = label_text h cs in if handle_eq h k then some (intact c) else rest
label_text h (set_text k t ∷ cs) =
    let rest = label_text h cs in if handle_eq h k then some (intact (lasting_chars t)) else rest
label_text h (destroyed b ∷ cs) = spoilt b (label_text h cs)
label_text h (c ∷ cs) = label_text h cs

-- The colour of its text.
abbrev last_color : Handle → List Call → Option Color
last_color h [] = none
last_color h (set_text_color k p c ∷ cs) =
    let rest = last_color h cs in if handle_eq h k then some c else rest
last_color h (c ∷ cs) = last_color h cs

-- The label has the colour, and for a text the place where the text stood.
abbrev pub Dangles : Handle → Color → Text → List Call → Type 0
Dangles h color text log =
    (label_text h log ≡ some (dangling text)) × (last_color h log ≡ some color)

colored_text :
    (b : Bool) (h k : Handle) (c : Color) (log : List Call)
    → label_text h (when b (call (set_text_color k part_main c)) log).1 ≡ label_text h log
colored_text true h k c log = refl
colored_text false h k c log = refl

-- A label that takes the text in a string that ends then, and the other labels.
pub change_label-text :
    (k : Handle) (string : Buffer) (text : Text) (obj : GuiObj) (log : List Call)
    → label_text k
        (destroyed string ∷ (change_label obj (record { buffer = string; text = text }) log).1)
      ≡ (if handle_eq k obj.obj then some (dangling text) else spoilt string (label_text k log))
unfolding change_label
change_label-text k string text obj log =
    ap (spoilt string) (colored_text obj.set_color k obj.obj obj.color _)
    ∙ given (handle_eq k obj.obj)
  where
    given :
        (b : Bool)
        → spoilt string (
            if b then some (intact (record { buffer = string; text = text })) else label_text k log)
          ≡ (if b then some (dangling text) else spoilt string (label_text k log))
    given true = rw (buffer_eq_refl string) refl
    given false = refl

pub show-dangling :
    (string : Buffer) (color : Color) (text : Text) (obj : GuiObj) (log : List Call)
    → label_text obj.obj (show string color text obj log).1 ≡ some (dangling text)
unfolding show
show-dangling string color text obj log =
    change_label-text obj.obj string text (record obj { color = color }) log
    ∙ rw (handle_eq_refl obj.obj) refl

show-color :
    (string : Buffer) (color : Color) (text : Text) (obj : GuiObj) (log : List Call)
    → obj.set_color ≡ true
    → last_color obj.obj (show string color text obj log).1 ≡ some color
unfolding show change_label
show-color string color text obj log h = simp (h, handle_eq_refl) refl

show-Dangles :
    (string : Buffer) (color : Color) (text : Text) (obj : GuiObj) (log : List Call)
    → obj.set_color ≡ true
    → Dangles obj.obj color text (show string color text obj log).1
show-Dangles string color text obj log h =
    (show-dangling string color text obj log, show-color string color text obj log h)

-- Whatever the line of the dock reads, a round gives the label of the dock the colour red and a string
-- FALSE, which no longer exists when the round is over.
pub in_dock_round-Dangles :
    (g : Gpiod) (b : Battery) (obj : GuiObj) (log : List Call)
    → obj.set_color ≡ true
    → Dangles obj.obj red (codes "FALSE") (in_dock_round g b obj log).1
unfolding in_dock_round
in_dock_round-Dangles g b obj log h =
    rw (not_zero (is_meter_in_dock g b) (is_meter_in_dock_lem g b).0)
      (show-Dangles _ red (codes "FALSE") obj log h)
  where
    not_zero : (v : ℤ) → v ≢ pos 0 → eqb_ℤ v (pos 0) ≡ false
    not_zero v ne = ground arith

charging_value :
    (g : Gpiod) (b : Battery)
    → eqb_ℤ (is_battery_charging g b) (pos 1) ≡ eqb_ℤ (g.line_get_value b.charging_line) (pos 1)
unfolding is_battery_charging
charging_value g b = ground arith

-- A round gives the label of the charger the colour green and a string TRUE where the charger's line
-- reads 1, and red and FALSE for every other value, failures included; the string no longer exists
-- when the round is over.
battery_charging_round-Dangles :
    (g : Gpiod) (b : Battery) (obj : GuiObj) (log : List Call)
    → obj.set_color ≡ true
    → let charges = eqb_ℤ (g.line_get_value b.charging_line) (pos 1) in
      Dangles obj.obj
        (if charges then green else red)
        (if charges then codes "TRUE" else codes "FALSE")
        (battery_charging_round g b obj log).1
unfolding battery_charging_round
battery_charging_round-Dangles g b obj log h =
    rw (charging_value g b) (show-Dangles _ _ _ obj log h)
