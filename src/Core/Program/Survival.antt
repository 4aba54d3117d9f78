-- ===== src/Core/Program/Survival.antt =====
-- Which readings end the program of core.cpp.
use battery_info.Prelude.{
  ◌≤◌, ◌<◌, ◌^◌, ◌≡◌, ◌≢◌, refl, sym, ◌∙◌, ◌↔◌, Bool, Bool-cases, Option-cases, true, false, ◌&&◌,
  ◌||◌, ltb, List, [], ◌∷◌, none, some, inl, inr, arith,
}
use battery_info.Prelude.Int.{pos_part, neg_part}
use battery_info.Prelude.Decimal.{to_string, decimal}
use battery_info.Battery.Gauge.{get_battery_voltage, Scan, scanned, get_battery_temp}
use battery_info.Core.Monitors.{voltage_text, temp_text, battery_voltage_round, battery_temp_round}
use battery_info.Core.Shown.Texts.{battery_voltage_round-none, temp_text-ne-none}
use battery_info.Core.App.{App}
use battery_info.Core.Program.{
  Happening, current_read, voltage_read, temp_read, health_read, level_read, dock_read,
  charging_read, brightness_read, pressed, happen, happenings,
}

-- The number that is read is one that an `int` can hold.
abbrev IsInt : Scan → Type 0
IsInt s = (pos_part (scanned s) < 2 ^ 31) × (neg_part (scanned s) ≤ 2 ^ 31)

abbrev pub AreInts : List Happening → Type 0
AreInts [] = Unit
AreInts (voltage_read (some s) ∷ hs) = IsInt s × AreInts hs
AreInts (temp_read (some s) ∷ hs) = IsInt s × AreInts hs
AreInts (h ∷ hs) = AreInts hs

-- A voltage from -9999 to 99999 microvolts, from a file that opens.
abbrev pub is_fatal : Happening → Bool
is_fatal (voltage_read (some s)) =
    ltb (pos_part (scanned s)) 100000 && ltb (neg_part (scanned s)) 10000
is_fatal _ = false

abbrev pub any_fatal : List Happening → Bool
any_fatal [] = false
any_fatal (h ∷ hs) = is_fatal h || any_fatal hs

voltage-fatal :
    (s : Scan) (a : App)
    → IsInt s
    → (happen (voltage_read (some s)) a ≡ none) ↔ (is_fatal (voltage_read (some s)) ≡ true)
unfolding happen
voltage-fatal s a (h, k) =
    let (to, from) = battery_voltage_round-none s a.voltage h k in
    elim (Option-cases (battery_voltage_round (some s) a.voltage)) [
      | inl e ↦ (λ _. let (p, n) = to e in ground arith, λ _. rw e refl)
      | inr (m, e) ↦ (
        λ bad. (let b = rw e at bad in cc),
        λ f. (let g = from (ground arith, ground arith) in cc),
      )
    ]

temp-survives : (s : Scan) (a : App) → IsInt s → happen (temp_read (some s)) a ≢ none
unfolding happen battery_temp_round get_battery_temp
temp-survives s a (h, k) e = elim (Option-cases (temp_text (scanned s))) [
  | inl none_made ↦ absurd (temp_text-ne-none (scanned s) h k none_made)
  | inr (t, made) ↦ (let b = rw made at e in cc)
]

-- A file that does not open counts as -1, which has two characters.
voltage-closed : (a : App) → happen (voltage_read none) a ≢ none
unfolding happen battery_voltage_round get_battery_voltage voltage_text to_string decimal
voltage-closed a e = cc

temp-closed : (a : App) → happen (temp_read none) a ≢ none
unfolding happen battery_temp_round get_battery_temp temp_text to_string decimal
temp-closed a e = cc

-- Whether a happening ends the program.
happen-fatal :
    (h : Happening) (hs : List Happening) (a : App)
    → AreInts (h ∷ hs)
    → ((happen h a ≡ none) ↔ (is_fatal h ≡ true)) × AreInts hs
unfolding happen
happen-fatal (voltage_read (some s)) hs a n = (voltage-fatal s a n.0, n.1)
happen-fatal (voltage_read none) hs a n = ((λ e. absurd (voltage-closed a e), λ f. cc), n)
happen-fatal (temp_read (some s)) hs a n = ((λ e. absurd (temp-survives s a n.0 e), λ f. cc), n.1)
happen-fatal (temp_read none) hs a n = ((λ e. absurd (temp-closed a e), λ f. cc), n)
happen-fatal (current_read f) hs a n = ((λ e. cc, λ f. cc), n)
happen-fatal (health_read f) hs a n = ((λ e. cc, λ f. cc), n)
happen-fatal (level_read f b) hs a n = ((λ e. cc, λ f. cc), n)
happen-fatal (dock_read g) hs a n = ((λ e. cc, λ f. cc), n)
happen-fatal (charging_read g) hs a n = ((λ e. cc, λ f. cc), n)
happen-fatal brightness_read hs a n = ((λ e. cc, λ f. cc), n)
happen-fatal (pressed w p) hs a n = ((λ e. cc, λ f. cc), n)

happenings-nil : (a : App) → happenings [] a ≢ none
unfolding happenings
happenings-nil a e = cc

happenings-ended :
    (h : Happening) (hs : List Happening) (a : App)
    → happen h a ≡ none
    → happenings (h ∷ hs) a ≡ none
unfolding happenings
happenings-ended h hs a e = rw (e, happenings) refl

happenings-alive :
    (h : Happening) (hs : List Happening) (a b : App)
    → happen h a ≡ some b
    → happenings (h ∷ hs) a ≡ happenings hs b
unfolding happenings
happenings-alive h hs a b e = rw (e, happenings) refl

alive-harmless :
    (h : Happening) (a b : App)
    → (is_fatal h ≡ true → happen h a ≡ none)
    → happen h a ≡ some b
    → is_fatal h ≡ false
alive-harmless h a b from e = elim (Bool-cases (is_fatal h)) [
  | inl f ↦ (let g = from f in cc)
  | inr f ↦ f
]

-- The program ends by an exception exactly when one of the voltages that its threads read is from
-- -9999 to 99999 microvolts, whatever else they read, and whatever buttons are pressed, before and
-- after. The numbers in the files are ones that an `int` can hold.
pub happenings-fatal :
    (hs : List Happening) (a : App) → AreInts hs → (happenings hs a ≡ none) ↔ (any_fatal hs ≡ true)
happenings-fatal [] a n = (λ e. absurd (happenings-nil a e), λ f. cc)
happenings-fatal (h ∷ hs) a n =
    let ((to, from), ns) = happen-fatal h hs a n in
    elim (Option-cases (happen h a)) [
      | inl e ↦ (λ _. rw (to e) refl, λ _. happenings-ended h hs a e)
      | inr (b, e) ↦
          let alive = alive-harmless h a b from e in
          let (to', from') = happenings-fatal hs b ns in
          (
            λ bad. rw alive (to' (sym (happenings-alive h hs a b e) ∙ bad)),
            λ f. happenings-alive h hs a b e ∙ from' (rw alive at f),
          )
    ]
