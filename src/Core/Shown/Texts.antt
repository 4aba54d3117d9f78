-- ===== src/Core/Shown/Texts.antt =====
-- The texts of the voltage and the temperature in core.cpp.
use battery_info.Prelude.Int.{pos_part, neg_part}
use battery_info.Prelude.Decimal.{length-decimal_pos}
use battery_info.Battery.Gauge.{trunc_div, scanned}
use battery_info.Gui.Calls.{GuiObj}
use battery_info.Core.Monitors.{battery_voltage_round}
use battery_info.Prelude.{
  ℕ, suc, ◌-◌, ◌/◌, ◌%◌, ◌^◌, ◌≤◌, ◌<◌, ◌≡◌, refl, sym, ◌∙◌, ◌≢◌, ◌↔◌, true, false, ltb, [], ◌∷◌,
  ◌++◌, none, some, length, if◌then◌else◌, arith, append_assoc, dec_lt,
}
use battery_info.Prelude.Int.{ℤ, pos, negsuc}
use battery_info.Prelude.Text.{Text, codes, sub_size, insert, insert-append}
use battery_info.Prelude.Decimal.{
  digit, decimal, to_string, decimal_small, decimal_large, length-decimal_le,
}
use battery_info.Battery.Gauge.{Scan, value, get_battery_voltage, get_battery_temp}
use battery_info.Core.Monitors.{voltage_text, temp_text}

-- The digits of `n` in front of the last two; none where there are but two.
abbrev high_digits : ℕ → Text
high_digits n = if ltb n 100 then [] else decimal (n / 100)

decimal_two :
    (n : ℕ) → 10 ≤ n → decimal n ≡ high_digits n ++ (digit (n / 10 % 10) ∷ digit (n % 10) ∷ [])
decimal_two n h = elim (dec_lt n 100) [
  | yes p ↦
      let e : ltb n 100 ≡ true = ground arith in
      let m : n / 10 % 10 ≡ n / 10 = omega arith in
      decimal_large n h ∙ rw (e, m, decimal_small (n / 10) (omega arith))
  | no p ↦
      let e : ltb n 100 ≡ false = ground arith in
      let d : n / 10 / 10 ≡ n / 100 = omega arith in
      decimal_large n h ∙ rw (e, decimal_large (n / 10) (omega arith), d, append_assoc)
]

short : (n : ℕ) → n < 2 ^ 31 → length (decimal n) < 2 ^ 64
short n h = omega (arith, length-decimal_le n)

voltage_text-two :
    (n : ℕ)
    → 10 ≤ n
    → n < 2 ^ 31
    → voltage_text (pos n)
      ≡ some (high_digits n ++ codes "." ++ (digit (n / 10 % 10) ∷ digit (n % 10) ∷ codes " V"))
unfolding voltage_text to_string
voltage_text-two n h k =
    let xs = high_digits n in
    let ys : Text = digit (n / 10 % 10) ∷ digit (n % 10) ∷ [] in
    let l : length (xs ++ ys) < 2 ^ 64 = rw (decimal_two n h) at (short n k) in
    rw (decimal_two n h, insert-append xs ys (codes ".") l) (rw append_assoc)

voltage_text-one : (n : ℕ) → n < 10 → voltage_text (pos n) ≡ none
unfolding voltage_text to_string
voltage_text-one n h = rw (decimal_small n h) refl

temp_text-one :
    (n : ℕ)
    → 10 ≤ n
    → n < 2 ^ 31
    → temp_text (pos n) ≡ some (decimal (n / 10) ++ codes "." ++ (digit (n % 10) ∷ codes " ºC"))
unfolding temp_text to_string
temp_text-one n h k =
    let xs = decimal (n / 10) in
    let ys : Text = digit (n % 10) ∷ [] in
    let l : length (xs ++ ys) < 2 ^ 64 = rw (decimal_large n h) at (short n k) in
    rw (decimal_large n h, insert-append xs ys (codes ".") l) (rw append_assoc)

some-ne-none : {t : Text} → some t ≢ none
some-ne-none e = cc

insert-ne-none :
    (s t : Text) (k : ℕ)
    → k ≤ length s
    → length s < 2 ^ 64
    → insert s (sub_size (length s) k) t ≢ none
insert-ne-none s t k h l e = ground arith

voltage_text-negsuc : (m : ℕ) → suc m < 2 ^ 31 → voltage_text (negsuc m) ≢ none
unfolding voltage_text to_string
voltage_text-negsuc m h e =
    insert-ne-none (b'-' ∷ decimal (suc m)) (codes ".") 2
      (omega (arith, length-decimal_pos (suc m))) (omega (arith, length-decimal_le (suc m)))
      (ground arith)

-- The size of an integer in a file, on either side of zero.
voltage_text-none :
    (v : ℤ)
    → pos_part v < 2 ^ 31
    → neg_part v ≤ 2 ^ 31
    → (voltage_text (trunc_div v 10000) ≡ none) ↔ ((pos_part v < 100000) × (neg_part v < 10000))
voltage_text-none (pos n) h k = elim (dec_lt (n / 10000) 10) [
  | yes p ↦ (λ e. omega arith, λ b. voltage_text-one (n / 10000) p)
  | no p ↦
      let made = voltage_text-two (n / 10000) (omega arith) (omega arith) in
      (λ e. absurd (some-ne-none (sym made ∙ e)), λ b. absurd (omega arith))
]
voltage_text-none (negsuc n) h k = elim (dec_lt (suc n) 10000) [
  | yes p ↦
      let z : suc n / 10000 ≡ 0 = omega arith in
      (λ e. omega arith, λ b. rw z (voltage_text-one 0 (omega arith)))
  | no p ↦
      let z : suc n / 10000 ≡ suc (suc n / 10000 - 1) = omega arith in
      (
        λ e. absurd (voltage_text-negsuc (suc n / 10000 - 1) (omega arith) (rw z at e)),
        λ b. absurd (omega arith),
      )
]

-- The thread of the voltage fails by an exception, which ends the program, exactly when the number
-- that it takes from a file that opens lies between -9999 and 99999 (below a tenth of a volt). A
-- file that is empty or holds no number counts as -1, and so is among these. The number is one that
-- an `int` can hold.
pub battery_voltage_round-none :
    (s : Scan) (voltage : GuiObj)
    → pos_part (scanned s) < 2 ^ 31
    → neg_part (scanned s) ≤ 2 ^ 31
    → (battery_voltage_round (some s) voltage ≡ none)
      ↔ ((pos_part (scanned s) < 100000) × (neg_part (scanned s) < 10000))
unfolding battery_voltage_round get_battery_voltage
battery_voltage_round-none s voltage h k =
    let (to, from) = voltage_text-none (scanned s) h k in
    (λ e. to (ground arith), λ b. rw (from b) refl)

-- From a tenth of a volt on, the label of the voltage gives volts with two decimals: the digits of the
-- hundredths, with a point before the last two (and nothing before the point below one volt).
pub voltage_text-digits :
    (n : ℕ)
    → 100000 ≤ n
    → n < 2 ^ 31
    → voltage_text (get_battery_voltage (some (value (pos n))))
      ≡ some (
          high_digits (n / 10000)
          ++ codes "."
          ++ (digit (n / 100000 % 10) ∷ digit (n / 10000 % 10) ∷ codes " V"))
unfolding get_battery_voltage
voltage_text-digits n h k =
    let d : n / 10000 / 10 ≡ n / 100000 = omega arith in
    rw (← d) (voltage_text-two (n / 10000) (omega arith) (omega arith))

-- From one degree on, the label of the temperature gives the tenths of the file as degrees with one
-- decimal.
temp_text-digits :
    (n : ℕ)
    → 10 ≤ n
    → n < 2 ^ 31
    → temp_text (get_battery_temp (some (value (pos n))))
      ≡ some (decimal (n / 10) ++ codes "." ++ (digit (n % 10) ∷ codes " ºC"))
unfolding get_battery_temp
temp_text-digits n h k = temp_text-one n h k

-- The text of the temperature can always be made.
pub temp_text-ne-none : (v : ℤ) → pos_part v < 2 ^ 31 → neg_part v ≤ 2 ^ 31 → temp_text v ≢ none
unfolding temp_text to_string
temp_text-ne-none (pos n) h k e =
    insert-ne-none (decimal n) (codes ".") 1 (length-decimal_pos n) (short n h) (ground arith)
temp_text-ne-none (negsuc n) h k e =
    insert-ne-none (b'-' ∷ decimal (suc n)) (codes ".") 1 (omega arith)
      (omega (arith, length-decimal_le (suc n))) (ground arith)
