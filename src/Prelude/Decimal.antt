-- ===== src/Prelude/Decimal.antt =====
-- `std::to_string` of an `int`, and its laws.
use battery_info.Prelude.{
  ℕ, zero, suc, ◌+◌, ◌-◌, dec_lt, ◌*◌, ◌/◌, ◌%◌, ◌≤◌, ◌<◌, ◌≡◌, refl, [], ◌∷◌, ◌++◌, ltb,
  if◌then◌else◌, length, length-append, arith, Bool-cases, inl, inr,
}
use battery_info.Prelude.Int.{ℤ, pos, negsuc}
use battery_info.Prelude.Text.{Text, codes}

abbrev pub digit : ℕ → ℕ
digit n = n + b'0'

-- The digits of `n`, on fuel above `n`.
digits : ℕ → ℕ → Text
digits zero n = []
digits (suc f) n =
    let high = digits f (n / 10) in if ltb n 10 then digit n ∷ [] else high ++ (digit (n % 10) ∷ [])

unfoldable pub decimal : ℕ → Text
unfolding digits
decimal n = digits (suc n) n

unfoldable pub to_string : ℤ → Text
to_string (pos n) = decimal n
to_string (negsuc n) = b'-' ∷ decimal (suc n)

digits-fuel : (f g n : ℕ) → n < f → n < g → digits f n ≡ digits g n
unfolding digits
digits-fuel zero g n h k = absurd (omega arith)
digits-fuel (suc f) zero n h k = absurd (omega arith)
digits-fuel (suc f) (suc g) n h k = elim (Bool-cases (ltb n 10)) [
  | inl e ↦ rw e
  | inr e ↦ rw (e, digits-fuel f g (n / 10) (ground arith) (ground arith))
]

pub decimal_small : (n : ℕ) → n < 10 → decimal n ≡ digit n ∷ []
unfolding decimal
decimal_small n h = ground arith

pub decimal_large : (n : ℕ) → 10 ≤ n → decimal n ≡ decimal (n / 10) ++ (digit (n % 10) ∷ [])
unfolding decimal digits
decimal_large n h =
    rw (digits-fuel (suc (n / 10)) n (n / 10) (omega arith) (omega arith)) (ground arith)

-- The number that a text of digits stands for.
abbrev value_from : ℕ → Text → ℕ
value_from acc [] = acc
value_from acc (c ∷ cs) = value_from (acc * 10 + (c - b'0')) cs

value_from-append :
    (acc : ℕ) (xs : Text) (c : ℕ)
    → value_from acc (xs ++ (c ∷ [])) ≡ value_from acc xs * 10 + (c - b'0')
value_from-append acc [] c = refl
value_from-append acc (x ∷ xs) c = value_from-append (acc * 10 + (x - b'0')) xs c

value-decimal-fuel : (f n : ℕ) → n < f → value_from 0 (decimal n) ≡ n
value-decimal-fuel zero n h = absurd (omega arith)
value-decimal-fuel (suc f) n h = elim (dec_lt n 10) [
  | yes p ↦ rw (decimal_small n p) (omega arith)
  | no p ↦
      rw (decimal_large n (omega arith), value_from-append)
        (omega (arith, value-decimal-fuel f (n / 10) (omega arith)))
]

value-decimal : (n : ℕ) → value_from 0 (decimal n) ≡ n
value-decimal n = value-decimal-fuel (suc n) n (omega arith)

pub length-decimal_pos : (n : ℕ) → 1 ≤ length (decimal n)
length-decimal_pos n = elim (dec_lt n 10) [
  | yes p ↦ rw (decimal_small n p) (omega arith)
  | no p ↦ rw (decimal_large n (omega arith), length-append) (omega arith)
]

test_to_string : (to_string (negsuc 41) ≡ codes "-42") × (to_string (pos 1005) ≡ codes "1005")
unfolding to_string decimal
test_to_string = (refl, refl)

length-decimal-fuel : (f n : ℕ) → n < f → length (decimal n) ≤ suc n
length-decimal-fuel zero n h = absurd (omega arith)
length-decimal-fuel (suc f) n h = elim (dec_lt n 10) [
  | yes p ↦ rw (decimal_small n p) (omega arith)
  | no p ↦
      rw (decimal_large n (omega arith), length-append)
        (omega (arith, length-decimal-fuel f (n / 10) (omega arith)))
]

pub length-decimal_le : (n : ℕ) → length (decimal n) ≤ suc n
length-decimal_le n = length-decimal-fuel (suc n) n (omega arith)
