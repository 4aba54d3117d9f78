-- ===== src/Prelude/Text.antt =====
-- C and C++ strings as lists of character codes.
use Prim.Native.Char.{code}
use Prim.Native.String.{String}
use battery_info.Prelude.{
  ℕ, ◌+◌, ◌-◌, ◌%◌, ◌^◌, ◌<◌, ◌≡◌, refl, ap, Bool, true, false, ◌&&◌, ◌==◌, ltb, List, [], ◌∷◌,
  ◌++◌, Option, none, some, length, length-append, take, drop, if◌then◌else◌, arith,
}

abbrev pub Text : Type 0
Text = List ℕ

-- The character codes of a literal.
abbrev pub codes : String → Text
codes String.[] = []
codes (String.◌∷◌ c s) = code c ∷ codes s

-- `==` of two texts
abbrev pub text_eq : Text → Text → Bool
text_eq [] [] = true
text_eq (x ∷ xs) (y ∷ ys) = x == y && text_eq xs ys
text_eq _ _ = false

pub text_eq_refl : (xs : Text) → text_eq xs xs ≡ true
text_eq_refl [] = refl
text_eq_refl (x ∷ xs) = ground (arith, text_eq_refl xs)

text_eq→eq : (xs ys : Text) → text_eq xs ys ≡ true → xs ≡ ys
text_eq→eq [] [] h = refl
text_eq→eq [] (y ∷ ys) h = cc
text_eq→eq (x ∷ xs) [] h = cc
text_eq→eq (x ∷ xs) (y ∷ ys) h = ground (arith, text_eq→eq xs ys)

-- a - b of `size_t`, which wraps
abbrev pub sub_size : ℕ → ℕ → ℕ
sub_size a b = (a + 2 ^ 64 - b) % 2 ^ 64

-- `std::string::insert`: `none` is the exception std::out_of_range.
abbrev pub insert : Text → ℕ → Text → Option Text
insert s p t = if ltb (length s) p then none else some (take p s ++ t ++ drop p s)

take-append : (xs ys : Text) → take (length xs) (xs ++ ys) ≡ xs
take-append [] ys = refl
take-append (x ∷ xs) ys = ap (λ l. x ∷ l) (take-append xs ys)

pub drop-append : (xs ys : Text) → drop (length xs) (xs ++ ys) ≡ ys
drop-append [] ys = refl
drop-append (x ∷ xs) ys = drop-append xs ys

-- Inserting `k` places before the end of a text that is not too long for `size_t`.
pub insert-append :
    (xs ys t : Text)
    → length (xs ++ ys) < 2 ^ 64
    → insert (xs ++ ys) (sub_size (length (xs ++ ys)) (length ys)) t ≡ some (xs ++ t ++ ys)
insert-append xs ys t h =
    let e : sub_size (length (xs ++ ys)) (length ys) ≡ length xs =
      omega (arith, length-append xs ys) in
    let short : ltb (length (xs ++ ys)) (length xs) ≡ false = ground (arith, length-append xs ys) in
    rw (e, short, take-append, drop-append)
