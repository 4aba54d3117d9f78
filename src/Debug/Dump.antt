-- ===== src/Debug/Dump.antt =====
-- Reading the lines of DBGPRT_ARR back.
use battery_info.Prelude.{
  ℕ, zero, suc, ◌+◌, ◌-◌, ◌*◌, ◌/◌, ◌%◌, ◌<◌, ◌≤◌, ◌≡◌, refl, ap, ap₂, ◌∙◌, true, false, List, [],
  ◌∷◌, ◌++◌, append_assoc, leb, ltb, ◌==◌, length, length-append, take, drop, if◌then◌else◌, arith,
}
use battery_info.Prelude.Text.{Text, drop-append}
use battery_info.Debug.{
  Level, Origin, heading, is_on, dbg_arr_width, hex_digit, gap, hex_columns, char_columns, framed,
  row, rows, dbgprt_arr,
}

-- The elements are bytes.
abbrev pub AreBytes : List ℕ → Type 0
AreBytes [] = Unit
AreBytes (b ∷ bs) = (b < 256) × AreBytes bs

abbrev hex_value : ℕ → ℕ
hex_value c = if leb b'a' c then c - b'a' + 10 else c - b'0'

-- The bytes in the columns of a line, of which so many are left.
abbrev read_columns : ℕ → Text → List ℕ
read_columns (suc n) (h ∷ l ∷ s ∷ t) =
    let rest = read_columns n (drop (length (gap n)) t) in
    if h == b' ' then [] else (hex_value h * 16 + hex_value l) ∷ rest
read_columns n t = []

-- The bytes of the lines, behind a heading that has the length.
abbrev pub read_lines : ℕ → List Text → List ℕ
read_lines n [] = []
read_lines n (r ∷ rs) = read_columns dbg_arr_width (drop n r) ++ read_lines n rs

hex_value-hex_digit :
    (b : ℕ)
    → b < 256
    → ((hex_digit (b / 16) == b' ') ≡ false)
      × (hex_value (hex_digit (b / 16)) * 16 + hex_value (hex_digit (b % 16)) ≡ b)
hex_value-hex_digit b h = (ground arith, ground arith)

read_columns-hex_columns :
    (n : ℕ) (bs : List ℕ) (t : Text)
    → AreBytes bs
    → read_columns n (hex_columns n bs ++ t) ≡ take n bs
read_columns-hex_columns zero bs t h = refl
read_columns-hex_columns (suc n) [] t h = refl
read_columns-hex_columns (suc n) (b ∷ bs) t (h, hs) =
    let (digit, value) = hex_value-hex_digit b h in
    let rest = read_columns-hex_columns n bs t hs in
    rw
      (
        digit,
        value,
        append_assoc (gap n) (hex_columns n bs) t,
        drop-append (gap n) (hex_columns n bs ++ t),
      )
      (ap (λ xs. b ∷ xs) rest)

length-hex_columns :
    (n : ℕ) (bs : List ℕ) → length (hex_columns n bs) ≡ 3 * n + (if ltb 4 n then 1 else 0)
length-hex_columns zero bs = refl
length-hex_columns (suc n) [] =
    ground (arith, length-append (gap n) (hex_columns n []), length-hex_columns n [])
length-hex_columns (suc n) (b ∷ bs) =
    ground (arith, length-append (gap n) (hex_columns n bs), length-hex_columns n bs)

length-char_columns :
    (n : ℕ) (bs : List ℕ) → length (char_columns n bs) ≡ 2 * n + (if ltb 4 n then 1 else 0)
length-char_columns zero bs = refl
length-char_columns (suc n) [] =
    ground (arith, length-append (gap n) (char_columns n []), length-char_columns n [])
length-char_columns (suc n) (b ∷ bs) =
    ground (arith, length-append (gap n) (char_columns n bs), length-char_columns n bs)

length-framed :
    (head hex chars : Text)
    → length (framed head hex chars) ≡ length head + length hex + length chars + 2
length-framed head hex chars =
    let end = chars ++ (10 ∷ []) in
    omega (
      arith,
      length-append head (hex ++ (9 ∷ end)),
      length-append hex (9 ∷ end),
      length-append chars (10 ∷ []),
    )

length-row : (head : Text) (bs : List ℕ) → length (row head bs) ≡ length head + 44
length-row head bs = omega (
  arith,
  length-framed head (hex_columns dbg_arr_width bs) (char_columns dbg_arr_width bs),
  length-hex_columns dbg_arr_width bs,
  length-char_columns dbg_arr_width bs,
)

drop-framed :
    (head hex chars : Text)
    → drop (length head) (framed head hex chars) ≡ hex ++ (9 ∷ (chars ++ (10 ∷ [])))
drop-framed head hex chars = drop-append head (hex ++ (9 ∷ (chars ++ (10 ∷ []))))

read_row :
    (head : Text) (bs : List ℕ)
    → AreBytes bs
    → read_columns dbg_arr_width (drop (length head) (row head bs)) ≡ take dbg_arr_width bs
read_row head bs h =
    let chars = char_columns dbg_arr_width bs in
    ap (λ t. read_columns dbg_arr_width t) (drop-framed head (hex_columns dbg_arr_width bs) chars)
    ∙ read_columns-hex_columns dbg_arr_width bs (9 ∷ (chars ++ (10 ∷ []))) h

take-drop : (n : ℕ) (bs : List ℕ) → take n bs ++ drop n bs ≡ bs
take-drop zero bs = refl
take-drop (suc n) [] = refl
take-drop (suc n) (b ∷ bs) = ap (λ xs. b ∷ xs) (take-drop n bs)

length-drop_le : (n : ℕ) (bs : List ℕ) → length (drop n bs) ≤ length bs
length-drop_le zero bs = omega arith
length-drop_le (suc n) [] = omega arith
length-drop_le (suc n) (b ∷ bs) = omega (arith, length-drop_le n bs)

drop-AreBytes : (n : ℕ) (bs : List ℕ) → AreBytes bs → AreBytes (drop n bs)
drop-AreBytes zero bs v = v
drop-AreBytes (suc n) [] v = tt
drop-AreBytes (suc n) (b ∷ bs) v = drop-AreBytes n bs v.1

-- All the lines are this long.
abbrev pub AreLong : ℕ → List Text → Type 0
AreLong n [] = Unit
AreLong n (r ∷ rs) = (length r ≡ n) × AreLong n rs

rows_lem :
    (f : ℕ) (head : Text) (bs : List ℕ)
    → length bs ≤ f
    → AreBytes bs
    → (read_lines (length head) (rows f head bs) ≡ bs) × AreLong (length head + 44) (rows f head bs)
unfolding rows
rows_lem zero head [] h v = (refl, tt)
rows_lem zero head (b ∷ bs) h v = absurd (omega arith)
rows_lem (suc f) head [] h v = (refl, tt)
rows_lem (suc f) head (b ∷ bs) h v =
    let (rest, long) =
      rows_lem f head (drop dbg_arr_width (b ∷ bs)) (omega (arith, length-drop_le 7 bs))
        (drop-AreBytes 7 bs v.1) in
    (
      ap₂ ◌++◌ (read_row head (b ∷ bs) v) rest ∙ take-drop dbg_arr_width (b ∷ bs),
      (length-row head (b ∷ bs), long),
    )

-- Where the level is printed, the bytes of an array can be read back from the columns that
-- DBGPRT_ARR prints for them, however many there are, and all lines have the same length, 44
-- characters more than their heading.
pub dbgprt_arr_lem :
    (global_level file_level lvl : Level) (o : Origin) (bs : List ℕ)
    → is_on global_level file_level lvl ≡ true
    → AreBytes bs
    → let lines = dbgprt_arr global_level file_level lvl o bs in
      (read_lines (length (heading lvl o)) lines ≡ bs) × AreLong (length (heading lvl o) + 44) lines
unfolding dbgprt_arr
dbgprt_arr_lem global_level file_level lvl o bs on v =
    rw on (rows_lem (length bs) (heading lvl o) bs (omega arith) v)
