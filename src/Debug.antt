-- ===== src/Debug.antt =====
-- Include/debug.hpp: the levels of messages, DBGPRT, and DBGPRT_ARR, which shows the bytes of an array
-- in hexadecimal and as characters. A call of printf is the text that it prints.
pub mod Dump
mod Tests
use battery_info.Prelude.{
  ℕ, zero, suc, ◌+◌, ◌-◌, ◌/◌, ◌%◌, Bool, ◌&&◌, ◌||◌, List, [], ◌∷◌, ◌++◌, Option, none, some, leb,
  ltb, ◌==◌, length, drop, replicate, if◌then◌else◌,
}
use battery_info.Prelude.Text.{Text, codes}
use battery_info.Prelude.Decimal.{decimal}

pub data Level : Type 0 where
  dbg_all dbg_info4 dbg_info3 dbg_info2 dbg_info1 dbg_warn dbg_err dbg_none : Level

abbrev pub number : Level → ℕ
number dbg_all = 0
number dbg_info4 = 1
number dbg_info3 = 2
number dbg_info2 = 3
number dbg_info1 = 4
number dbg_warn = 5
number dbg_err = 6
number dbg_none = 7

-- DBG_STR
abbrev dbg_str : Level → Text
dbg_str dbg_all = 9 ∷ []
dbg_str dbg_info4 = codes "INFO 4"
dbg_str dbg_info3 = codes "INFO 3"
dbg_str dbg_info2 = codes "INFO 2"
dbg_str dbg_info1 = codes "INFO 1"
dbg_str dbg_warn = codes "WARN"
dbg_str dbg_err = codes "ERROR"
dbg_str dbg_none = 9 ∷ []

-- The fields of printf that have a width.
abbrev pad_left : ℕ → ℕ → Text → Text
pad_left w c t = replicate (w - length t) c ++ t

abbrev pad_right : ℕ → Text → Text
pad_right w t = t ++ replicate (w - length t) b' '

-- Where a message comes from, and when: my_t, __FILENAME__ and __LINE__.
pub record Origin : Type 0 where
  pub tv_sec : ℕ
  pub tv_nsec : ℕ
  pub filename : Text
  pub line : ℕ

unfoldable pub heading : Level → Origin → Text
heading lvl o =
    codes "["
    ++ pad_left 8 b' ' (decimal o.tv_sec)
    ++ codes "."
    ++ pad_left 9 b'0' (decimal o.tv_nsec)
    ++ codes "] "
    ++ pad_right 8 (dbg_str lvl)
    ++ codes ":"
    ++ pad_right 20 o.filename
    ++ codes "  "
    ++ pad_left 5 b' ' (decimal o.line)
    ++ codes ": "

-- The test of both macros: GLBL_DBGLVL and DBGLVL, which a file may define for itself.
abbrev pub is_on : Level → Level → Level → Bool
is_on global_level file_level lvl =
    leb (number global_level) (number lvl) && leb (number file_level) (number lvl)

-- DBGPRT; the last argument is what the format makes of the other arguments.
unfoldable pub dbgprt : Level → Level → Level → Origin → Text → Text
dbgprt global_level file_level lvl o message =
    if is_on global_level file_level lvl then heading lvl o ++ message else []

-- DBG_ARR_WIDTH
abbrev pub dbg_arr_width : ℕ
dbg_arr_width = 8

abbrev pub hex_digit : ℕ → ℕ
hex_digit d = if ltb d 10 then d + b'0' else d - 10 + b'a'

-- The space in the middle; the argument is the number of columns that follow.
abbrev pub gap : ℕ → Text
gap n = if n == 4 then codes " " else []

-- The columns of the bytes that are left, "%02x " each.
abbrev pub hex_columns : ℕ → List ℕ → Text
hex_columns zero bs = []
hex_columns (suc n) [] = b' ' ∷ b' ' ∷ b' ' ∷ gap n ++ hex_columns n []
hex_columns (suc n) (b ∷ bs) =
    hex_digit (b / 16) ∷ hex_digit (b % 16) ∷ b' ' ∷ gap n ++ hex_columns n bs

-- A byte above 0x7f shows as a dot whether or not `char` has a sign.
abbrev shown : ℕ → ℕ
shown c = if ltb c 0x20 || ltb 0x7f c then b'.' else c

-- The characters, "%c " each; behind the bytes ascii_arr_ holds zeros.
abbrev pub char_columns : ℕ → List ℕ → Text
char_columns zero bs = []
char_columns (suc n) [] = shown 0 ∷ b' ' ∷ gap n ++ char_columns n []
char_columns (suc n) (b ∷ bs) = shown b ∷ b' ' ∷ gap n ++ char_columns n bs

-- A line, of its two parts: a tab is between them.
abbrev pub framed : Text → Text → Text → Text
framed head hex chars = head ++ (hex ++ (9 ∷ (chars ++ (10 ∷ []))))

-- A round of the outer loop.
abbrev pub row : Text → List ℕ → Text
row head bs = framed head (hex_columns dbg_arr_width bs) (char_columns dbg_arr_width bs)

-- The rounds, on fuel.
pub rows : ℕ → Text → List ℕ → List Text
rows zero head bs = []
rows (suc n) head [] = []
rows (suc n) head (b ∷ bs) = row head (b ∷ bs) ∷ rows n head (drop dbg_arr_width (b ∷ bs))

-- DBGPRT_ARR, as the lines that it prints. The time is taken once, before the loop.
unfoldable pub dbgprt_arr : Level → Level → Level → Origin → List ℕ → List Text
unfolding rows
dbgprt_arr global_level file_level lvl o bs =
    if is_on global_level file_level lvl then rows (length bs) (heading lvl o) bs else []
