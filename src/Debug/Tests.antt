-- ===== src/Debug/Tests.antt =====
-- An array in two lines.
use battery_info.Prelude.{ℕ, ◌+◌, ◌≡◌, refl, List, [], ◌∷◌, ◌++◌, length, arith}
use battery_info.Prelude.Text.{codes}
use battery_info.Prelude.Decimal.{decimal}
use battery_info.Debug.{dbg_all, dbg_info1, Origin, heading, dbgprt_arr, char_columns}
use battery_info.Debug.Dump.{AreLong, read_lines, dbgprt_arr_lem}

abbrev origin : Origin
origin = record { tv_sec = 12; tv_nsec = 34; filename = codes "core.cpp"; line = 7 }

abbrev bytes : List ℕ
bytes = 0 ∷ 65 ∷ 127 ∷ 255 ∷ 16 ∷ 32 ∷ 48 ∷ 64 ∷ 80 ∷ []

-- DEL is shown as it is.
test_char_columns : char_columns 8 bytes ≡ codes ". A " ++ (127 ∷ codes " .  .   0 @ ")
test_char_columns = refl

test_heading :
    heading dbg_info1 origin ≡ codes "[      12.000000034] INFO 1  :core.cpp                  7: "
unfolding heading decimal
test_heading = refl

dbgprt_arr_lem_example :
    let lines = dbgprt_arr dbg_all dbg_all dbg_info1 origin bytes in
    (read_lines (length (heading dbg_info1 origin)) lines ≡ bytes)
    × AreLong (length (heading dbg_info1 origin) + 44) lines
dbgprt_arr_lem_example = dbgprt_arr_lem dbg_all dbg_all dbg_info1 origin bytes refl (
  omega arith,
  (
    omega arith,
    (
      omega arith,
      (omega arith, (omega arith, (omega arith, (omega arith, (omega arith, (omega arith, tt)))))),
    ),
  ),
)
