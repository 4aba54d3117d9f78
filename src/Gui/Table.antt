-- ===== src/Gui/Table.antt =====
-- `AddTable` of gui.cpp.
use battery_info.Prelude.{
  ap, ◌∙◌, ℕ, zero, suc, ◌+◌, ◌≤◌, ◌≡◌, refl, Bool, true, ◌&&◌, List, [], ◌∷◌, Option, none, some,
  if◌then◌else◌, arith, length,
}
use battery_info.Prelude.Text.{Text, codes, text_eq}
use battery_info.Gui.Calls.{
  lime, red, align_left, align_center, table_style, cell_style1, cell_style2, disabled, table, Part,
  part_bg, part_cell1, part_cell2, Handle, Call, mutex_lock, mutex_unlock, align_center_of,
  set_text_color, add_style, set_state, set_col_cnt, set_row_cnt, set_col_width, set_cell_type,
  set_cell_align, set_cell_value, Lvgl, Gui, pure, ◌>>=◌, ◌>>◌, call, create, when,
}
use battery_info.Gui.Locking.{held, IsGuarded}

-- The fields of `GuiTable` that `AddTable` reads.
pub record GuiTable : Type 0 where
  pub r : ℕ
  pub c : ℕ

-- The first two texts of each of the first `n` rows; `none` where the code reads outside `values`.
unfoldable pub read_rows : ℕ → List (List Text) → Option (List (Text × Text))
read_rows zero rows = some []
read_rows (suc n) ((a ∷ b ∷ more) ∷ rows) =
    let rest = read_rows n rows in elim rest [ none ↦ none | some cells ↦ some ((a, b) ∷ cells) ]
read_rows (suc n) rows = none

-- A cell is shown as passed, or as failed.
abbrev part_of : Bool → Part
part_of b = if b then part_cell1 else part_cell2

-- The loop, from row `i` on.
unfoldable pub add_rows : Handle → Bool → ℕ → List (Text × Text) → Gui (Unit {0})
add_rows h was_run i [] = pure tt
add_rows h was_run i ((a, b) ∷ cells) = do
  call (set_cell_align h i 0 align_left)
  call (set_cell_align h i 1 align_center)
  call (set_cell_type h i 0 (part_of (was_run && text_eq b (codes "PASSED"))))
  call (set_cell_type h i 1 (part_of (was_run && text_eq b (codes "PASSED"))))
  call (set_cell_value h i 0 a)
  call (set_cell_value h i 1 b)
  add_rows h was_run (i + 1) cells

pub add_header : Handle → Bool → Text × Text → Gui (Unit {0})
add_header h did_pass (a, b) = do
  call (set_cell_type h 0 0 (part_of did_pass))
  call (set_cell_type h 0 1 (part_of did_pass))
  call (set_cell_align h 0 0 align_center)
  call (set_cell_align h 0 1 align_center)
  call (set_cell_value h 0 0 a)
  call (set_cell_value h 0 1 b)

-- `AddTable` up to the loop, and behind it.
pub open_table : Lvgl → GuiTable → Bool → Text × Text → Gui Handle
unfolding add_header
open_table lvgl t did_pass header = do
  call mutex_lock
  h ← create lvgl table none
  call (set_col_cnt h t.c)
  call (set_row_cnt h t.r)
  call (set_col_width h 0 245)
  call (set_col_width h 1 175)
  call (align_center_of h 0 5)
  add_header h did_pass header
  pure h

pub close_table : Handle → Bool → Gui Handle
close_table h was_run = do
  call (add_style h part_bg table_style)
  call (add_style h part_cell1 cell_style1)
  call (add_style h part_cell2 cell_style2)
  when was_run (do call (set_text_color h part_cell1 lime); call (set_text_color h part_cell2 red))
  call (set_state h disabled)
  call mutex_unlock
  pure h

pub fill_table : Lvgl → GuiTable → Bool → Bool → Text × Text → List (Text × Text) → Gui Handle
fill_table lvgl t was_run did_pass header cells = do
  h ← open_table lvgl t did_pass header
  add_rows h was_run 1 cells
  close_table h was_run

fill_read : Lvgl → GuiTable → Bool → Bool → Option (List (Text × Text)) → Option (Gui Handle)
unfolding fill_table
fill_read lvgl t was_run did_pass (some (header ∷ cells)) =
    some (fill_table lvgl t was_run did_pass header cells)
fill_read lvgl t was_run did_pass _ = none

-- The rows that the code reads: the header, and those behind it.
abbrev rows_read : ℕ → ℕ
rows_read zero = 1
rows_read (suc n) = suc n

-- `AddTable`; `none` where it reads outside `values`.
unfoldable pub add_table : Lvgl → GuiTable → List (List Text) → Bool → Bool → Option (Gui Handle)
unfolding fill_read
add_table lvgl t values was_run did_pass =
    fill_read lvgl t was_run did_pass (read_rows (rows_read t.r) values)

add_rows-held :
    (h : Handle) (was_run : Bool) (i : ℕ) (cells : List (Text × Text)) (log : List Call)
    → held log ≡ some true
    → held (add_rows h was_run i cells log).1 ≡ some true
unfolding add_rows
add_rows-held h was_run i [] log e = e
add_rows-held h was_run i ((a, b) ∷ cells) log e =
    add_rows-held h was_run (i + 1) cells _ (ground arith)

open_table-held :
    (lvgl : Lvgl) (t : GuiTable) (did_pass : Bool) (header : Text × Text) (log : List Call)
    → IsGuarded log
    → held (open_table lvgl t did_pass header log).1 ≡ some true
unfolding open_table add_header
open_table-held lvgl t did_pass header log e = ground arith

close_table-IsGuarded :
    (h : Handle) (was_run : Bool) (log : List Call)
    → held log ≡ some true
    → IsGuarded (close_table h was_run log).1
unfolding close_table
close_table-IsGuarded h was_run log e = ground arith

-- There are `n` rows at least, each of the first `n` with two texts.
abbrev pub HasRows : ℕ → List (List Text) → Type 0
HasRows zero rows = Unit
HasRows (suc n) ((a ∷ b ∷ more) ∷ rows) = HasRows n rows
HasRows (suc n) rows = ⊥

read_rows-some :
    (n : ℕ) (rows : List (List Text))
    → HasRows n rows
    → (cells : List (Text × Text)) × (read_rows n rows ≡ some cells) × (length cells ≡ n)
unfolding read_rows
read_rows-some zero rows h = ([], refl, refl)
read_rows-some (suc n) [] h = absurd h
read_rows-some (suc n) ([] ∷ rows) h = absurd h
read_rows-some (suc n) ((a ∷ []) ∷ rows) h = absurd h
read_rows-some (suc n) ((a ∷ b ∷ more) ∷ rows) h =
    let (cells, e, l) = read_rows-some n rows h in ((a, b) ∷ cells, rw e refl, ap suc l)

rows_read-pos : (n : ℕ) → 1 ≤ n → rows_read n ≡ n
rows_read-pos zero h = absurd (omega arith)
rows_read-pos (suc n) h = refl

fill_read_lem :
    (lvgl : Lvgl) (t : GuiTable) (was_run did_pass : Bool) (cells : List (Text × Text))
    (log : List Call)
    → 1 ≤ length cells
    → IsGuarded log
    → (m : Gui Handle) × (fill_read lvgl t was_run did_pass (some cells) ≡ some m)
      × IsGuarded (m log).1
unfolding fill_read fill_table
fill_read_lem lvgl t was_run did_pass [] log h e = absurd (omega arith)
fill_read_lem lvgl t was_run did_pass (header ∷ cells) log h e =
    let (h_table, opened) = open_table lvgl t did_pass header log in
    let filled = (add_rows h_table was_run 1 cells opened).1 in
    let held =
      add_rows-held h_table was_run 1 cells opened (open_table-held lvgl t did_pass header log e) in
    (
      fill_table lvgl t was_run did_pass header cells,
      refl,
      close_table-IsGuarded h_table was_run filled held,
    )

pub add_table_lem :
    (lvgl : Lvgl) (t : GuiTable) (values : List (List Text)) (was_run did_pass : Bool)
    (log : List Call)
    → 1 ≤ t.r
    → HasRows t.r values
    → IsGuarded log
    → (m : Gui Handle) × (add_table lvgl t values was_run did_pass ≡ some m) × IsGuarded (m log).1
unfolding add_table
add_table_lem lvgl t values was_run did_pass log some_row rows e =
    let (cells, read, len) = read_rows-some t.r values rows in
    let (m, filled, guarded) =
      fill_read_lem lvgl t was_run did_pass cells log (rw len some_row) e in
    let all : read_rows (rows_read t.r) values ≡ some cells =
      rw (rows_read-pos t.r some_row) read in
    (m, ap (fill_read lvgl t was_run did_pass) all ∙ filled, guarded)
