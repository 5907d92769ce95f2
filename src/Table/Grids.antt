-- ===== src/Table/Grids.antt =====
-- A table of hdr/bren/Table.hpp whose rows are assigned one after the other.
use brenlib.Prelude.{ℕ, zero, suc, ◌+◌, ◌-◌, ◌<◌, List, [], ◌∷◌, ◌≡◌, refl, arith, ◌∙◌, ap}
use brenlib.Table.Places.{get_or}
use brenlib.Table.Rows.{after_row}

module _ {ℓ} {T : Type ℓ} where
  -- The value at column `c` of row `r` when `rows` stand in the rows from `row` on.
  unfoldable pub after_rows : T → ℕ → List (List T) → ℕ → ℕ → T
  after_rows d row [] c r = d
  after_rows d row (x ∷ xs) c r = after_rows (after_row d row 0 x c r) (row + 1) xs c r

  -- The cell of a list of rows.
  abbrev pub cell_of : T → List (List T) → ℕ → ℕ → T
  cell_of d rows c r = get_or d (get_or [] rows r) c

  after_rows_above :
      (rows : List (List T)) (d : T) (row c r : ℕ) → r < row → after_rows d row rows c r ≡ d
  unfolding after_rows
  after_rows_above [] d row c r h = refl
  after_rows_above (x ∷ xs) d row c r h =
      after_rows_above xs (after_row d row 0 x c r) (row + 1) c r (omega arith) ∙ ground arith

  after_rows_below :
      (rows : List (List T)) (d : T) (row c k : ℕ)
      → after_rows d row rows c (row + k) ≡ cell_of d rows c k
  unfolding after_rows
  after_rows_below [] d row c k = refl
  after_rows_below (x ∷ xs) d row c zero =
      after_rows_above xs (after_row d row 0 x c (row + 0)) (row + 1) c (row + 0) (omega arith)
      ∙ (let n : c - 0 ≡ c = omega arith in rw n (ground arith))
  after_rows_below (x ∷ xs) d row c (suc k) =
      let other : after_row d row 0 x c (row + suc k) ≡ d = ground arith in
      let shift : row + suc k ≡ (row + 1) + k = omega arith in
      ap (λ e. after_rows e (row + 1) xs c (row + suc k)) other
      ∙ (ap (after_rows d (row + 1) xs c) shift ∙ after_rows_below xs d (row + 1) c k)

  -- From the first row on, they are the cells of the list.
  pub after_rows-cell_of :
      (rows : List (List T)) (d : T) (c r : ℕ) → after_rows d 0 rows c r ≡ cell_of d rows c r
  after_rows-cell_of rows d c r =
      let n : r ≡ 0 + r = omega arith in
      ap (after_rows d 0 rows c) n ∙ after_rows_below rows d 0 c r
