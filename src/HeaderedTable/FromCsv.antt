-- ===== src/HeaderedTable/FromCsv.antt =====
-- A table that src/CsvWriter.cpp writes and src/readCSV.cpp reads, whose cells src/HeaderedTable.cpp
-- finds by the names of their columns.
use native.Mathlib.Nat.{mul-le-mul_right}
use brenlib.Prelude.{
  ℕ, zero, suc, ◌+◌, ◌*◌, ◌<◌, ◌≤◌, Bool, List, [], ◌∷◌, length, ok, ◌≡◌, ◌≢◌, refl, arith, ap, ◌∙◌,
  sym, subst,
}
use brenlib.Prelude.Text.{Text}
use brenlib.Table.{Table, rows}
use brenlib.Table.Places.{get_or, value_at, IsWhole, rows-count}
use brenlib.Table.Grids.{cell_of}
use brenlib.CsvWriter.{Settings, CsvWriter}
use brenlib.CsvReader.{read_csv}
use brenlib.CsvReader.Steps.{IsSeparator}
use brenlib.CsvReader.Written.{write_csv}
use brenlib.CsvReader.RoundTrip.{IsTabular, write_csv-read_csv}
use brenlib.HeaderedTable.{HeaderedTable, cell}
use brenlib.HeaderedTable.Distinct.{AreDifferent, make_headers_unique_different}
use brenlib.HeaderedTable.Access.{cell-column}

-- No header is empty.
abbrev pub AreNamed : List Text → Type 0
AreNamed headers = (i : ℕ) → i < length headers → length (get_or [] headers i) ≢ 0

header_at :
    (t : Table Text) (headers : List Text)
    → ((c : ℕ) → c < length headers → value_at [] t c 0 ≡ get_or [] headers c)
    → (i : ℕ) → i < length headers
    → get_or [] t.data_ i ≡ get_or [] headers i
header_at t headers v i h =
    let place : i ≡ 0 * t.cols_ + i = omega arith in ap (get_or [] t.data_) place ∙ v i h

some_cell : (cells : List Text) → length (get_or [] cells 0) ≢ 0 → 1 ≤ length cells
some_cell [] h = absurd (h refl)
some_cell (c ∷ cells) h = omega arith

count_some : (n count cols : ℕ) → 1 ≤ n → n ≡ count * cols → 1 ≤ count
count_some n zero cols h e = omega (arith, h, e)
count_some n (suc count) cols h e = omega arith

some_row : (t : Table Text) → IsWhole t → length (get_or [] t.data_ 0) ≢ 0 → 1 ≤ rows t
some_row t w h =
    rw (rows-count t w) (count_some (length t.data_) w.count t.cols_ (some_cell t.data_ h) w.whole)

-- The headers as `AreDifferent` and `cell-column` ask for them.
table-AreDifferent :
    (t : Table Text) (headers : List Text)
    → t.cols_ ≡ length headers
    → ((i : ℕ) → i < length headers → get_or [] t.data_ i ≡ get_or [] headers i)
    → AreDifferent (length headers) headers
    → AreDifferent t.cols_ t.data_
table-AreDifferent t headers e v d i j h k = λ x.
    let below : j < length headers = rw (← e) k in
    d i j h below (sym (v i (omega (arith, h, below))) ∙ (x ∙ v j below))

-- A table as `IsTabular` says, whose headers are different and not empty, is written and read, and then
-- a cell that is asked for by the name of its column and its row is the one that was written.
pub cell-write_csv :
    (is_valid : Text → Bool) (s : Settings) (name : Text) (names : List Text)
    (lines : List (List Text)) (c row : ℕ)
    → IsSeparator s.field_sep
    → IsTabular is_valid s name names lines
    → AreDifferent (length (name ∷ names)) (name ∷ names)
    → AreNamed (name ∷ names)
    → c < length (name ∷ names)
    → row < 1 + length lines
    → (w : CsvWriter) × (t : Table Text) × (h : HeaderedTable) × (k : ℕ) × (write_csv is_valid s
          (name ∷ names)
          lines
        ≡ ok w)
      × (read_csv s.field_sep w.output ≡ ok t)
      × (cell (record { table = t; hdrs_ = [] }) (get_or [] (name ∷ names) c) row ≡ (h, ok k))
      × (get_or [] h.table.data_ k ≡ cell_of [] ((name ∷ names) ∷ lines) c row)
cell-write_csv is_valid s name names lines c row b tab d n below there =
    let headers = name ∷ names in
    let (w, t, written, read, cols, whole, count, cells) =
      write_csv-read_csv is_valid s name names lines b tab in
    let at = header_at t headers (λ x h. cells x 0 h) in
    let named : (i : ℕ) → i < t.cols_ → length (get_or [] t.data_ i) ≢ 0 = λ i h.
      let h' : i < length headers = rw (← cols) h in
      subst (λ x. length x ≢ 0) (sym (at i h')) (n i h') in
    let (h, found, inside, same, rest) =
      cell-column t t.data_ c row whole (some_row t whole (named 0 whole.some_column))
        (omega (arith, cols, tab.columns))
        (make_headers_unique_different t (table-AreDifferent t headers cols at d)) named
        (rw cols below)
        (rw cols (
          omega (
            arith,
            tab.fits,
            mul-le-mul_right {m = row + 1} {n = 1 + length lines} (length headers)
                (omega (arith, there)),
          ))) in
    (
      w,
      t,
      h,
      row * t.cols_ + c,
      written,
      read,
      ap (λ x. cell (record { table = t; hdrs_ = [] }) x row) (sym (at c below)) ∙ found,
      same (row * t.cols_ + c) ∙ cells c row below,
    )
