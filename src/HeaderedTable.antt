-- ===== src/HeaderedTable.antt =====
-- src/HeaderedTable.cpp. The cell of row 0 in column c is the element c of the vector; there is a
-- row 0 when headers are read. `hdrs_` is empty until then.
pub mod Names
pub mod Unique
pub mod Lengths
mod Rest
pub mod Distinct
pub mod Access
pub mod FromCsv
mod Tests
use brenlib.Prelude.{
  ℕ, zero, suc, ◌+◌, ◌-◌, Bool, true, false, not, ◌&&◌, ltb, ◌==◌, if◌then◌else◌, List, [], ◌∷◌,
  ◌++◌, Option, none, some, length, set, take, Result, ok, err, Error, invalid_argument,
  logic_error, runtime_error, ◌>>=◌,
}
use brenlib.Prelude.Text.{Text, text_eq, to_string}
use brenlib.Prelude.Maps.{lookup, text_key}
use brenlib.Table.{Table, rows, locate}
use brenlib.Table.Places.{get_or}

pub record HeaderedTable : Type 0 where
  pub table : Table Text
  pub hdrs_ : List (Text × ℕ)

-- Has a header this name?
pub taken : List Text → Text → Bool
taken [] name = false
taken (h ∷ hs) name = let later = taken hs name in if text_eq h name then true else later

abbrev pub candidate : Text → ℕ → Text
candidate base a = base ++ b'_' ∷ to_string a

-- The `while` over `a`, with the rounds that are left.
pub unique_name : ℕ → ℕ → Text → List Text → Result Text
unique_name zero a base headers = err runtime_error
unique_name (suc left) a base headers =
    let later = unique_name left (a + 1) base headers in
    if taken headers (candidate base a) then later else ok (candidate base a)

-- The cells as a loop leaves them, and whether it threw.
abbrev pub Cells : Type 0
Cells = List Text × Result (Unit {0})

-- Go on with the cells if nothing was thrown.
infixl 5 ◌then_do◌
abbrev pub ◌then_do◌ : Cells → (List Text → Cells) → Cells
(cells, ok u) then_do f = f cells
(cells, err e) then_do f = (cells, err e)

-- The assignment of the new name.
abbrev pub store_name : ℕ → List Text → Result Text → Cells
store_name d cells (ok name) = (set cells d name, ok tt)
store_name d cells (err e) = (cells, err e)

-- The body of the loop over `d`, for the `cols` headers.
pub rename : ℕ → ℕ → ℕ → List Text → Cells
rename cols c d cells =
    if text_eq (get_or [] cells c) (get_or [] cells d)
    then store_name d cells (unique_name 65535 0 (get_or [] cells d) (take cols cells))
    else (cells, ok tt)

-- The loop over `d`, with the rounds that are left.
pub rename_from : ℕ → ℕ → ℕ → ℕ → List Text → Cells
rename_from zero cols c d cells = (cells, ok tt)
rename_from (suc left) cols c d cells =
    rename cols c d cells then_do λ cells'. rename_from left cols c (d + 1) cells'

-- The loop over `c`.
pub unique_from : ℕ → ℕ → ℕ → List Text → Cells
unique_from zero cols c cells = (cells, ok tt)
unique_from (suc left) cols c cells =
    rename_from (cols - (c + 1)) cols c (c + 1) cells then_do λ cells'.
    unique_from left cols (c + 1) cells'

-- `makeHeadersUnique_`
pub make_headers_unique : Table Text → Cells
unfolding taken unique_name rename rename_from unique_from
make_headers_unique t = unique_from t.cols_ t.cols_ 0 t.data_

-- std::unordered_map::insert leaves a key that is there alone.
abbrev pub insert_new : Text → ℕ → List (Text × ℕ) → List (Text × ℕ)
insert_new k c m = elim (lookup k m) [ none ↦ m ++ (k, c) ∷ [] | some d ↦ m ]

-- The loop of `readHeaders_`, with the rounds that are left.
pub index_headers : ℕ → ℕ → List Text → List (Text × ℕ) → Result (List (Text × ℕ))
index_headers zero c cells m = ok m
index_headers (suc left) c cells m =
    if length (get_or [] cells c) == 0
    then err runtime_error
    else index_headers left (c + 1) cells (insert_new (get_or [] cells c) c m)

-- After `makeHeadersUnique_`: the map, or none of it where a header is empty.
abbrev pub indexed : Table Text → Result (List (Text × ℕ)) → HeaderedTable × Result (Unit {0})
indexed t (ok m) = (record { table = t; hdrs_ = m }, ok tt)
indexed t (err e) = (record { table = t; hdrs_ = [] }, err e)

abbrev pub reread : HeaderedTable → Cells → HeaderedTable × Result (Unit {0})
reread s (cells, err e) = (record s { table = record (s.table) { data_ = cells } }, err e)
reread s (cells, ok u) =
    indexed (record (s.table) { data_ = cells }) (index_headers s.table.cols_ 0 cells [])

-- `readHeaders_`
pub read_headers : HeaderedTable → HeaderedTable × Result (Unit {0})
unfolding make_headers_unique index_headers
read_headers s = reread s (make_headers_unique s.table)

abbrev pub column_of : HeaderedTable × Result (Unit {0}) → Text → ℕ → HeaderedTable × Result ℕ
column_of (s, err e) name row = (s, err e)
column_of (s, ok u) name row = elim (lookup name s.hdrs_) [
  | none ↦ (s, err invalid_argument)
  | some col ↦ elim (locate [] s.table col row) [
    | err e ↦ (s, err e)
    | ok found ↦ (record s { table = found.0 }, ok found.1)
  ]
]

-- `cell(colname_i, row_i)`: the table as it is left, and the index of the cell.
pub cell : HeaderedTable → Text → ℕ → HeaderedTable × Result ℕ
unfolding read_headers
cell s name row =
    if s.table.cols_ == 0
    then (s, err logic_error)
    else if rows s.table == 0
    then (s, err logic_error)
    else if length name == 0
    then (s, err invalid_argument)
    else column_of (if length s.hdrs_ == 0 then read_headers s else (s, ok tt)) name row
