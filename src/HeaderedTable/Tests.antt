-- ===== src/HeaderedTable/Tests.antt =====
-- A table with the headers a, b, a.
use brenlib.Prelude.{
  ℕ, zero, suc, ◌+◌, ◌*◌, ◌<◌, ◌≤◌, Bool, List, [], ◌∷◌, length, Result, ok, err, invalid_argument,
  ◌≡◌, ◌≢◌, refl, arith,
}
use brenlib.Prelude.Text.{Text, codes}
use brenlib.Table.{Table, rows}
use brenlib.Table.Places.{get_or, IsWhole}
use brenlib.HeaderedTable.{HeaderedTable, make_headers_unique, read_headers, cell}
use brenlib.CsvWriter.{CsvWriter, ticket_matic}
use brenlib.CsvReader.{read_csv}
use brenlib.CsvReader.Written.{write_csv}
use brenlib.CsvReader.Tests.{accept, sample, semicolon, sample-IsTabular}
use brenlib.HeaderedTable.Distinct.{AreDifferent}
use brenlib.HeaderedTable.FromCsv.{AreNamed, cell-write_csv}
use brenlib.HeaderedTable.Access.{cell-column}
use brenlib.HeaderedTable.Unique.{make_headers_unique-ne}

abbrev repeated : Table Text
repeated = record { cols_ = 3; data_ = codes "a" ∷ codes "b" ∷ codes "a" ∷ [] }

abbrev renamed : List Text
renamed = codes "a" ∷ codes "b" ∷ codes "a_0" ∷ []

made : make_headers_unique repeated ≡ (renamed, ok tt)
unfolding make_headers_unique brenlib.Prelude.Text.to_string
made = refl

runs :
    ((cell (record { table = repeated; hdrs_ = [] }) (codes "a_0") 0).1 ≡ ok 2)
    × ((cell (record { table = repeated; hdrs_ = [] }) (codes "c") 0).1 ≡ err invalid_argument)
unfolding cell read_headers make_headers_unique brenlib.Prelude.Text.to_string
    brenlib.Prelude.Maps.lookup brenlib.Table.locate brenlib.Table.rows
runs = (refl, refl)

make_headers_unique-ne_example :
    (cells : List Text) × (make_headers_unique repeated ≡ (cells, ok tt))
    × ((i j : ℕ) → i < j → j < 3 → get_or [] cells i ≢ get_or [] cells j)
make_headers_unique-ne_example = make_headers_unique-ne repeated (omega arith) (omega arith)

repeated-IsWhole : IsWhole repeated
repeated-IsWhole = record { count = 1; whole = refl; fits = omega arith; some_column = omega arith }

one_row : 1 ≤ rows repeated
unfolding rows
one_row = omega arith

named : (i : ℕ) → i < 3 → length (get_or [] renamed i) ≢ 0
named zero h e = omega arith
named (suc zero) h e = omega arith
named (suc (suc zero)) h e = omega arith
named (suc (suc (suc i))) h e = absurd (omega (arith, h))

cell-column_example :
    (s : HeaderedTable) × (cell (record { table = repeated; hdrs_ = [] }) (codes "a_0") 1
      ≡ (s, ok (1 * 3 + 2)))
    × (1 * 3 + 2 < length s.table.data_)
    × ((j : ℕ) → get_or [] s.table.data_ j ≡ get_or [] renamed j)
    × ((j : ℕ) → get_or [] s.table.data_ (3 + j) ≡ get_or [] repeated.data_ (3 + j))
cell-column_example =
    cell-column repeated renamed 2 1 repeated-IsWhole one_row (omega arith) made named (omega arith)
      (omega arith)

-- The table of CsvReader/Tests, with the headers a and b.
two_headers : AreDifferent 2 (codes "a" ∷ codes "b" ∷ [])
two_headers zero zero h k = absurd (omega (arith, h))
two_headers zero (suc zero) h k = λ e. ground arith
two_headers zero (suc (suc j)) h k = absurd (omega (arith, k))
two_headers (suc i) zero h k = absurd (omega (arith, h))
two_headers (suc i) (suc zero) h k = absurd (omega (arith, h))
two_headers (suc i) (suc (suc j)) h k = absurd (omega (arith, k))

two_named : AreNamed (codes "a" ∷ codes "b" ∷ [])
two_named zero h e = omega arith
two_named (suc zero) h e = omega arith
two_named (suc (suc i)) h e = absurd (omega (arith, h))

cell-write_csv_example :
    (w : CsvWriter) × (t : Table Text) × (h : HeaderedTable) × (k : ℕ) × (write_csv accept
        ticket_matic
        (codes "a" ∷ codes "b" ∷ [])
        sample
      ≡ ok w)
    × (read_csv b';' w.output ≡ ok t)
    × (cell (record { table = t; hdrs_ = [] }) (codes "b") 1 ≡ (h, ok k))
    × (get_or [] h.table.data_ k ≡ codes "d;\"\n")
cell-write_csv_example =
    cell-write_csv accept ticket_matic (codes "a") (codes "b" ∷ []) sample 1 1 semicolon
      sample-IsTabular two_headers two_named (omega arith) (omega arith)
