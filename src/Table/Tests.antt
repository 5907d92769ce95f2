-- ===== src/Table/Tests.antt =====
-- Runs on a table of numbers.
use brenlib.Prelude.{
  length, ℕ, ◌<◌, ◌&&◌, ◌==◌, if◌then◌else◌, [], ◌∷◌, ok, err, logic_error, out_of_range, ◌≡◌, refl,
  arith,
}
use brenlib.Table.{Table, create, set_columns, rows, set_rows, get, put}
use brenlib.Table.Places.{value_at, IsWhole}
use brenlib.Table.Cells.{put-value_at}

abbrev pairs : Table ℕ
pairs = record { cols_ = 2; data_ = 1 ∷ 2 ∷ [] }

runs :
    (set_columns {T = ℕ} create 2 ≡ ok (record { cols_ = 2; data_ = [] }))
    × (set_columns pairs 3 ≡ err logic_error)
    × (rows pairs ≡ 1)
    × (set_rows 0 pairs 2 ≡ ok (record { cols_ = 2; data_ = 1 ∷ 2 ∷ 0 ∷ 0 ∷ [] }))
    × (put 0 pairs 1 2 9 ≡ ok (record { cols_ = 2; data_ = 1 ∷ 2 ∷ 0 ∷ 0 ∷ 0 ∷ 9 ∷ [] }))
    × (get 0 pairs 2 0 ≡ err out_of_range)
unfolding create set_columns rows set_rows put get
runs = (refl, refl, refl, refl, refl, refl)

pairs-IsWhole : IsWhole pairs
pairs-IsWhole = record { count = 1; whole = refl; fits = omega arith; some_column = omega arith }

put-value_at_example :
    (t' : Table ℕ) × (put 0 pairs 1 2 9 ≡ ok t')
    × IsWhole t'
    × (t'.cols_ ≡ 2)
    × ((c r : ℕ)
        → c < 2
        → value_at 0 t' c r ≡ (if (1 == c) && (2 == r) then 9 else value_at 0 pairs c r))
    × (length t'.data_ ≡ 6)
unfolding rows
put-value_at_example = put-value_at 0 pairs 1 2 9 pairs-IsWhole (omega arith) (omega arith)
