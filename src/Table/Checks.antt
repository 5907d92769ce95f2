-- ===== src/Table/Checks.antt =====
-- The unit tests of hdr/bren/Table.hpp, chk/table.cpp, on a table of numbers.
use brenlib.Prelude.{
  ℕ, ◌==◌, ok, logic_error, invalid_argument, out_of_range, ◌>>=◌, ◌>>◌, ◌≡◌, refl,
}
use brenlib.Prelude.Asserts.{Check, assert, assert_throw}
use brenlib.Table.{Table, create, set_columns, rows, set_rows, get, put}

abbrev new_table : Table ℕ
new_table = create

pub check_construction : Check
unfolding create rows
check_construction = do
  assert (new_table.cols_ == 0)
  assert (rows new_table == 0)
  assert_throw logic_error (set_rows 0 new_table 0)
  assert_throw logic_error (set_rows 0 new_table 3)
  assert_throw logic_error (get 0 new_table 0 0)
  assert_throw logic_error (get 0 new_table 8 0)
  assert_throw logic_error (get 0 new_table 0 5)
  assert_throw logic_error (get 0 new_table 4 7)

check_construction_passes : check_construction ≡ ok tt
unfolding check_construction set_rows get
check_construction_passes = refl

pub check_columns : Check
check_columns = do
  assert_throw invalid_argument (set_columns new_table 0)
  assert (new_table.cols_ == 0)
  t ← set_columns new_table 2
  assert (t.cols_ == 2)
  assert_throw logic_error (set_columns t 3)
  assert (t.cols_ == 2)
  u ← set_columns t 2
  assert (u.cols_ == 2)

check_columns_passes : check_columns ≡ ok tt
unfolding check_columns set_columns create
check_columns_passes = refl

pub check_rows : Check
check_rows = do
  t ← set_columns new_table 2
  assert (rows t == 0)
  cleared ← set_rows 0 t 0
  assert (rows cleared == 0)
  three ← set_rows 0 cleared 3
  assert (rows three == 3)
  none_left ← set_rows 0 three 0
  assert (rows none_left == 0)
  five ← set_rows 0 none_left 5
  assert (rows five == 5)
  same ← set_rows 0 five 5
  assert (rows same == 5)
  eight ← set_rows 0 same 8
  assert (rows eight == 8)
  four ← set_rows 0 eight 4
  assert (rows four == 4)

check_rows_passes : check_rows ≡ ok tt
unfolding check_rows set_columns create rows set_rows
check_rows_passes = refl

pub check_cells : Check
check_cells = do
  t ← set_columns new_table 3
  assert_throw out_of_range (get 0 t 5 0)
  assert (rows t == 0)
  assert_throw out_of_range (get 0 t 3 2)
  assert (rows t == 0)
  first ← get 0 t 0 0
  assert (rows (first.0) == 1)
  assigned ← put 0 (first.0) 0 0 42
  assert (rows assigned == 1)
  r ← get 0 assigned 0 0
  assert (r.1 == 42)
  last ← get 0 (r.0) 2 6
  assert (rows (last.0) == 7)

check_cells_passes : check_cells ≡ ok tt
unfolding check_cells set_columns create get rows set_rows put
check_cells_passes = refl
