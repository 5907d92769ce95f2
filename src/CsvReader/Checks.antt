-- ===== src/CsvReader/Checks.antt =====
-- The unit test of src/readCSV.cpp, chk/readcsv.cpp.
use brenlib.Prelude.{ℕ, ◌==◌, [], Result, ok, ◌>>=◌, ◌>>◌, ◌≡◌, refl}
use brenlib.Prelude.Text.{Text, text_eq, codes}
use brenlib.Prelude.Asserts.{Check, assert}
use brenlib.Table.{Table, rows, get}
use brenlib.CsvReader.{read_csv}

abbrev holds : Text → ℕ → ℕ → Table Text → Result (Table Text)
holds expected col row t = do
  found ← get [] t col row
  assert (text_eq expected found.1)
  ok found.0

pub check_validcsv : Check
check_validcsv = do
  let bytes = codes "First;Second;Third\nUnquoted;\"QUOTED\";\"ESC\"\"QUOT\"\n"
  t ← read_csv b';' bytes
  assert (t.cols_ == 3)
  assert (rows t == 2)
  a ← holds (codes "First") 0 0 t
  b ← holds (codes "Second") 1 0 a
  c ← holds (codes "Third") 2 0 b
  d ← holds (codes "Unquoted") 0 1 c
  e ← holds (codes "QUOTED") 1 1 d
  f ← holds (codes "ESC\"QUOT") 2 1 e
  ok tt

check_validcsv_passes : check_validcsv ≡ ok tt
unfolding check_validcsv read_csv brenlib.CsvReader.header_ready brenlib.Table.set_columns
    brenlib.Table.create brenlib.Table.put rows brenlib.Table.set_rows
    brenlib.CsvReader.record_ready get
check_validcsv_passes = refl
