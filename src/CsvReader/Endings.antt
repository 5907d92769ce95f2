-- ===== src/CsvReader/Endings.antt =====
-- What src/readCSV.cpp does at the end of a record and of the stream.
use brenlib.Prelude.{ℕ, ◌+◌, ◌^◌, ◌-◌, true, false, [], ◌∷◌, ok, ◌≡◌, ◌≢◌, arith}
use brenlib.Prelude.Text.{Text}
use brenlib.Table.{Table, put}
use brenlib.CsvReader.{
  Reader, read_loop, iterate, end_record, start_of_record, count_is_right, record_ready, skips,
  before_header,
}

-- A record of a data line ends in the same way however many fields it has, where the last cell can
-- be stored: the test of the count never fails.
pub end_record-data :
    (s : Reader) (t : Table Text)
    → s.reading_header ≡ false
    → put [] s.t s.col s.row s.f ≡ ok t
    → s.row ≢ 2 ^ 32 - 1
    → end_record s
      ≡ ok (record s { t = t; f = []; col = 0; row = s.row + 1; last = start_of_record })
unfolding end_record count_is_right record_ready
end_record-data s t h p n = ground arith

-- A quoted field whose closing quote is the last byte of the stream is not stored: the table is
-- returned as it was before the field.
pub read_loop_last_quote :
    (sep : ℕ) (s : Reader) → s.quoted ≡ true → read_loop sep s (b'"' ∷ []) ≡ ok s.t
unfolding read_loop iterate skips before_header brenlib.CsvReader.read_quoted
read_loop_last_quote sep s q = ground arith
