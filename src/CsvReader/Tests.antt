-- ===== src/CsvReader/Tests.antt =====
-- Runs of `read_csv`.
use brenlib.Prelude.{
  if◌then◌else◌, ℕ, ◌<◌, List, Bool, true, [], ◌∷◌, ok, err, runtime_error, ◌≡◌, refl, arith,
}
use brenlib.Prelude.Text.{Text, codes}
use brenlib.Table.{Table, put, rows}
use brenlib.CsvReader.{
  Reader, start, end_quote, start_of_record, read_csv, read_loop, end_record, skips, before_header,
}
use brenlib.Table.Places.{value_at, IsWhole}
use brenlib.Table.Grids.{cell_of}
use brenlib.CsvWriter.{double_quote, CsvWriter, ticket_matic}
use brenlib.CsvWriter.Printed.{printed_some}
use brenlib.CsvReader.Steps.{IsSeparator}
use brenlib.CsvReader.Written.{write_csv}
use brenlib.CsvReader.Files.{line_text, lines_text}
use brenlib.CsvReader.Open.{ends_in_cr, open_quote}
use brenlib.CsvReader.TooMany.{too_many_fields}
use brenlib.CsvReader.RoundTrip.{IsTabular, write_csv-read_csv}

runs :
    (read_csv b',' (codes "a,b\nc,\"d,\"\"\"\n")
      ≡ ok (record { cols_ = 2; data_ = codes "a" ∷ codes "b" ∷ codes "c" ∷ codes "d,\"" ∷ [] }))
    × (read_csv b',' (codes "a,b\nc,d,e\n") ≡ err runtime_error)
    × (read_csv b',' (codes "a,b\nc\n")
        ≡ ok (record { cols_ = 2; data_ = codes "a" ∷ codes "b" ∷ codes "c" ∷ [] ∷ [] }))
unfolding read_csv read_loop end_record brenlib.CsvReader.field_ready brenlib.CsvReader.header_ready
    brenlib.CsvReader.record_ready brenlib.CsvReader.store_header brenlib.CsvReader.count_is_right
    brenlib.Table.put brenlib.Table.set_columns brenlib.Table.create brenlib.Table.locate
    brenlib.Table.rows brenlib.Table.set_rows
runs = (refl, refl, refl)

abbrev pub accept : Text → Bool
accept t = true

abbrev pub sample : List (List Text)
sample = (codes "c" ∷ codes "d;\"\n" ∷ []) ∷ []

pub semicolon : IsSeparator b';'
semicolon = record {
  not_cr = λ e. omega arith;
  not_lf = λ e. omega arith;
  not_eof = λ e. omega arith;
  not_quote = λ e. omega arith;
}

pub sample-IsTabular : IsTabular accept ticket_matic (codes "a") (codes "b" ∷ []) sample
sample-IsTabular = record {
  plain = omega arith;
  named = printed_some ticket_matic b'a' [] tt;
  valid = ((refl, (refl, tt)), ((refl, (refl, tt)), tt));
  bytes = (
    ((omega arith, tt), ((omega arith, tt), tt)),
    (((omega arith, tt), ((omega arith, (omega arith, (omega arith, (omega arith, tt)))), tt)), tt),
  );
  readable = ((tt, (tt, tt)), ((tt, (tt, tt)), tt));
  shown = (tt, tt);
  columns = omega arith;
  whole = (refl, tt);
  fits = omega arith;
}

write_csv-read_csv_example :
    (w : CsvWriter) × (t : Table Text) × (write_csv accept ticket_matic
        (codes "a" ∷ codes "b" ∷ [])
        sample
      ≡ ok w)
    × (read_csv b';' w.output ≡ ok t)
    × (t.cols_ ≡ 2)
    × IsWhole t
    × (rows t ≡ 2)
    × ((c r : ℕ)
        → c < 2
        → value_at [] t c r ≡ cell_of [] ((codes "a" ∷ codes "b" ∷ []) ∷ sample) c r)
write_csv-read_csv_example =
    write_csv-read_csv accept ticket_matic (codes "a") (codes "b" ∷ []) sample semicolon
      sample-IsTabular

too_many_fields_example :
    read_csv b';' (
      lines_text ticket_matic
        ((codes "a" ∷ codes "b" ∷ []) ∷ sample)
        (line_text ticket_matic (codes "x" ∷ codes "y" ∷ codes "z" ∷ []) (codes "more")))
    ≡ err runtime_error
too_many_fields_example =
    too_many_fields accept ticket_matic (codes "a") (codes "b" ∷ []) sample (codes "x")
      (codes "y" ∷ codes "z" ∷ []) (codes "more") semicolon sample-IsTabular (omega arith)
      (omega arith) ((omega arith, tt), ((omega arith, tt), ((omega arith, tt), tt)))
      (tt, (tt, (tt, tt)))

open_quote_example :
    (t : Table Text) × (read_csv b';' (
        lines_text ticket_matic
          ((codes "a" ∷ codes "b" ∷ []) ∷ sample)
          (b'"' ∷ double_quote (codes "x\"y")))
      ≡ (if ends_in_cr (codes "x\"y") then ok t else err runtime_error))
    × (t.cols_ ≡ 2)
    × ((c r : ℕ)
        → c < 2
        → value_at [] t c r ≡ cell_of [] ((codes "a" ∷ codes "b" ∷ []) ∷ sample) c r)
open_quote_example =
    open_quote accept ticket_matic (codes "a") (codes "b" ∷ []) sample (codes "x\"y") semicolon
      sample-IsTabular (omega arith, (omega arith, (omega arith, tt)))
