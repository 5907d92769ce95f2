-- ===== src/CsvWriter/Tests.antt =====
-- Runs of a writer with the settings of `paypal` on the stream 1; every text is valid.
use brenlib.Prelude.{
  arith, inr, All, Bool, true, List, [], ◌∷◌, none, some, ok, err, logic_error, out_of_range, ◌≡◌,
  refl,
}
use brenlib.Prelude.Text.{Text, codes}
use brenlib.CsvWriter.{
  CsvWriter, paypal, ticket_matic, create, destination, end_row, quoted, double_quote, write_field,
  fields, headers, header,
}
use brenlib.CsvWriter.Columns.{InRow, operations-InRow}
use brenlib.CsvWriter.Printed.{IsReadable, All-CanPrint}
use brenlib.CsvWriter.Rows.{Line, pieces, fields-Line}

abbrev all_valid : Text → Bool
all_valid t = true

-- Two columns, and one line written.
abbrev after_header : CsvWriter
after_header = record {
  column_ = 0;
  columns_ = 2;
  lines_ = 1;
  out_ = some 1;
  settings_ = paypal;
  output = codes "h";
}

abbrev row : List Text
row = codes "a\"b" ∷ codes "c" ∷ []

runs :
    ((destination (create paypal) none).0.output ≡ [])
    × ((fields all_valid after_header row).0.output ≡ codes "h\"a\"\"b\",\"c\"\n")
    × ((headers all_valid (create paypal) row).1 ≡ err logic_error)
    × ((header all_valid
          (record after_header { lines_ = 0; columns_ = 0; settings_ = ticket_matic })
          (codes "x")).0.output
        ≡ codes "hx")
    × ((write_field all_valid after_header (codes "x")).1 ≡ ok 1)
    × ((end_row (record after_header { column_ = 1 })).1 ≡ err out_of_range)
unfolding create destination end_row write_field fields headers header double_quote
    brenlib.CsvWriter.quoted_field brenlib.CsvWriter.write_fields
runs = (refl, refl, refl, refl, refl, refl)

readable : All (IsReadable ticket_matic) row
readable = (tt, (tt, tt))

-- With quotes where they are needed.
abbrev as_needed : CsvWriter
as_needed = record after_header { settings_ = ticket_matic }

fields-Line_example : Line as_needed (pieces ticket_matic 0 row) (fields all_valid as_needed row)
fields-Line_example =
    fields-Line all_valid as_needed (codes "a\"b") (codes "c" ∷ []) refl refl
      (All-CanPrint ticket_matic row readable) refl refl (refl, (refl, tt))

operations-InRow_example :
    InRow (end_row after_header).0
    × InRow (write_field all_valid after_header (codes "x")).0
    × InRow (fields all_valid after_header row).0
    × InRow (headers all_valid after_header row).0
    × InRow (header all_valid after_header (codes "x")).0
operations-InRow_example =
    operations-InRow all_valid after_header (codes "x") row (refl, inr (omega arith))
