-- ===== src/CsvReader/RoundTrip.antt =====
-- What src/CsvWriter.cpp wrote is read by src/readCSV.cpp as it was.
use brenlib.Prelude.{
  ℕ, ◌+◌, ◌*◌, ◌<◌, Bool, List, [], ◌∷◌, ◌++◌, length, ok, ◌>>=◌, ◌≡◌, ◌≢◌, arith, All, ap, sym,
  ◌∙◌,
}
use brenlib.Prelude.Text.{Text}
use brenlib.Table.{Table, u32}
use brenlib.Table.{rows as count_rows}
use brenlib.Table.Places.{value_at, IsWhole, rows_of}
use brenlib.Table.Grids.{cell_of}
use brenlib.CsvWriter.{Settings, CsvWriter}
use brenlib.CsvWriter.Printed.{printed, IsReadable}
use brenlib.CsvWriter.Rows.{AllValid}
use brenlib.CsvReader.{read_csv}
use brenlib.CsvReader.Steps.{IsSeparator}
use brenlib.CsvReader.Lines.{AreBytes}
use brenlib.CsvReader.Files.{
  file_text, IsShown, IsPlain, read_csv-lines_text, read_loop_end, lines_text,
}
use brenlib.CsvReader.Written.{
  write_rows, write_csv, header-IsBetween, write_rows-file_text, pieces-line_text,
}

-- A table that can be written with these settings, and read: its bytes are those that `is_valid`
-- accepts and that are not taken for the end of the stream, its first byte is of 7 bits, each row has a
-- field for each name, there are fewer than 2 ^ 16 - 1 columns and 2 ^ 32 cells, something is printed for
-- the first name and for the field of a row of one, and where nothing is quoted, no field has a byte that
-- would end it or begins with a quote.
pub record IsTabular (is_valid : Text → Bool) (s : Settings) (name : Text) (names : List Text)
    (rows : List (List Text)) : Type 0 where
  pub plain : IsPlain name
  pub named : printed s name ≢ []
  pub valid : All (AllValid is_valid) ((name ∷ names) ∷ rows)
  pub bytes : All (All AreBytes) ((name ∷ names) ∷ rows)
  pub readable : All (All (IsReadable s)) ((name ∷ names) ∷ rows)
  pub shown : All (IsShown s) rows
  pub columns : length (name ∷ names) < 65535
  pub whole : All (λ x. length x ≡ length (name ∷ names)) rows
  pub fits : (1 + length rows) * length (name ∷ names) < u32

-- In each quoting mode, a header and rows as `IsTabular` says, so of fields that `is_valid` accepts, are
-- written without an exception, and what was written is read back as a table of as many rows, which are
-- whole, and of the same cells.
pub write_csv-read_csv :
    (is_valid : Text → Bool) (s : Settings) (name : Text) (names : List Text)
    (rows : List (List Text))
    → IsSeparator s.field_sep
    → IsTabular is_valid s name names rows
    → (w : CsvWriter) × (t : Table Text) × (write_csv is_valid s (name ∷ names) rows ≡ ok w)
      × (read_csv s.field_sep w.output ≡ ok t)
      × (t.cols_ ≡ length (name ∷ names))
      × IsWhole t
      × (count_rows t ≡ 1 + length rows)
      × ((c r : ℕ)
          → c < length (name ∷ names)
          → value_at [] t c r ≡ cell_of [] ((name ∷ names) ∷ rows) c r)
unfolding write_csv lines_text
write_csv-read_csv is_valid s name names rows b t =
    let (w₁, e₁, o₁, i₁) = header-IsBetween is_valid s name names t.valid.0 t.readable.0 in
    let (w₂, e₂, o₂) =
      write_rows-file_text is_valid s (length (name ∷ names)) rows w₁ i₁ (omega arith) t.whole
        t.valid.1 t.readable.1 in
    let (table, e₃, c₃, whole, z, v₃) =
      read_csv-lines_text s b name names rows [] t.plain t.named t.columns t.whole t.fits t.bytes
        t.readable t.shown in
    let text : w₂.output ≡ file_text s ((name ∷ names) ∷ rows) =
      o₂
      ∙ (ap (λ x. x ++ file_text s rows) o₁ ∙ pieces-line_text s name names (file_text s rows)) in
    (
      w₂,
      table,
      ap (λ r. r >>= λ w. write_rows is_valid w rows) e₁ ∙ e₂,
      rw text (e₃ ∙ read_loop_end s.field_sep table (1 + length rows)),
      c₃,
      whole,
      rows_of table (1 + length rows) whole (z ∙ ap (λ k. (1 + length rows) * k) (sym c₃)),
      v₃,
    )
