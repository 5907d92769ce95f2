-- ===== src/CsvReader/TooMany.antt =====
-- A line with more fields than columns, in src/readCSV.cpp.
use brenlib.Prelude.{
  ℕ, ◌+◌, ◌*◌, ◌<◌, ◌≤◌, Bool, ltb, List, [], ◌∷◌, ◌++◌, length, ok, err, runtime_error, ◌>>=◌, ◌≡◌,
  refl, arith, All, ap, ◌∙◌, inl, inr, Bool-cases,
}
use brenlib.Prelude.Text.{Text}
use brenlib.Table.{Table, put, u32}
use brenlib.Table.Places.{IsWhole}
use brenlib.Table.Rows.{Stored-put}
use brenlib.CsvWriter.{Settings}
use brenlib.CsvWriter.Printed.{printed, IsReadable, printed-Shows}
use brenlib.CsvReader.{
  Last, separator, start_of_record, skips, before_header, field_ready, iterate, read_loop, read_csv,
}
use brenlib.CsvReader.Quoted.{resume, read_loop-cons}
use brenlib.CsvReader.Steps.{IsSeparator, MayBegin, in_data, line_feed, read_loop_sep-in_data}
use brenlib.CsvReader.Fields.{read_shown}
use brenlib.CsvReader.Lines.{more_fields, AreBytes, Kept-in_data}
use brenlib.CsvReader.Files.{line_text, lines_text, read_csv-lines_text}
use brenlib.CsvReader.RoundTrip.{IsTabular}

-- A separator behind the last column.
iterate_sep_full :
    (sep : ℕ) (t t' : Table Text) (col row : ℕ) (f rest : Text) (l : Last)
    → IsSeparator sep
    → put [] t col row f ≡ ok t'
    → t'.cols_ ≤ col + 1
    → iterate sep (in_data t col row f l) sep rest ≡ err runtime_error
unfolding iterate skips before_header brenlib.CsvReader.read_separator field_ready
iterate_sep_full sep t t' col row f rest l b p n = ground arith

read_loop_sep_full :
    (sep : ℕ) (t t' : Table Text) (col row : ℕ) (f rest : Text) (l : Last)
    → IsSeparator sep
    → put [] t col row f ≡ ok t'
    → t'.cols_ ≤ col + 1
    → read_loop sep (in_data t col row f l) (sep ∷ rest) ≡ err runtime_error
unfolding resume
read_loop_sep_full sep t t' col row f rest l b p n =
    read_loop-cons sep (in_data t col row f l) sep rest
    ∙ ap (λ n. n >>= resume sep rest) (iterate_sep_full sep t t' col row f rest l b p n)

module _ (cfg : Settings) (is_sep : IsSeparator cfg.field_sep) where
  -- The line from a field in a column of the table on.
  too_many_from :
      (fs : List Text) (t : Table Text) (col row : ℕ) (f rest : Text) (last : Last)
      → IsWhole t
      → MayBegin last
      → col < t.cols_
      → t.cols_ < col + (1 + length fs)
      → (row + 1) * t.cols_ < u32
      → All AreBytes (f ∷ fs)
      → All (IsReadable cfg) (f ∷ fs)
      → read_loop cfg.field_sep
          (in_data t col row [] last)
          (printed cfg f ++ more_fields cfg fs rest)
        ≡ err runtime_error
  unfolding more_fields
  too_many_from [] t col row f rest last w m c n h b r = absurd (omega (arith, c, n))
  too_many_from (g ∷ gs) t col row f rest last w m c n h b r =
      let (t₁, p, w₁, s₁, stored) = Stored-put [] t row col f w c h in
      let tail = printed cfg g ++ more_fields cfg gs rest in
      let (l, x, e) =
        read_shown cfg.field_sep cfg.field_sep (in_data t col row [] last) f (printed cfg f) tail m
          (Kept-in_data t col row [] f last) b.0 is_sep.not_quote (printed-Shows cfg f r.0).1 in
      e ∙ (elim (Bool-cases (ltb (col + 1) t.cols_)) [
        | inl y ↦
            read_loop_sep-in_data cfg.field_sep t t₁ col row f tail l is_sep p (ground (arith, s₁))
            ∙ too_many_from gs t₁ (col + 1) row g rest separator w₁ (inl refl) (ground (arith, s₁))
                (omega (arith, n, s₁)) (rw s₁ h) b.1 r.1
        | inr y ↦
            read_loop_sep_full cfg.field_sep t t₁ col row f tail l is_sep p (ground (arith, s₁))
      ])

-- Behind a header and lines of its length, a line with more fields than the header has makes the reader
-- throw `runtime_error`, whatever follows.
pub too_many_fields :
    (is_valid : Text → Bool) (cfg : Settings) (name : Text) (names : List Text)
    (rows : List (List Text)) (f : Text) (fs : List Text) (rest : Text)
    → IsSeparator cfg.field_sep
    → IsTabular is_valid cfg name names rows
    → (2 + length rows) * length (name ∷ names) < u32
    → length (name ∷ names) < length (f ∷ fs)
    → All AreBytes (f ∷ fs)
    → All (IsReadable cfg) (f ∷ fs)
    → read_csv cfg.field_sep (lines_text cfg ((name ∷ names) ∷ rows) (line_text cfg (f ∷ fs) rest))
      ≡ err runtime_error
unfolding line_text
too_many_fields is_valid cfg name names rows f fs rest is_sep t fits more b r =
    let (table, e, c, w, z, v) =
      read_csv-lines_text cfg is_sep name names rows (line_text cfg (f ∷ fs) rest) t.plain t.named
        t.columns t.whole t.fits t.bytes t.readable t.shown in
    e
    ∙ too_many_from cfg is_sep fs table 0 (1 + length rows) f (line_feed cfg.carriage_return rest)
        start_of_record w (inr refl) (omega (arith, c)) (omega (arith, c, more))
        (rw c (omega (arith, fits))) b r
