-- ===== src/CsvReader/Written.antt =====
-- The file that src/CsvWriter.cpp writes for a header and rows.
use mathlib.Core.List.{append_assoc, append-nil}
use brenlib.Prelude.{
  ℕ, ◌+◌, ◌≤◌, Bool, true, false, ◌==◌, List, [], ◌∷◌, ◌++◌, length, some, Result, ok, err, ◌>>=◌,
  ◌≡◌, refl, arith, All, ap, ◌∙◌, sym, subst,
}
use brenlib.Prelude.Text.{Text}
use brenlib.CsvWriter.{
  Settings, CsvWriter, Call, create, destination, is_set, terminate, end_row, headers, fields,
  write_all, header_missing,
}
use brenlib.CsvWriter.Printed.{printed, CanPrint, IsReadable, All-CanPrint}
use brenlib.CsvWriter.Rows.{pieces, line_end, AllValid, fields-Line}
use brenlib.CsvWriter.Headers.{
  ready, destination-ready, end_row_header, write_all-Named, headers-write_all,
}
use brenlib.CsvReader.Steps.{line_feed}
use brenlib.CsvReader.Lines.{more_fields}
use brenlib.CsvReader.Files.{line_text, lines_text, file_text}

-- A call that must not throw.
abbrev pub succeeded : Call → Result CsvWriter
succeeded (w, ok n) = ok w
succeeded (w, err e) = err e

abbrev pub opened : CsvWriter × Result (Unit {0}) → Result CsvWriter
opened (w, ok u) = ok w
opened (w, err e) = err e

module _ (is_valid : Text → Bool) where
  pub write_rows : CsvWriter → List (List Text) → Result CsvWriter
  write_rows w [] = ok w
  write_rows w (row ∷ rows) = do w' ← succeeded (fields is_valid w row); write_rows w' rows

  pub write_header : Settings → List Text → Result CsvWriter
  write_header s names = do
    w ← opened (destination (create s) (some 1))
    named ← succeeded (headers is_valid w names)
    succeeded (end_row named)

  -- How a client writes a table: the header, its end, and the rows.
  unfoldable pub write_csv : Settings → List Text → List (List Text) → Result CsvWriter
  unfolding write_rows write_header
  write_csv s names rows = do ended ← write_header s names; write_rows ended rows

pieces-more_fields :
    (s : Settings) (col : ℕ) (fs : List Text) (rest : Text)
    → pieces s (col + 1) fs ++ (line_end s ++ rest)
      ≡ more_fields s fs (line_feed s.carriage_return rest)
unfolding more_fields
pieces-more_fields s col [] rest = ground arith
pieces-more_fields s col (f ∷ fs) rest =
    let inner : ((col + 1) == 0) ≡ false = ground arith in
    rw inner (
      ap (λ t. s.field_sep ∷ t)
        (append_assoc (printed s f) (pieces s (col + 1 + 1) fs) (line_end s ++ rest)
          ∙ ap (λ t. printed s f ++ t) (pieces-more_fields s (col + 1) fs rest)))

pub pieces-line_text :
    (s : Settings) (f : Text) (fs : List Text) (rest : Text)
    → (pieces s 0 (f ∷ fs) ++ line_end s) ++ rest ≡ line_text s (f ∷ fs) rest
unfolding line_text
pieces-line_text s f fs rest =
    append_assoc (pieces s 0 (f ∷ fs)) (line_end s) rest
    ∙ (append_assoc (printed s f) (pieces s 1 fs) (line_end s ++ rest)
        ∙ ap (λ t. printed s f ++ t) (pieces-more_fields s 0 fs rest))

succeeded_ok : (r : Call) (n : ℕ) → r.1 ≡ ok n → succeeded r ≡ ok (r.0)
succeeded_ok (w, ok m) n h = refl
succeeded_ok (w, err e) n h = cc

-- A writer between two lines, behind its header.
pub record IsBetween (s : Settings) (columns : ℕ) (w : CsvWriter) : Type 0 where
  pub settings_is : w.settings_ ≡ s
  pub out_is : is_set w.out_ ≡ true
  pub column_is : w.column_ ≡ 0
  pub columns_is : w.columns_ ≡ columns
  pub some_line : 1 ≤ w.lines_

module _ (is_valid : Text → Bool) (s : Settings) where
  header_there : (w : CsvWriter) → 1 ≤ w.lines_ → header_missing is_valid w ≡ false
  header_there w h = ground arith

  fields-IsBetween :
      (n : ℕ) (w : CsvWriter) (f : Text) (fs : List Text)
      → IsBetween s n w
      → length (f ∷ fs) ≡ n
      → AllValid is_valid (f ∷ fs)
      → All (IsReadable s) (f ∷ fs)
      → (w' : CsvWriter) × (succeeded (fields is_valid w (f ∷ fs)) ≡ ok w')
        × (w'.output ≡ w.output ++ (pieces s 0 (f ∷ fs) ++ line_end s))
        × IsBetween s n w'
  fields-IsBetween n w f fs b l v r =
      let line =
        fields-Line is_valid w f fs b.out_is (header_there w b.some_line)
          (subst (λ c. All (CanPrint c) (f ∷ fs)) (sym b.settings_is) (All-CanPrint s (f ∷ fs) r))
          b.column_is (omega (arith, l, b.columns_is)) v in
      (
        (fields is_valid w (f ∷ fs)).0,
        succeeded_ok (fields is_valid w (f ∷ fs)) w.columns_ line.answer_is,
        line.output_is ∙ ap (λ t. w.output ++ (pieces t 0 (f ∷ fs) ++ line_end t)) b.settings_is,
        record {
          settings_is = line.settings_is ∙ b.settings_is;
          out_is = rw line.out_is b.out_is;
          column_is = line.column_is;
          columns_is = line.columns_is ∙ b.columns_is;
          some_line = omega (arith, line.lines_is);
        },
      )

  -- The rows are written, each as its line.
  pub write_rows-file_text :
      (n : ℕ) (rows : List (List Text)) (w : CsvWriter)
      → IsBetween s n w
      → 1 ≤ n
      → All (λ x. length x ≡ n) rows
      → All (AllValid is_valid) rows
      → All (All (IsReadable s)) rows
      → (w' : CsvWriter) × (write_rows is_valid w rows ≡ ok w')
        × (w'.output ≡ w.output ++ file_text s rows)
  unfolding write_rows lines_text
  write_rows-file_text n [] w b h l v r = (w, refl, sym (append-nil w.output))
  write_rows-file_text n ([] ∷ rows) w b h l v r = absurd (omega (arith, l.0))
  write_rows-file_text n ((f ∷ fs) ∷ rows) w b h l v r =
      let (w₁, e₁, o₁, b₁) = fields-IsBetween n w f fs b l.0 v.0 r.0 in
      let (w₂, e₂, o₂) = write_rows-file_text n rows w₁ b₁ h l.1 v.1 r.1 in
      (
        w₂,
        rw e₁ e₂,
        o₂
            ∙ (ap (λ t. t ++ file_text s rows) o₁
                ∙ (append_assoc w.output (pieces s 0 (f ∷ fs) ++ line_end s) (file_text s rows)
                    ∙ ap (λ t. w.output ++ t) (pieces-line_text s f fs (file_text s rows)))),
      )

  -- The header and its end.
  pub header-IsBetween :
      (name : Text) (names : List Text)
      → AllValid is_valid (name ∷ names)
      → All (IsReadable s) (name ∷ names)
      → (w : CsvWriter) × (write_header is_valid s (name ∷ names) ≡ ok w)
        × (w.output ≡ pieces s 0 (name ∷ names) ++ line_end s)
        × IsBetween s (length (name ∷ names)) w
  unfolding write_header
  header-IsBetween name names v r =
      let row = name ∷ names in
      let named = write_all-Named is_valid (ready s 1) name names (All-CanPrint s row r) refl v in
      let w₁ = (write_all is_valid (ready s 1) row).0 in
      let w = terminate (record w₁ { columns_ = w₁.column_ }) in
      let e₁ : succeeded (headers is_valid (ready s 1) row) ≡ ok w₁ =
        ap succeeded (headers-write_all is_valid (ready s 1) row refl refl refl)
        ∙ succeeded_ok (write_all is_valid (ready s 1) row) named.answer named.answer_is in
      let e₂ : succeeded (end_row w₁) ≡ ok w =
        ap succeeded (end_row_header w₁ (rw named.out_is refl) named.columns_is) in
      (
        w,
        rw (destination-ready s 1) (rw e₁ e₂),
        ap (λ t. t ++ line_end w₁.settings_) named.output_is
            ∙ ap (λ t. pieces s 0 row ++ line_end t) named.settings_is,
        record {
          settings_is = named.settings_is;
          out_is = rw named.out_is refl;
          column_is = refl;
          columns_is = named.column_is ∙ omega arith;
          some_line = omega arith;
        },
      )
