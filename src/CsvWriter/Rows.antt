-- ===== src/CsvWriter/Rows.antt =====
-- The lines that src/CsvWriter.cpp writes.
use mathlib.Core.List.{append_assoc}
use brenlib.Prelude.{
  ℕ, ◌+◌, ◌≤◌, ◌<◌, Bool, true, false, ◌==◌, if◌then◌else◌, List, [], ◌∷◌, ◌++◌, length, ok, err,
  All, ◌≡◌, ◌≢◌, refl, arith, ap, subst, ◌∙◌, logic_error, out_of_range,
}
use brenlib.Prelude.Text.{Text}
use brenlib.CsvWriter.Printed.{printed, CanPrint, to_print-printed}
use brenlib.CsvWriter.{
  Settings, CsvWriter, Call, is_set, terminate, end_row, emit, quoted_field, write_all,
  write_fields, header_missing, fields,
}

-- The fields from the column `col` of a line on.
abbrev pub pieces : Settings → ℕ → List Text → Text
pieces s col [] = []
pieces s col (f ∷ fs) =
    (if col == 0 then [] else s.field_sep ∷ []) ++ (printed s f ++ pieces s (col + 1) fs)

abbrev pub line_end : Settings → Text
line_end s = if s.carriage_return then 13 ∷ 10 ∷ [] else 10 ∷ []

-- A call that wrote the text and the end of the line, and changed nothing else.
pub record Line (w : CsvWriter) (text : Text) (r : Call) : Type 0 where
  pub output_is : r.0.output ≡ w.output ++ (text ++ line_end w.settings_)
  pub column_is : r.0.column_ ≡ 0
  pub columns_is : r.0.columns_ ≡ w.columns_
  pub lines_is : r.0.lines_ ≡ w.lines_ + 1
  pub answer_is : r.1 ≡ ok w.columns_
  pub out_is : r.0.out_ ≡ w.out_
  pub settings_is : r.0.settings_ ≡ w.settings_

emit_inner :
    (w : CsvWriter) (text : Text)
    → w.column_ + 1 < w.columns_
    → emit w text ≡ (
      record w {
        output = w.output ++ ((if w.column_ == 0 then [] else w.settings_.field_sep ∷ []) ++ text);
        column_ = w.column_ + 1;
      },
      ok (w.column_ + 1),
    )
unfolding emit
emit_inner w text h = ground arith

emit_last :
    (w : CsvWriter) (text : Text)
    → is_set w.out_ ≡ true
    → w.column_ + 1 ≡ w.columns_
    → emit w text ≡ (
      terminate (record w {
        output = w.output ++ ((if w.column_ == 0 then [] else w.settings_.field_sep ∷ []) ++ text);
      }),
      ok w.columns_,
    )
unfolding emit end_row
emit_last w text o h = ground arith

module _ (is_valid : Text → Bool) where
  abbrev pub AllValid : List Text → Type 0
  AllValid = All λ f. is_valid f ≡ true

  pub quoted_field-printed :
      (w : CsvWriter) (f : Text)
      → is_valid f ≡ true
      → CanPrint w.settings_ f
      → quoted_field is_valid w f ≡ emit w (printed w.settings_ f)
  unfolding quoted_field
  quoted_field-printed w f v p = rw (v, to_print-printed w.settings_ f p) refl

  pub write_all-cons :
      (w w' : CsvWriter) (f : Text) (fs : List Text) (n : ℕ)
      → quoted_field is_valid w f ≡ (w', ok n)
      → write_all is_valid w (f ∷ fs) ≡ write_all is_valid w' fs
  unfolding write_all
  write_all-cons w w' f fs n h =
      ap (λ (r : Call). elim (r.1) [ ok k ↦ write_all is_valid r.0 fs | err e ↦ (r.0, err e) ]) h

  -- The line of the pieces is written once its last field is.
  row_from :
      (w : CsvWriter) (f : Text) (fs : List Text)
      → is_set w.out_ ≡ true
      → All (CanPrint w.settings_) (f ∷ fs)
      → w.column_ + 1 + length fs ≡ w.columns_
      → AllValid (f ∷ fs)
      → Line w (pieces w.settings_ w.column_ (f ∷ fs)) (write_all is_valid w (f ∷ fs))
  unfolding write_all
  row_from w f [] o q n v =
      rw
        (write_all-cons w _ f [] w.columns_
          (quoted_field-printed w f v.0 q.0 ∙ emit_last w (printed w.settings_ f) o (omega arith)))
        (record {
          output_is = simp append_assoc;
          column_is = refl;
          columns_is = refl;
          lines_is = refl;
          answer_is = refl;
          out_is = refl;
          settings_is = refl;
        })
  row_from w f (g ∷ gs) o q n v =
      let rest =
        row_from
          (record w {
            output =
                w.output
                ++ ((if w.column_ == 0 then [] else w.settings_.field_sep ∷ [])
                    ++ printed w.settings_ f);
            column_ = w.column_ + 1;
          })
          g gs o q.1 (omega arith) v.1 in
      rw
        (write_all-cons w _ f (g ∷ gs) (w.column_ + 1)
          (quoted_field-printed w f v.0 q.0 ∙ emit_inner w (printed w.settings_ f) (omega arith)))
        (record {
          output_is = rest.output_is ∙ simp append_assoc;
          column_is = rest.column_is;
          columns_is = rest.columns_is;
          lines_is = rest.lines_is;
          answer_is = rest.answer_is;
          out_is = rest.out_is;
          settings_is = rest.settings_is;
        })

  fields-write_all :
      (w : CsvWriter) (row : List Text)
      → is_set w.out_ ≡ true
      → header_missing is_valid w ≡ false
      → w.column_ + length row ≤ w.columns_
      → fields is_valid w row ≡ write_all is_valid w row
  unfolding fields write_fields
  fields-write_all w row o m h = ground arith

  -- A whole row of valid fields that the quoting mode lets be printed, for a writer between two lines,
  -- becomes one line: what is printed for the fields, between separators, and the line end. The line is
  -- counted, and nothing else changes.
  pub fields-Line :
      (w : CsvWriter) (f : Text) (fs : List Text)
      → is_set w.out_ ≡ true
      → header_missing is_valid w ≡ false
      → All (CanPrint w.settings_) (f ∷ fs)
      → w.column_ ≡ 0
      → 1 + length fs ≡ w.columns_
      → AllValid (f ∷ fs)
      → Line w (pieces w.settings_ 0 (f ∷ fs)) (fields is_valid w (f ∷ fs))
  fields-Line w f fs o m q z n v = rw (fields-write_all w (f ∷ fs) o m (omega arith)) (
      subst (λ c. Line w (pieces w.settings_ c (f ∷ fs)) (write_all is_valid w (f ∷ fs))) z
        (row_from w f fs o q (omega arith) v))

  -- A row with more fields than columns are left is refused and nothing of it is written: with
  -- `logic_error` while the header that must come first is missing, else with `out_of_range`.
  pub fields_refused :
      (w : CsvWriter) (row : List Text)
      → is_set w.out_ ≡ true
      → w.columns_ ≢ 0
      → w.columns_ < w.column_ + length row
      → fields is_valid w row
        ≡ (w, err (if header_missing is_valid w then logic_error else out_of_range))
  unfolding fields write_fields
  fields_refused w row o c h = ground arith
