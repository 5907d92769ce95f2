-- ===== src/CsvWriter/Headers.antt =====
-- The header that src/CsvWriter.cpp writes.
use mathlib.Core.List.{append_assoc, append-nil}
use brenlib.Prelude.{
  ℕ, ◌+◌, Bool, true, ◌==◌, if◌then◌else◌, List, [], ◌∷◌, ◌++◌, length, some, ok, ◌≡◌, refl, arith,
  ◌∙◌, All,
}
use brenlib.Prelude.Text.{Text}
use brenlib.CsvWriter.Printed.{printed, CanPrint}
use brenlib.CsvWriter.{
  Settings, CsvWriter, Call, create, destination, is_set, terminate, end_row, emit, write_all,
  write_fields, headers,
}
use brenlib.CsvWriter.Rows.{pieces, AllValid, quoted_field-printed, write_all-cons}

-- A call that wrote the fields, of the line of a header.
pub record Named (w : CsvWriter) (fs : List Text) (r : Call) : Type 0 where
  pub output_is : r.0.output ≡ w.output ++ pieces w.settings_ w.column_ fs
  pub column_is : r.0.column_ ≡ w.column_ + length fs
  pub columns_is : r.0.columns_ ≡ w.columns_
  pub lines_is : r.0.lines_ ≡ w.lines_
  pub answer : ℕ
  pub answer_is : r.1 ≡ ok answer
  pub out_is : r.0.out_ ≡ w.out_
  pub settings_is : r.0.settings_ ≡ w.settings_

emit_header :
    (w : CsvWriter) (text : Text)
    → w.columns_ ≡ 0
    → emit w text ≡ (
      record w {
        output = w.output ++ ((if w.column_ == 0 then [] else w.settings_.field_sep ∷ []) ++ text);
        column_ = w.column_ + 1;
      },
      ok (w.column_ + 1),
    )
unfolding emit
emit_header w text h = ground arith

-- A new writer whose destination is set.
abbrev pub ready : Settings → ℕ → CsvWriter
ready s d = record {
  column_ = 0;
  columns_ = 0;
  lines_ = 0;
  out_ = some d;
  settings_ = s;
  output = [];
}

pub destination-ready :
    (s : Settings) (d : ℕ) → destination (create s) (some d) ≡ (ready s d, ok tt)
unfolding destination create
destination-ready s d = refl

-- The end of a header fixes the number of columns.
pub end_row_header :
    (w : CsvWriter)
    → is_set w.out_ ≡ true
    → w.columns_ ≡ 0
    → end_row w ≡ (terminate (record w { columns_ = w.column_ }), ok w.column_)
unfolding end_row
end_row_header w o c = ground arith

module _ (is_valid : Text → Bool) where
  -- The names of a header are written, before the number of columns is known.
  pub write_all-Named :
      (w : CsvWriter) (f : Text) (fs : List Text)
      → All (CanPrint w.settings_) (f ∷ fs)
      → w.columns_ ≡ 0
      → AllValid is_valid (f ∷ fs)
      → Named w (f ∷ fs) (write_all is_valid w (f ∷ fs))
  unfolding write_all
  write_all-Named w f [] q c v =
      rw
        (write_all-cons is_valid w _ f [] (w.column_ + 1)
          (quoted_field-printed is_valid w f v.0 q.0 ∙ emit_header w (printed w.settings_ f) c))
        (record {
          output_is = simp append-nil;
          column_is = refl;
          columns_is = refl;
          lines_is = refl;
          answer = _;
          answer_is = refl;
          out_is = refl;
          settings_is = refl;
        })
  write_all-Named w f (g ∷ gs) q c v =
      let rest =
        write_all-Named
          (record w {
            output =
                w.output
                ++ ((if w.column_ == 0 then [] else w.settings_.field_sep ∷ [])
                    ++ printed w.settings_ f);
            column_ = w.column_ + 1;
          })
          g gs q.1 c v.1 in
      rw
        (write_all-cons is_valid w _ f (g ∷ gs) (w.column_ + 1)
          (quoted_field-printed is_valid w f v.0 q.0 ∙ emit_header w (printed w.settings_ f) c))
        (record {
          output_is = rest.output_is ∙ simp append_assoc;
          column_is = omega (arith, rest.column_is);
          columns_is = rest.columns_is;
          lines_is = rest.lines_is;
          answer = rest.answer;
          answer_is = rest.answer_is;
          out_is = rest.out_is;
          settings_is = rest.settings_is;
        })

  pub headers-write_all :
      (w : CsvWriter) (names : List Text)
      → is_set w.out_ ≡ true
      → w.lines_ ≡ 0
      → w.columns_ ≡ 0
      → headers is_valid w names ≡ write_all is_valid w names
  unfolding headers write_fields
  headers-write_all w names o l c = ground arith
