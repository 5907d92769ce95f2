-- ===== src/CsvWriter/Columns.antt =====
-- The column counter of src/CsvWriter.cpp.
use brenlib.Prelude.{
  ◌+◌, ◌<◌, Bool, true, false, ◌||◌, leb, ◌==◌, if◌then◌else◌, List, [], ◌∷◌, length, Result, ok,
  err, Error, ◌≡◌, ◌⊎◌, arith, if_ind,
}
use brenlib.Prelude.Text.{Text}
use brenlib.CsvWriter.{
  CsvWriter, Call, is_set, end_row, to_print, emit, emit_checked, quoted_field, write_all,
  write_fields, write_field, fields, headers, header,
}

-- The destination is set, and a row has fewer fields than columns once the columns are known.
abbrev pub InRow : CsvWriter → Type 0
InRow w = (is_set w.out_ ≡ true) × ((w.columns_ ≡ 0) ⊎ (w.column_ < w.columns_))

end_row-InRow : (w : CsvWriter) → InRow w → InRow (end_row w).0
unfolding end_row
end_row-InRow w h = ground arith

emit-InRow : (w : CsvWriter) (text : Text) → InRow w → InRow (emit w text).0
unfolding emit end_row
emit-InRow w text h = ground arith

emit_checked-InRow : (w : CsvWriter) (r : Result Text) → InRow w → InRow (emit_checked w r).0
emit_checked-InRow w (ok t) h = emit-InRow w t h
emit_checked-InRow w (err e) h = h

-- A method that refuses leaves the writer as it is.
unless-InRow :
    (w : CsvWriter) (b : Bool) (e : Error) (r : Call)
    → InRow w
    → InRow r.0
    → InRow (if b then (w, err e) else r).0
unless-InRow w true e r h k = h
unless-InRow w false e r h k = k

module _ (is_valid : Text → Bool) where
  quoted_field-InRow : (w : CsvWriter) (f : Text) → InRow w → InRow (quoted_field is_valid w f).0
  unfolding quoted_field
  quoted_field-InRow w f h =
      if_ind (λ (r : Call). InRow r.0) (is_valid f)
        (emit_checked-InRow w (to_print w.settings_ f) h) h

  write_on-InRow :
      (r : Call) (fs : List Text)
      → InRow r.0
      → ((w : CsvWriter) → InRow w → InRow (write_all is_valid w fs).0)
      → InRow
          (elim (r.1) as (λ x. Call) [ ok n ↦ write_all is_valid r.0 fs | err e ↦ (r.0, err e) ]).0
  write_on-InRow (w, ok n) fs h k = k w h
  write_on-InRow (w, err e) fs h k = h

  write_all-InRow : (w : CsvWriter) (fs : List Text) → InRow w → InRow (write_all is_valid w fs).0
  unfolding write_all
  write_all-InRow w [] h = h
  write_all-InRow w (f ∷ fs) h =
      write_on-InRow (quoted_field is_valid w f) fs (quoted_field-InRow w f h)
        λ w' h'. write_all-InRow w' fs h'

  write_fields-InRow :
      (w : CsvWriter) (row : List Text) → InRow w → InRow (write_fields is_valid w row).0
  unfolding write_fields
  write_fields-InRow w row h =
      if_ind (λ (r : Call). InRow r.0) (w.columns_ == 0 || leb (w.column_ + length row) w.columns_)
        (write_all-InRow w row h) h

  -- Whatever method is called, and whether it throws or not: a writer whose destination is set has
  -- fewer fields in its row than columns afterwards, if the columns are known. A full row is ended.
  pub operations-InRow :
      (w : CsvWriter) (f : Text) (row : List Text)
      → InRow w
      → InRow (end_row w).0
        × InRow (write_field is_valid w f).0
        × InRow (fields is_valid w row).0
        × InRow (headers is_valid w row).0
        × InRow (header is_valid w f).0
  unfolding write_field fields headers header
  operations-InRow w f row h = (
    end_row-InRow w h,
    unless-InRow w _ _ (quoted_field is_valid w f) h (quoted_field-InRow w f h),
    unless-InRow w _ _ (write_fields is_valid w row) h (write_fields-InRow w row h),
    unless-InRow w _ _ (write_fields is_valid w row) h (write_fields-InRow w row h),
    unless-InRow w _ _ (quoted_field is_valid w f) h (quoted_field-InRow w f h),
  )
