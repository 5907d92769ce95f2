-- ===== src/CsvReader/Open.antt =====
-- A quoted field that the stream ends in, in src/readCSV.cpp.
use brenlib.Prelude.{
  ℕ, ◌+◌, ◌<◌, Bool, true, false, ◌&&◌, ◌==◌, if◌then◌else◌, List, [], ◌∷◌, length, Result, ok, err,
  runtime_error, ◌≡◌, refl, arith, All, ap, ◌∙◌, inl, inr, Bool-cases, sym, ==_iff, subst,
}
use brenlib.Prelude.Text.{Text}
use brenlib.Table.{Table}
use brenlib.Table.Places.{value_at}
use brenlib.Table.Grids.{cell_of}
use brenlib.CsvWriter.{Settings, double_quote}
use brenlib.CsvReader.{
  Reader, Last, start_of_record, next_is, at_end, push, skips, before_header, iterate, read_loop,
  read_csv,
}
use brenlib.CsvReader.Quoted.{
  resume, read_loop-cons, Kept, Kept-push, iterate_cr, plain_step, double_step, cr_step, cr_lf_step,
}
use brenlib.CsvReader.Steps.{IsSeparator, in_quotes, in_data}
use brenlib.CsvReader.Lines.{AreBytes}
use brenlib.CsvReader.Files.{lines_text, read_csv-lines_text}
use brenlib.CsvReader.RoundTrip.{IsTabular}

-- Is a carriage return the last byte?
pub ends_in_cr : Text → Bool
ends_in_cr [] = false
ends_in_cr (c ∷ []) = c == 13
ends_in_cr (c ∷ d ∷ cs) = ends_in_cr (d ∷ cs)

-- What becomes of the table.
abbrev pub cut_off : Text → Table Text → Result (Table Text)
cut_off f t = if ends_in_cr f then ok t else err runtime_error

end_in_quotes : (sep : ℕ) (s : Reader) → s.quoted ≡ true → read_loop sep s [] ≡ err runtime_error
unfolding read_loop iterate skips brenlib.CsvReader.read_quoted
end_in_quotes sep s q = ground arith

cr_at_end : (sep : ℕ) (s : Reader) → s.quoted ≡ true → read_loop sep s (13 ∷ []) ≡ ok s.t
unfolding resume
cr_at_end sep s q = read_loop-cons sep s 13 [] ∙ rw (iterate_cr sep s q []) refl

ends-lf : (cs : Text) → ends_in_cr (10 ∷ cs) ≡ ends_in_cr cs
unfolding ends_in_cr
ends-lf [] = refl
ends-lf (d ∷ cs) = refl

next_is-lf : (e : ℕ) (cs : Text) → next_is 10 (double_quote (e ∷ cs)) ≡ (10 == e)
unfolding double_quote
next_is-lf e cs = ground arith

at_end-more : (e : ℕ) (cs : Text) → at_end (double_quote (e ∷ cs)) ≡ false
unfolding double_quote
at_end-more e cs = ground arith

-- One byte of the field, but the last one, and a carriage return before a line feed.
open_step :
    (sep : ℕ) (s : Reader) (c e : ℕ) (cs : Text)
    → s.quoted ≡ true
    → skips s c ≡ false
    → c < 255
    → ((c == 13) && (10 == e)) ≡ false
    → read_loop sep s (double_quote (c ∷ e ∷ cs)) ≡ read_loop sep (push c s) (double_quote (e ∷ cs))
unfolding double_quote
open_step sep s c e cs q k h n = elim (Bool-cases (c == b'"')) [
  | inl x ↦ rw ((==_iff c b'"').0 x) (double_step sep s (double_quote (e ∷ cs)) q)
  | inr x ↦ rw x (elim (Bool-cases (c == 13)) [
    | inl y ↦ rw ((==_iff c 13).0 y) (
        cr_step sep s (double_quote (e ∷ cs)) q (next_is-lf e cs ∙ ground arith) (at_end-more e cs))
    | inr y ↦ plain_step sep c s (double_quote (e ∷ cs)) q k h (ground arith) (ground arith)
  ])
]

-- The last byte of the stream.
last_open :
    (sep : ℕ) (s : Reader) (c : ℕ)
    → s.quoted ≡ true
    → skips s c ≡ false
    → c < 255
    → read_loop sep s (double_quote (c ∷ [])) ≡ cut_off (c ∷ []) s.t
unfolding double_quote ends_in_cr
last_open sep s c q k h = elim (Bool-cases (c == b'"')) [
  | inl x ↦ rw ((==_iff c b'"').0 x) (double_step sep s [] q ∙ end_in_quotes sep (push b'"' s) q)
  | inr x ↦ rw x (elim (Bool-cases (c == 13)) [
    | inl y ↦ rw ((==_iff c 13).0 y) (cr_at_end sep s q)
    | inr y ↦
        rw y (
          plain_step sep c s [] q k h (ground arith) (ground arith)
          ∙ end_in_quotes sep (push c s) q)
  ])
]

and_left : (a b : Bool) → (a && b) ≡ true → (a ≡ true) × (b ≡ true)
and_left a b h = (ground arith, ground arith)

cr_lf_open :
    (sep : ℕ) (s : Reader) (cs : Text)
    → s.quoted ≡ true
    → read_loop sep (push 10 (push 13 s)) (double_quote cs) ≡ cut_off cs s.t
    → read_loop sep s (double_quote (13 ∷ 10 ∷ cs)) ≡ cut_off (13 ∷ 10 ∷ cs) s.t
unfolding double_quote ends_in_cr
cr_lf_open sep s cs q ih =
    cr_lf_step sep s (double_quote cs) q
    ∙ (ih ∙ ap (λ (x : Bool). if x then ok s.t else err runtime_error) (sym (ends-lf cs)))

-- The bytes of the field up to the end of the stream.
read_open :
    (sep : ℕ) (s : Reader) (cs : Text)
    → s.quoted ≡ true
    → Kept s cs
    → All (λ c. c < 255) cs
    → read_loop sep s (double_quote cs) ≡ cut_off cs s.t
unfolding double_quote ends_in_cr
read_open sep s [] q k h = end_in_quotes sep s q
read_open sep s (c ∷ []) q k h = last_open sep s c q k h.0
read_open sep s (c ∷ e ∷ cs) q k h = elim (Bool-cases ((c == 13) && (10 == e))) [
  | inl b ↦
      let (is_cr, is_lf) = and_left (c == 13) (10 == e) b in
      let ih = read_open sep (push 10 (push 13 s)) cs q (Kept-push 10 (push 13 s) cs) h.1.1 in
      subst (λ (x : ℕ). read_loop sep s (double_quote (x ∷ e ∷ cs)) ≡ cut_off (x ∷ e ∷ cs) s.t)
        (sym ((==_iff c 13).0 is_cr))
        (subst (λ (y : ℕ). read_loop sep s (double_quote (13 ∷ y ∷ cs)) ≡ cut_off (13 ∷ y ∷ cs) s.t)
          ((==_iff 10 e).0 is_lf) (cr_lf_open sep s cs q ih))
  | inr b ↦
      open_step sep s c e cs q k h.0 b
      ∙ read_open sep (push c s) (e ∷ cs) q (Kept-push c s (e ∷ cs)) h.1
]

-- The quote that opens the field.
begin_quote_step :
    (sep : ℕ) (t : Table Text) (row : ℕ) (rest : Text)
    → read_loop sep (in_data t 0 row [] start_of_record) (b'"' ∷ rest)
      ≡ read_loop sep (in_quotes (in_data t 0 row [] start_of_record)) rest
unfolding resume iterate skips before_header brenlib.CsvReader.read_quote
begin_quote_step sep t row rest =
    read_loop-cons sep (in_data t 0 row [] start_of_record) b'"' rest ∙ refl

Kept-open :
    (t : Table Text) (row : ℕ) (f : Text) → Kept (in_quotes (in_data t 0 row [] start_of_record)) f
unfolding skips before_header
Kept-open t row [] = tt
Kept-open t row (c ∷ cs) = refl

-- Behind a header and lines of its length, a line that begins with a quoted field that is not closed
-- before the end of the stream makes the reader throw `runtime_error`, but if the last byte is a carriage
-- return, it returns the table of the lines before it.
pub open_quote :
    (is_valid : Text → Bool) (cfg : Settings) (name : Text) (names : List Text)
    (rows : List (List Text)) (f : Text)
    → IsSeparator cfg.field_sep
    → IsTabular is_valid cfg name names rows
    → AreBytes f
    → (t : Table Text) × (read_csv cfg.field_sep
          (lines_text cfg ((name ∷ names) ∷ rows) (b'"' ∷ double_quote f))
        ≡ (if ends_in_cr f then ok t else err runtime_error))
      × (t.cols_ ≡ length (name ∷ names))
      × ((c r : ℕ)
          → c < length (name ∷ names)
          → value_at [] t c r ≡ cell_of [] ((name ∷ names) ∷ rows) c r)
open_quote is_valid cfg name names rows f is_sep t b =
    let (table, e, c, w, z, v) =
      read_csv-lines_text cfg is_sep name names rows (b'"' ∷ double_quote f) t.plain t.named
        t.columns t.whole t.fits t.bytes t.readable t.shown in
    let row = 1 + length rows in
    (
      table,
      e
          ∙ (begin_quote_step cfg.field_sep table row (double_quote f)
              ∙ read_open cfg.field_sep (in_quotes (in_data table 0 row [] start_of_record)) f refl
                  (Kept-open table row f) b),
      c,
      v,
    )
