-- ===== src/CsvReader/Steps.antt =====
-- The iterations of src/readCSV.cpp around a quoted field.
use mathlib.Core.List.{append_assoc}
use brenlib.Prelude.{
  ℕ, ◌+◌, ◌<◌, Bool, true, false, if◌then◌else◌, List, [], ◌∷◌, ◌++◌, ok, ◌>>=◌, ◌≡◌, ◌≢◌, refl,
  arith, All, ap, ◌∙◌, ◌⊎◌, inl, inr,
}
use brenlib.Prelude.Text.{Text}
use brenlib.Table.{Table, put}
use brenlib.CsvWriter.{double_quote, quoted}
use brenlib.CsvReader.{
  Last, end_quote, field_data, separator, start_of_record, Reader, start, onward, swallow, skips,
  before_header, field_ready, header_ready, end_record, iterate, read_loop, eof,
}
use brenlib.CsvReader.Quoted.{resume, read_loop-cons, Kept, skips-quote, read_loop-double_quote}

-- A field may begin.
abbrev pub MayBegin : Last → Type 0
MayBegin l = (l ≡ separator) ⊎ (l ≡ start_of_record)

abbrev pub in_quotes : Reader → Reader
in_quotes s = record s { quoted = true; f = [] }

-- The byte at the end of a field: no quote, and not skipped.
iterate-quote :
    (sep : ℕ) (s : Reader) (rest : Text)
    → s.quoted ≡ false
    → MayBegin s.last
    → iterate sep s b'"' rest ≡ ok (onward (in_quotes s))
unfolding iterate brenlib.CsvReader.read_quote
iterate-quote sep s rest q (inl e) = ground (arith, skips-quote s)
iterate-quote sep s rest q (inr e) = ground (arith, skips-quote s)

-- A quoted field is read up to the byte behind it.
pub read_loop_field :
    (sep d : ℕ) (s : Reader) (f rest : Text)
    → s.quoted ≡ false
    → MayBegin s.last
    → Kept (in_quotes s) f
    → All (λ c. c < 255) f
    → d ≢ b'"'
    → read_loop sep s (quoted (double_quote f) ++ d ∷ rest)
      ≡ read_loop sep (record s { quoted = false; f = f; last = end_quote }) (d ∷ rest)
unfolding resume
read_loop_field sep d s f rest q m k b n =
    read_loop-cons sep s b'"' ((double_quote f ++ b'"' ∷ []) ++ d ∷ rest)
    ∙ rw (iterate-quote sep s ((double_quote f ++ b'"' ∷ []) ++ d ∷ rest) q m) (
        rw (append_assoc (double_quote f) (b'"' ∷ []) (d ∷ rest))
          (read_loop-double_quote sep d rest (in_quotes s) f refl k b n))

-- The states between the fields of the header, and of the other lines.
abbrev pub in_header : List Text → Text → Last → Reader
in_header h f last = record start { h = h; f = f; last = last }

abbrev pub in_data : Table Text → ℕ → ℕ → Text → Last → Reader
in_data t col row f last = record start {
  t = t;
  reading_header = false;
  f = f;
  col = col;
  row = row;
  last = last;
}

-- A byte that may stand between fields.
pub record IsSeparator (sep : ℕ) : Type 0 where
  pub not_cr : sep ≢ 13
  pub not_lf : sep ≢ 10
  pub not_eof : sep ≢ 255
  pub not_quote : sep ≢ b'"'

-- A record may end.
abbrev pub MayEnd : Last → Type 0
MayEnd l = (l ≡ end_quote) ⊎ (l ≡ field_data) ⊎ (l ≡ separator)

iterate_sep-in_header :
    (sep : ℕ) (h : List Text) (f rest : Text) (l : Last)
    → IsSeparator sep
    → MayEnd l
    → iterate sep (in_header h f l) sep rest ≡ ok (onward (in_header (h ++ f ∷ []) [] separator))
unfolding iterate skips before_header brenlib.CsvReader.read_separator field_ready
iterate_sep-in_header sep h f rest l b m = ground (arith, m)

iterate_sep-in_data :
    (sep : ℕ) (t t' : Table Text) (col row : ℕ) (f rest : Text) (l : Last)
    → IsSeparator sep
    → put [] t col row f ≡ ok t'
    → col + 1 < t'.cols_
    → iterate sep (in_data t col row f l) sep rest
      ≡ ok (onward (in_data t' (col + 1) row [] separator))
unfolding iterate skips before_header brenlib.CsvReader.read_separator field_ready
iterate_sep-in_data sep t t' col row f rest l b p n = ground arith

pub read_loop_sep-in_header :
    (sep : ℕ) (h : List Text) (f rest : Text) (l : Last)
    → IsSeparator sep
    → MayEnd l
    → read_loop sep (in_header h f l) (sep ∷ rest)
      ≡ read_loop sep (in_header (h ++ f ∷ []) [] separator) rest
unfolding resume
read_loop_sep-in_header sep h f rest l b m =
    read_loop-cons sep (in_header h f l) sep rest
    ∙ ap (λ n. n >>= resume sep rest) (iterate_sep-in_header sep h f rest l b m)

pub read_loop_sep-in_data :
    (sep : ℕ) (t t' : Table Text) (col row : ℕ) (f rest : Text) (l : Last)
    → IsSeparator sep
    → put [] t col row f ≡ ok t'
    → col + 1 < t'.cols_
    → read_loop sep (in_data t col row f l) (sep ∷ rest)
      ≡ read_loop sep (in_data t' (col + 1) row [] separator) rest
unfolding resume
read_loop_sep-in_data sep t t' col row f rest l b p n =
    read_loop-cons sep (in_data t col row f l) sep rest
    ∙ ap (λ n. n >>= resume sep rest) (iterate_sep-in_data sep t t' col row f rest l b p n)

-- The bytes at the end of a line: a line feed, with a carriage return before it or not.
abbrev pub line_feed : Bool → Text → Text
line_feed cr rest = if cr then 13 ∷ 10 ∷ rest else 10 ∷ rest

pub read_loop-line_feed :
    (sep : ℕ) (cr : Bool) (s s' : Reader) (rest : Text)
    → s.quoted ≡ false
    → MayEnd s.last
    → end_record s ≡ ok s'
    → read_loop sep s (line_feed cr rest) ≡ read_loop sep s' rest
unfolding iterate skips before_header brenlib.CsvReader.read_end resume
read_loop-line_feed sep true s s' rest q l e =
    read_loop-cons sep s 13 (10 ∷ rest) ∙ ground (arith, e)
read_loop-line_feed sep false s s' rest q l e = read_loop-cons sep s 10 rest ∙ ground (arith, e)
