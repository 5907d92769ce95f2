-- ===== src/CsvWriter.antt =====
-- src/CsvWriter.cpp and hdr/bren/CsvWriter.hpp. The stream that `out_` points to is a number, what
-- was written to it a text; writing to it succeeds. A method returns the writer as it leaves it,
-- also when it throws. `is_valid` stands for `utf8::is_valid`.
pub mod Printed
pub mod Rows
pub mod Headers
pub mod Columns
mod Tests
use brenlib.Prelude.{
  ℕ, ◌+◌, Bool, true, false, not, ◌||◌, ◌&&◌, leb, ◌==◌, if◌then◌else◌, List, [], ◌∷◌, ◌++◌, Option,
  none, some, length, Result, ok, err, Error, invalid_argument, logic_error, out_of_range,
  runtime_error,
}
use brenlib.Prelude.Text.{Text, elem}

pub data Quoting : Type 0 where
  never needed always : Quoting

pub record Settings : Type 0 where
  pub field_sep : ℕ
  pub carriage_return : Bool
  pub force_header : Bool
  pub quoting : Quoting

abbrev pub paypal : Settings
paypal = record { field_sep = b','; carriage_return = false; force_header = true; quoting = always }

abbrev pub ticket_matic : Settings
ticket_matic = record {
  field_sep = b';';
  carriage_return = false;
  force_header = true;
  quoting = needed;
}

pub record CsvWriter : Type 0 where
  pub column_ : ℕ
  pub columns_ : ℕ
  pub lines_ : ℕ
  pub out_ : Option ℕ
  pub settings_ : Settings
  pub output : Text

-- What a method leaves and what it returns.
abbrev pub Call : Type 0
Call = CsvWriter × Result ℕ

pub create : Settings → CsvWriter
create s = record { column_ = 0; columns_ = 0; lines_ = 0; out_ = none; settings_ = s; output = [] }

abbrev may_set : ℕ → Option ℕ → Bool
may_set d none = true
may_set d (some o) = d == o

-- `destination`
pub destination : CsvWriter → Option ℕ → CsvWriter × Result (Unit {0})
destination w none = (w, err invalid_argument)
destination w (some d) =
    if may_set d w.out_ then (record w { out_ = some d }, ok tt) else (w, err logic_error)

abbrev pub is_set : Option ℕ → Bool
is_set none = false
is_set (some o) = true

-- `doubleQuote_`
unfoldable pub double_quote : Text → Text
double_quote [] = []
double_quote (c ∷ cs) =
    let rest = double_quote cs in if c == b'"' then b'"' ∷ b'"' ∷ rest else c ∷ rest

-- std::string::find_first_of succeeds.
pub contains_any : Text → Text → Bool
contains_any [] bad = false
contains_any (c ∷ cs) bad = elem c bad || contains_any cs bad

-- The last part of `endRow`.
abbrev pub terminate : CsvWriter → CsvWriter
terminate w = record w {
  output = w.output ++ (if w.settings_.carriage_return then 13 ∷ 10 ∷ [] else 10 ∷ []);
  column_ = 0;
  lines_ = w.lines_ + 1;
}

-- `endRow`
pub end_row : CsvWriter → Call
end_row w =
    if not (is_set w.out_)
    then (w, err logic_error)
    else if w.columns_ == 0
    then (terminate (record w { columns_ = w.column_ }), ok w.column_)
    else if w.column_ == 0
    then (w, ok w.columns_)
    else if w.column_ == w.columns_
    then (terminate w, ok w.columns_)
    else (w, err out_of_range)

abbrev pub quoted : Text → Text
quoted t = b'"' ∷ (t ++ b'"' ∷ [])

-- The `switch` of `quotedField_`: the text to print.
pub to_print : Settings → Text → Result Text
unfolding double_quote contains_any
to_print s field = elim (s.quoting) [
  | never ↦ if contains_any field (13 ∷ 10 ∷ s.field_sep ∷ []) then err runtime_error else ok field
  | always ↦ ok (quoted (double_quote field))
  | needed ↦
      if contains_any (double_quote field) (13 ∷ 10 ∷ s.field_sep ∷ b'"' ∷ [])
      then ok (quoted (double_quote field))
      else ok (double_quote field)
]

-- The last part of `quotedField_`: write, count, and end a full row.
pub emit : CsvWriter → Text → Call
unfolding end_row
emit w text =
    let sep = if w.column_ == 0 then [] else w.settings_.field_sep ∷ [] in
    let w' = record w { output = w.output ++ (sep ++ text); column_ = w.column_ + 1 } in
    if not (w.columns_ == 0) && w.column_ + 1 == w.columns_
    then end_row w'
    else (w', ok (w.column_ + 1))

abbrev emit_checked : CsvWriter → Result Text → Call
emit_checked w (ok t) = emit w t
emit_checked w (err e) = (w, err e)

module _ (is_valid : Text → Bool) where
  -- `quotedField_`
  pub quoted_field : CsvWriter → Text → Call
  unfolding to_print emit
  quoted_field w field =
      if is_valid field
      then emit_checked w (to_print w.settings_ field)
      else (w, err invalid_argument)

  -- The loop of `writeFields_`, and its return.
  pub write_all : CsvWriter → List Text → Call
  unfolding quoted_field
  write_all w [] = (w, ok (if w.column_ == 0 then w.columns_ else w.column_))
  write_all w (f ∷ fs) =
      let (w', r) = quoted_field w f in elim r [ ok n ↦ write_all w' fs | err e ↦ (w', err e) ]

  -- `writeFields_`
  pub write_fields : CsvWriter → List Text → Call
  unfolding write_all
  write_fields w row =
      if w.columns_ == 0 || leb (w.column_ + length row) w.columns_
      then write_all w row
      else (w, err out_of_range)

  abbrev pub header_missing : CsvWriter → Bool
  header_missing w = w.settings_.force_header && (w.lines_ == 0)

  -- `field`
  pub write_field : CsvWriter → Text → Call
  unfolding quoted_field
  write_field w f =
      if not (is_set w.out_) || header_missing w then (w, err logic_error) else quoted_field w f

  -- `fields`
  pub fields : CsvWriter → List Text → Call
  unfolding write_fields
  fields w fs =
      if not (is_set w.out_) || header_missing w then (w, err logic_error) else write_fields w fs

  -- `headers`
  pub headers : CsvWriter → List Text → Call
  unfolding write_fields
  headers w names =
      if not (is_set w.out_) || not (w.lines_ == 0)
      then (w, err logic_error)
      else write_fields w names

  -- `header`
  pub header : CsvWriter → Text → Call
  unfolding quoted_field
  header w name =
      if not (is_set w.out_) || not (w.lines_ == 0)
      then (w, err logic_error)
      else quoted_field w name
