-- ===== src/CsvWriter/Printed.antt =====
-- What src/CsvWriter.cpp prints for a field, in each quoting mode.
use brenlib.Prelude.{
  ℕ, false, if◌then◌else◌, List, [], ◌∷◌, ◌++◌, ok, ◌≡◌, ◌≢◌, refl, arith, All, ap, ◌⊎◌, inl, inr,
  Bool-cases,
}
use brenlib.Prelude.Text.{Text}
use brenlib.CsvWriter.{
  Quoting, never, needed, always, Settings, double_quote, quoted, contains_any, to_print,
}

-- What the mode makes of a field: quotes around it and its own quotes doubled, always, or where it has
-- a byte that ends a field or a quote, or never.
pub printed : Settings → Text → Text
printed s field = elim (s.quoting) [
  | never ↦ field
  | always ↦ quoted (double_quote field)
  | needed ↦
      if contains_any field (13 ∷ 10 ∷ s.field_sep ∷ b'"' ∷ [])
      then quoted (double_quote field)
      else field
]

-- The mode lets the field be written: without quotes no byte of it may end a field.
abbrev pub CanPrint : Settings → Text → Type 0
CanPrint s field = elim (s.quoting) [
  | never ↦ contains_any field (13 ∷ 10 ∷ s.field_sep ∷ []) ≡ false
  | needed ↦ Unit {0}
  | always ↦ Unit {0}
]

-- The field does not begin with a quote.
abbrev pub BeginsPlain : Text → Type 0
BeginsPlain [] = Unit {0}
BeginsPlain (c ∷ cs) = c ≢ b'"'

-- A field that can stand without quotes: no byte of it ends a field, and it does not begin with a quote.
pub record IsBare (sep : ℕ) (field : Text) : Type 0 where
  pub inner : All (λ c. (c ≢ 13) × (c ≢ 10) × (c ≢ sep)) field
  pub begins : BeginsPlain field

-- The two ways in which a reader finds a field.
abbrev pub Shows : ℕ → Text → Text → Type 0
Shows sep field text = (text ≡ quoted (double_quote field)) ⊎ ((text ≡ field) × IsBare sep field)

-- A field can be written so that it is read as what it is. Only the mode that never quotes asks for
-- something.
abbrev pub IsReadable : Settings → Text → Type 0
IsReadable s field = elim (s.quoting) [
  | never ↦ IsBare s.field_sep field
  | needed ↦ Unit {0}
  | always ↦ Unit {0}
]

-- Where every field is quoted.
printed-always :
    (s : Settings) (f : Text) → s.quoting ≡ always → printed s f ≡ quoted (double_quote f)
unfolding printed
printed-always s f q = rw q refl

contains_none :
    (f : Text) (sep : ℕ)
    → All (λ c. (c ≢ 13) × (c ≢ 10) × (c ≢ sep)) f
    → contains_any f (13 ∷ 10 ∷ sep ∷ []) ≡ false
unfolding contains_any
contains_none [] sep h = refl
contains_none (c ∷ cs) sep h = ground (arith, h.0, contains_none cs sep h.1)

-- Doubling the quotes of a field that has none leaves it as it is, and brings no other byte.
double_quote-contains_any :
    (f : Text) (sep : ℕ)
    → contains_any (double_quote f) (13 ∷ 10 ∷ sep ∷ b'"' ∷ [])
      ≡ contains_any f (13 ∷ 10 ∷ sep ∷ b'"' ∷ [])
unfolding contains_any double_quote
double_quote-contains_any [] sep = refl
double_quote-contains_any (c ∷ cs) sep = ground (arith, double_quote-contains_any cs sep)

without_bad :
    (f : Text) (sep : ℕ)
    → contains_any f (13 ∷ 10 ∷ sep ∷ b'"' ∷ []) ≡ false
    → (double_quote f ≡ f) × IsBare sep f
unfolding contains_any double_quote
without_bad [] sep h = (refl, record { inner = tt; begins = tt })
without_bad (c ∷ cs) sep h =
    let (same, rest) = without_bad cs sep (ground arith) in
    (ground (arith, same), record { inner = (ground arith, rest.inner); begins = ground arith })

to_print_needed :
    (s : Settings) (f : Text)
    → to_print (record s { quoting = needed }) f ≡ ok (printed (record s { quoting = needed }) f)
unfolding printed to_print
to_print_needed s f = elim (Bool-cases (contains_any f (13 ∷ 10 ∷ s.field_sep ∷ b'"' ∷ []))) [
  | inl e ↦ rw (double_quote-contains_any f s.field_sep, e) refl
  | inr e ↦
      rw (double_quote-contains_any f s.field_sep, e) (ap ok ((without_bad f s.field_sep e).0))
]

to_print_in :
    (s : Settings) (q : Quoting) (f : Text)
    → CanPrint (record s { quoting = q }) f
    → to_print (record s { quoting = q }) f ≡ ok (printed (record s { quoting = q }) f)
unfolding printed to_print
to_print_in s never f p = rw p refl
to_print_in s needed f p = to_print_needed s f
to_print_in s always f p = refl

-- What `quotedField_` prints.
pub to_print-printed : (s : Settings) (f : Text) → CanPrint s f → to_print s f ≡ ok (printed s f)
to_print-printed s f p = to_print_in s s.quoting f p

-- In the mode `needed`, what is printed without quotes needs none.
shown_as_needed :
    (s : Settings) (f : Text) → Shows s.field_sep f (printed (record s { quoting = needed }) f)
unfolding printed
shown_as_needed s f = elim (Bool-cases (contains_any f (13 ∷ 10 ∷ s.field_sep ∷ b'"' ∷ []))) [
  | inl e ↦ inl (rw e refl)
  | inr e ↦ inr (rw e refl, (without_bad f s.field_sep e).1)
]

-- What is printed for a readable field shows it.
shown_in :
    (s : Settings) (q : Quoting) (f : Text)
    → IsReadable (record s { quoting = q }) f
    → CanPrint (record s { quoting = q }) f
      × Shows s.field_sep f (printed (record s { quoting = q }) f)
unfolding printed
shown_in s never f r = (contains_none f s.field_sep r.inner, inr (refl, r))
shown_in s needed f r = (tt, shown_as_needed s f)
shown_in s always f r = (tt, inl refl)

pub printed-Shows :
    (s : Settings) (f : Text) → IsReadable s f → CanPrint s f × Shows s.field_sep f (printed s f)
printed-Shows s f r = shown_in s s.quoting f r

pub All-CanPrint : (s : Settings) (fs : List Text) → All (IsReadable s) fs → All (CanPrint s) fs
All-CanPrint s [] r = tt
All-CanPrint s (f ∷ fs) r = ((printed-Shows s f r.0).0, All-CanPrint s fs r.1)

not_nil : (c : ℕ) (cs text : Text) → text ≡ c ∷ cs → text ≢ []
not_nil c cs text e h = ground arith

-- Something is printed for a field that is not empty, and for every field where all are quoted.
pub printed_some :
    (s : Settings) (c : ℕ) (cs : Text) → IsReadable s (c ∷ cs) → printed s (c ∷ cs) ≢ []
printed_some s c cs r = elim ((printed-Shows s (c ∷ cs) r).1) [
  | inl e ↦ not_nil b'"' (double_quote (c ∷ cs) ++ b'"' ∷ []) (printed s (c ∷ cs)) e
  | inr (e, is_bare) ↦ not_nil c cs (printed s (c ∷ cs)) e
]

pub printed_always_some : (s : Settings) (f : Text) → s.quoting ≡ always → printed s f ≢ []
printed_always_some s f q =
    not_nil b'"' (double_quote f ++ b'"' ∷ []) (printed s f) (printed-always s f q)
