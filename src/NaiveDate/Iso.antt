-- ===== src/NaiveDate/Iso.antt =====
-- Reading and writing dates, in src/NaiveDate.cpp.
use brenlib.Prelude.{ℕ, ◌/◌, ◌≤◌, true, ◌≡◌, refl, ok, ◌>>=◌, ◌∷◌, [], arith}
use brenlib.Prelude.Text.{Text}
use brenlib.Prelude.Text.Decimal.{digit, format_two, format_four, stoi_two, stoi_four}
use brenlib.NaiveDate.{NaiveDate, valid, initialized, parse_iso8601, format_iso8601}
use brenlib.NaiveDate.Order.{InRange, valid-InRange}

-- What `iso8601` reads is a valid date.
pub parse_iso8601-valid : (s : Text) (t : NaiveDate) → parse_iso8601 s ≡ ok t → valid t ≡ true
unfolding parse_iso8601 valid
parse_iso8601-valid s t h = ground arith

-- The characters at the places of the two dashes are never read.
pub parse_iso8601-separators :
    (a b c d e f g h x y x' y' : ℕ)
    → parse_iso8601 (a ∷ b ∷ c ∷ d ∷ x ∷ e ∷ f ∷ y ∷ g ∷ h ∷ [])
      ≡ parse_iso8601 (a ∷ b ∷ c ∷ d ∷ x' ∷ e ∷ f ∷ y' ∷ g ∷ h ∷ [])
unfolding parse_iso8601
parse_iso8601-separators a b c d e f g h x y x' y' = refl

abbrev written : NaiveDate → Text
written t =
    digit (t.year_ / 10 / 10 / 10)
    ∷ digit (t.year_ / 10 / 10)
    ∷ digit (t.year_ / 10)
    ∷ digit t.year_
    ∷ b'-'
    ∷ digit (t.month_ / 10)
    ∷ digit t.month_
    ∷ b'-'
    ∷ digit (t.day_ / 10)
    ∷ digit t.day_
    ∷ []

format_iso8601-written :
    (t : NaiveDate) → InRange t → t.year_ ≤ 9999 → format_iso8601 t ≡ ok (written t)
unfolding format_iso8601 initialized
format_iso8601-written t r h = ground (
  arith,
  format_four t.year_ (omega arith) (omega arith),
  format_two t.month_ (omega arith),
  format_two t.day_ (omega arith),
)

parse_iso8601-written :
    (t : NaiveDate) → InRange t → valid t ≡ true → t.year_ ≤ 9999 → parse_iso8601 (written t) ≡ ok t
unfolding parse_iso8601 valid
parse_iso8601-written t r v h = ground (
  arith,
  stoi_four t.year_ (omega arith),
  stoi_two t.month_ (omega arith),
  stoi_two t.day_ (omega arith),
)

-- A valid date of a year of four digits is written, and read back as it was.
pub parse_iso8601-format_iso8601 :
    (t : NaiveDate) → valid t ≡ true → t.year_ ≤ 9999 → (format_iso8601 t >>= parse_iso8601) ≡ ok t
parse_iso8601-format_iso8601 t v h =
    let r = valid-InRange t v in rw (format_iso8601-written t r h) (parse_iso8601-written t r v h)
