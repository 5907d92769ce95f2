-- ===== src/NaiveDate.antt =====
-- src/NaiveDate.cpp and hdr/bren/NaiveDate.hpp: a date as three fields, 0 when not set.
-- A method returns its result or the exception that it throws; a setter returns the new date.
pub mod Order
pub mod Calendar
pub mod Iso
pub mod Weekday
mod Tests
use brenlib.Prelude.{
  ℕ, ◌+◌, ◌%◌, Bool, true, false, not, ◌&&◌, ◌||◌, ltb, leb, ◌==◌, if◌then◌else◌, take, drop,
  length, ◌++◌, ◌∷◌, Result, ok, err, Error, invalid_argument, logic_error, ◌>>=◌, ◌>>◌, fcet,
}
use brenlib.Prelude.Int.{pos, pos_part, leb_ℤ}
use brenlib.Prelude.Text.{Text, stoi, format_padded}

pub record NaiveDate : Type 0 where
  pub day_ : ℕ
  pub month_ : ℕ
  pub year_ : ℕ

abbrev pub date : ℕ → ℕ → ℕ → NaiveDate
date y m d = record { day_ = d; month_ = m; year_ = y }

abbrev pub unset : NaiveDate
unset = date 0 0 0

-- A number as a condition.
abbrev pub nonzero : ℕ → Bool
nonzero n = not (n == 0)

pub initialized : NaiveDate → Bool
initialized t = nonzero t.day_ && (nonzero t.month_ && nonzero t.year_)

pub is_leap : ℕ → Bool
is_leap y = if y % 400 == 0 then true else if y % 100 == 0 then false else y % 4 == 0

-- The switch of `days`.
pub days_of : ℕ → ℕ → ℕ
days_of y m =
    if m == 2
    then (if is_leap y then 29 else 28)
    else if (m == 4) || ((m == 6) || ((m == 5) || ((m == 9) || (m == 11))))
    then 30
    else 31

pub days : ℕ → ℕ → Result ℕ
days y m = do fcet (ltb 0 m && leb m 12) invalid_argument; ok (days_of y m)

-- `days` is called for a month in range only, so its exception is not passed on.
abbrev at_most : ℕ → Result ℕ → Bool
at_most d (ok n) = leb d n
at_most d (err e) = false

pub valid_parts : ℕ → ℕ → ℕ → Bool
valid_parts y m d =
    if ltb y 1900 || (ltb m 1 || (ltb 12 m || d == 0)) then false else at_most d (days y m)

pub valid : NaiveDate → Bool
unfolding valid_parts
valid t = valid_parts t.year_ t.month_ t.day_

pub get_day : NaiveDate → Result ℕ
get_day t = do fcet (nonzero t.day_) logic_error; ok t.day_

pub get_month : NaiveDate → Result ℕ
get_month t = do fcet (nonzero t.month_) logic_error; ok t.month_

pub get_year : NaiveDate → Result ℕ
get_year t = do fcet (nonzero t.year_) logic_error; ok t.year_

pub leap : NaiveDate → Result Bool
leap t = do fcet (nonzero t.year_) logic_error; ok (is_leap t.year_)

pub set_day : NaiveDate → ℕ → Result NaiveDate
set_day t d = do fcet (leb 1 d && leb d 31) invalid_argument; ok (record t { day_ = d })

pub set_month : NaiveDate → ℕ → Result NaiveDate
set_month t m = do fcet (leb 1 m && leb m 12) invalid_argument; ok (record t { month_ = m })

pub set_year : NaiveDate → ℕ → Result NaiveDate
set_year t y = do fcet (leb 1900 y) invalid_argument; ok (record t { year_ = y })

pub reset : NaiveDate → NaiveDate
reset t = record t { year_ = 0; month_ = 0; day_ = 0 }

-- std::string::substr(pos, len) at a position within the text.
abbrev pub substr : ℕ → ℕ → Text → Text
substr p n s = take n (drop p s)

-- `iso8601(date_i)`: the old date is not read. Each number fits its field once it is checked.
pub parse_iso8601 : Text → Result NaiveDate
parse_iso8601 s = do
  fcet (length s == 10) invalid_argument
  year ← stoi (substr 0 4 s)
  fcet (leb_ℤ (pos 1900) year && leb_ℤ year (pos 65535)) invalid_argument
  mon ← stoi (substr 5 2 s)
  fcet (leb_ℤ (pos 1) mon && leb_ℤ mon (pos 12)) invalid_argument
  day ← stoi (substr 8 2 s)
  fcet (leb_ℤ (pos 1) day && leb_ℤ day (pos 31)) invalid_argument
  fcet (valid_parts (pos_part year) (pos_part mon) (pos_part day)) invalid_argument
  ok (date (pos_part year) (pos_part mon) (pos_part day))

-- `iso8601()`
pub format_iso8601 : NaiveDate → Result Text
format_iso8601 t = do
  fcet (initialized t) logic_error
  ok (
      format_padded 4 t.year_
      ++ (b'-' ∷ (format_padded 2 t.month_ ++ (b'-' ∷ format_padded 2 t.day_))))

abbrev comparable : NaiveDate → NaiveDate → Bool
comparable a b = valid a && valid b

abbrev pub comparison : (NaiveDate → NaiveDate → Bool) → NaiveDate → NaiveDate → Result Bool
comparison test a b = do fcet (comparable a b) invalid_argument; ok (test a b)

pub lt : NaiveDate → NaiveDate → Result Bool
lt = comparison λ a b.
    ltb a.year_ b.year_
    || (((a.year_ == b.year_) && ltb a.month_ b.month_)
        || ((a.year_ == b.year_) && ((a.month_ == b.month_) && ltb a.day_ b.day_)))

pub le : NaiveDate → NaiveDate → Result Bool
le = comparison λ a b.
    ltb a.year_ b.year_
    || (((a.year_ == b.year_) && ltb a.month_ b.month_)
        || ((a.year_ == b.year_) && ((a.month_ == b.month_) && leb a.day_ b.day_)))

pub eq : NaiveDate → NaiveDate → Result Bool
eq = comparison λ a b. (a.year_ == b.year_) && ((a.month_ == b.month_) && (a.day_ == b.day_))

pub ne : NaiveDate → NaiveDate → Result Bool
ne =
    comparison
      λ a b. not (a.year_ == b.year_) || (not (a.month_ == b.month_) || not (a.day_ == b.day_))

pub ge : NaiveDate → NaiveDate → Result Bool
ge = comparison λ a b.
    ltb b.year_ a.year_
    || (((a.year_ == b.year_) && ltb b.month_ a.month_)
        || ((a.year_ == b.year_) && ((a.month_ == b.month_) && leb b.day_ a.day_)))

pub gt : NaiveDate → NaiveDate → Result Bool
gt = comparison λ a b.
    ltb b.year_ a.year_
    || (((a.year_ == b.year_) && ltb b.month_ a.month_)
        || ((a.year_ == b.year_) && ((a.month_ == b.month_) && ltb b.day_ a.day_)))

-- `today()`, from the year since 1900, the month from 0 and the day that `localtime` gives.
pub today : ℕ → ℕ → ℕ → Result NaiveDate
unfolding set_day set_month set_year
today tm_year tm_mon tm_mday = do
  t ← set_year unset ((tm_year + 1900) % 65536)
  u ← set_month t ((tm_mon + 1) % 256)
  set_day u (tm_mday % 256)
