-- ===== src/NaiveTime.antt =====
-- src/NaiveTime.cpp and hdr/bren/NaiveTime.hpp: a time of day, its fields 255 when not set.
pub mod Minutes
pub mod Parsing
mod Checks
mod Tests
use brenlib.Prelude.{
  ℕ, ◌+◌, ◌*◌, ◌/◌, ◌%◌, Bool, true, false, ◌&&◌, ◌||◌, ltb, leb, ◌==◌, if◌then◌else◌, length, List,
  [], ◌++◌, ◌∷◌, Option, none, some, Result, ok, err, Error, invalid_argument, logic_error,
  overflow_error, runtime_error, ◌>>=◌, ◌>>◌, fcet,
}
use brenlib.Prelude.Int.{ℤ, pos, pos_part, sub_ℕ, leb_ℤ}
use brenlib.Prelude.Text.{Text, stoi, format_padded, is_digit}

pub record NaiveTime : Type 0 where
  pub hour_ : ℕ
  pub min_ : ℕ

abbrev pub time : ℕ → ℕ → NaiveTime
time h m = record { hour_ = h; min_ = m }

abbrev pub unset : NaiveTime
unset = time 0xff 0xff

pub valid : NaiveTime → Bool
valid t = leb t.hour_ 23 && leb t.min_ 59

pub hour : NaiveTime → Result ℕ
hour t = do fcet (leb t.hour_ 23) logic_error; ok t.hour_

pub set_hour : NaiveTime → ℕ → Result NaiveTime
set_hour t h = do fcet (leb h 23) invalid_argument; ok (record t { hour_ = h })

pub minute : NaiveTime → Result ℕ
minute t = do fcet (leb t.min_ 59) logic_error; ok t.min_

pub set_minute : NaiveTime → ℕ → Result NaiveTime
set_minute t m = do fcet (leb m 59) invalid_argument; ok (record t { min_ = m })

pub reset : NaiveTime → NaiveTime
reset t = record t { hour_ = 0xff; min_ = 0xff }

-- The two throws that begin every binary operator.
abbrev pub both_valid : NaiveTime → NaiveTime → Result (Unit {0})
both_valid a b = do fcet (valid a) logic_error; fcet (valid b) invalid_argument

-- `operator-`
pub minus : NaiveTime → NaiveTime → Result ℤ
minus a b = do both_valid a b; ok (sub_ℕ (a.hour_ * 60 + a.min_) (b.hour_ * 60 + b.min_))

-- The part of `operator+=` from `std::div` on.
abbrev store_minutes : NaiveTime → ℕ → Result NaiveTime
store_minutes t total =
    if ltb 23 (total / 60)
    then err overflow_error
    else ok (record t { hour_ = total / 60; min_ = total % 60 })

-- `operator+=`
pub add_minutes : NaiveTime → ℕ → Result NaiveTime
add_minutes t n = do
  fcet (valid t) logic_error
  if n == 0 then ok t else store_minutes t (t.hour_ * 60 + t.min_ + n)

pub lt : NaiveTime → NaiveTime → Result Bool
lt a b = do both_valid a b; ok (ltb a.hour_ b.hour_ || ((a.hour_ == b.hour_) && ltb a.min_ b.min_))

pub le : NaiveTime → NaiveTime → Result Bool
le a b = do both_valid a b; ok (ltb a.hour_ b.hour_ || ((a.hour_ == b.hour_) && leb a.min_ b.min_))

pub gt : NaiveTime → NaiveTime → Result Bool
gt a b = do both_valid a b; ok (ltb b.hour_ a.hour_ || ((a.hour_ == b.hour_) && ltb b.min_ a.min_))

pub ge : NaiveTime → NaiveTime → Result Bool
ge a b = do both_valid a b; ok (ltb b.hour_ a.hour_ || ((a.hour_ == b.hour_) && leb b.min_ a.min_))

pub eq : NaiveTime → NaiveTime → Result Bool
eq a b = do both_valid a b; ok ((a.hour_ == b.hour_) && (a.min_ == b.min_))

-- The second group of the regular expression, ([0-5]?[0-9])$.
pub match_minutes : Text → Option Text
match_minutes [] = none
match_minutes (m ∷ []) = if is_digit m then some (m ∷ []) else none
match_minutes (m ∷ n ∷ []) =
    if leb b'0' m && (leb m b'5' && is_digit n) then some (m ∷ n ∷ []) else none
match_minutes (m ∷ n ∷ o ∷ rest) = none

abbrev pub groups : Text → Option Text → Option (Text × Text)
groups h none = none
groups h (some m) = some (h, m)

-- The whole expression, ^([012]?[0-9]):([0-5]?[0-9])$. The colon decides how long the hour is.
pub match_time : Text → Option (Text × Text)
match_time [] = none
match_time (h ∷ []) = none
match_time (h ∷ c ∷ []) = none
match_time (h ∷ c ∷ d ∷ rest) =
    if (c == b':') && is_digit h
    then groups (h ∷ []) (match_minutes (d ∷ rest))
    else if leb b'0' h && (leb h b'2' && (is_digit c && (d == b':')))
    then groups (h ∷ c ∷ []) (match_minutes rest)
    else none

abbrev or_throw : Option (Text × Text) → Result (Text × Text)
or_throw none = err invalid_argument
or_throw (some p) = ok p

-- `operator=(const std::string &)`: only a whole match is stored.
pub assign : NaiveTime → Text → Result NaiveTime
assign t s = do
  fcet (leb 3 (length s) && leb (length s) 5) invalid_argument
  found ← or_throw (match_time s)
  hour ← stoi found.0
  min ← stoi found.1
  fcet (leb_ℤ hour (pos 23) && leb_ℤ min (pos 59)) invalid_argument
  ok (record t { hour_ = pos_part hour; min_ = pos_part min })

-- `operator std::string()`
pub to_text : NaiveTime → Result Text
to_text t = do
  fcet (valid t) logic_error
  ok (format_padded 2 t.hour_ ++ (b':' ∷ format_padded 2 t.min_))
