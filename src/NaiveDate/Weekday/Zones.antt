-- ===== src/NaiveDate/Weekday/Zones.antt =====
-- The weekday of a date in the time zones of the world.
use brenlib.Prelude.{
  refl, ℕ, ◌+◌, ◌-◌, ◌*◌, ◌/◌, ◌%◌, ◌≤◌, ◌<◌, ltb, leb, true, if◌then◌else◌, ok, ◌≡◌, arith, ap,
  ◌∙◌, Bool-cases, inl, inr,
}
use brenlib.Prelude.Int.{negsuc}
use brenlib.NaiveDate.{NaiveDate, valid}
use brenlib.NaiveDate.Calendar.{leap_year}
use brenlib.NaiveDate.Weekday.{Tm, Clock, noon, weekday}

-- The number of a day in the Gregorian calendar, where Monday, January 1 of the year 1, has 1.
abbrev pub day_number : ℕ → ℕ → ℕ → ℕ
day_number y m d =
    365 * (y - 1)
    + (y - 1) / 4
    - (y - 1) / 100
    + (y - 1) / 400
    + ((367 * m - 362) / 12 - (if leb m 2 then 0 else if leap_year y then 1 else 2))
    + d

-- The seconds of a local time since the day 0.
abbrev pub local_seconds : Tm → ℕ
local_seconds tm =
    day_number (tm.tm_year + 1900) (tm.tm_mon + 1) tm.tm_mday * 86400
    + (tm.tm_hour * 3600 + tm.tm_min * 60 + tm.tm_sec)

-- What is documented of the C library, in a zone that is so many seconds east or west of UTC when it is
-- that local time, where a `time_t` is counted from the day 0: mktime takes the zone from the local
-- time where `tm_isdst` is negative, and the weekday that gmtime gives is that of the day in UTC, from
-- Sunday.
pub record IsZone (c : Clock) (east west : Tm → ℕ) : Type 0 where
  pub mktime_is :
      (tm : Tm)
      → tm.tm_mon < 12
      → 1 ≤ tm.tm_mday
      → tm.tm_isdst ≡ negsuc 0
      → c.mktime tm + east tm ≡ local_seconds tm + west tm
  pub gmtime_is : (t : ℕ) → (c.gmtime t).tm_wday ≡ t / 86400 % 7
  pub east_bound : (tm : Tm) → east tm ≤ 86400
  pub west_bound : (tm : Tm) → west tm < 43200

weekday-valid :
    (c : Clock) (d : NaiveDate)
    → valid d ≡ true
    → weekday c d ≡ ok ((c.gmtime (c.mktime (noon d))).tm_wday)
unfolding weekday
weekday-valid c d v = ground (arith, v)

-- The day in UTC at noon in a zone.
day_at_noon :
    (t n east west : ℕ)
    → t + east ≡ n * 86400 + 43200 + west
    → west < 43200
    → east ≤ 86400
    → 1 ≤ n
    → t / 86400 ≡ (if ltb (43200 + west) east then n - 1 else n)
day_at_noon t n east west e w h p = elim (Bool-cases (ltb (43200 + west) east)) [
  | inl b ↦ rw b (let late : 43200 + west < east = ground arith in omega arith)
  | inr b ↦ rw b (let early : east ≤ 43200 + west = ground arith in omega arith)
]

valid-bounds :
    (d : NaiveDate)
    → valid d ≡ true
    → (1900 ≤ d.year_) × (1 ≤ d.month_) × (d.month_ ≤ 12) × (1 ≤ d.day_)
unfolding valid
valid-bounds d v = ground arith

-- Noon of a date by the fields of a Tm.
local_seconds-noon :
    (d : NaiveDate)
    → valid d ≡ true
    → local_seconds (noon d) ≡ day_number d.year_ d.month_ d.day_ * 86400 + 43200
unfolding noon
local_seconds-noon d v =
    let (y, m, m', k) = valid-bounds d v in
    let year : d.year_ - 1900 + 1900 ≡ d.year_ = omega (arith, y) in
    let month : d.month_ - 1 + 1 ≡ d.month_ = omega (arith, m) in rw (year, month) (omega arith)

noon_month : (d : NaiveDate) → valid d ≡ true → (noon d).tm_mon < 12
unfolding noon
noon_month d v = omega (arith, (valid-bounds d v).1, (valid-bounds d v).2)

noon_isdst : (d : NaiveDate) → (noon d).tm_isdst ≡ negsuc 0
unfolding noon
noon_isdst d = refl

noon_day : (d : NaiveDate) → valid d ≡ true → 1 ≤ (noon d).tm_mday
unfolding noon
noon_day d v = (valid-bounds d v).3

mktime-noon :
    (c : Clock) (east west : Tm → ℕ) (d : NaiveDate)
    → IsZone c east west
    → valid d ≡ true
    → c.mktime (noon d) + east (noon d)
      ≡ day_number d.year_ d.month_ d.day_ * 86400 + 43200 + west (noon d)
mktime-noon c east west d z v =
    z.mktime_is (noon d) (noon_month d v) (noon_day d v) (noon_isdst d)
    ∙ ap (λ s. s + west (noon d)) (local_seconds-noon d v)

-- `weekday` gives the weekday of a date, from Sunday as 0, in a zone that is at most 12 hours east of
-- UTC at noon of that date; further east it gives the weekday of the day before.
pub weekday-day_number :
    (c : Clock) (east west : Tm → ℕ) (d : NaiveDate)
    → IsZone c east west
    → valid d ≡ true
    → weekday c d
      ≡ ok (
          (if ltb (43200 + west (noon d)) (east (noon d))
            then day_number d.year_ d.month_ d.day_ - 1
            else day_number d.year_ d.month_ d.day_)
          % 7)
weekday-day_number c east west d z v =
    let (y, m, m', k) = valid-bounds d v in
    let n = day_number d.year_ d.month_ d.day_ in
    weekday-valid c d v
    ∙ ap ok (
        z.gmtime_is (c.mktime (noon d))
        ∙ ap (λ day. day % 7)
            (day_at_noon (c.mktime (noon d)) n (east (noon d)) (west (noon d))
              (mktime-noon c east west d z v) (z.west_bound (noon d)) (z.east_bound (noon d))
              (omega (arith, k))))
