-- ===== src/NaiveDate/Tests.antt =====
-- Runs on dates.
use brenlib.Prelude.{
  ◌-◌, ◌/◌, ◌%◌, true, ok, err, logic_error, invalid_argument, ◌≡◌, refl, ◌>>=◌, arith, ℕ, leb,
  ◌==◌, ◌&&◌, not,
}
use brenlib.NaiveDate.{
  NaiveDate, date, unset, is_leap, days, valid, get_day, get_month, get_year, leap, set_day,
  set_month, set_year, reset, parse_iso8601, format_iso8601, today,
}
use brenlib.NaiveDate.Weekday.{Tm, Clock, noon, weekday}
use brenlib.NaiveDate.Weekday.Zones.{local_seconds, IsZone, weekday-day_number}
use brenlib.NaiveDate.Order.{Answers, comparisons-rank}
use brenlib.NaiveDate.Calendar.{gregorian, valid-gregorian}
use brenlib.NaiveDate.Iso.{parse_iso8601-format_iso8601}

runs :
    (get_day (date 2024 2 29) ≡ ok 29)
    × (get_month unset ≡ err logic_error)
    × (get_year (date 2024 2 29) ≡ ok 2024)
    × (leap (date 2024 2 29) ≡ ok true)
    × (set_day unset 32 ≡ err invalid_argument)
    × (reset (date 2024 2 29) ≡ unset)
unfolding get_day get_month get_year leap set_day reset is_leap
runs = (refl, refl, refl, refl, refl, refl)

leap_day_valid : valid (date 2024 2 29) ≡ true
unfolding valid days brenlib.NaiveDate.days_of is_leap
leap_day_valid = refl

new_year_valid : valid (date 2025 1 1) ≡ true
unfolding valid days brenlib.NaiveDate.days_of is_leap
new_year_valid = refl

comparisons-rank_example : Answers (date 2024 2 29) (date 2025 1 1)
comparisons-rank_example =
    comparisons-rank (date 2024 2 29) (date 2025 1 1) leap_day_valid new_year_valid

valid-gregorian_example :
    valid (date 2024 2 29)
    ≡ (leb 1900 2024 && (leb 1 29 && (leb 29 (gregorian 2024 2) && not ((2 == 5) && (29 == 31)))))
valid-gregorian_example = valid-gregorian 2024 2 29

parse_iso8601-format_iso8601_example :
    (format_iso8601 (date 2024 2 29) >>= parse_iso8601) ≡ ok (date 2024 2 29)
parse_iso8601-format_iso8601_example =
    parse_iso8601-format_iso8601 (date 2024 2 29) leap_day_valid (omega arith)

-- A zone 13 hours east of UTC.
abbrev east_13 : Tm → ℕ
east_13 tm = 46800

abbrev west_0 : Tm → ℕ
west_0 tm = 0

abbrev clock : Clock
clock = record {
  mktime = λ tm. local_seconds tm - 46800;
  gmtime = λ t. record (noon unset) { tm_wday = t / 86400 % 7 };
}

clock-IsZone : IsZone clock east_13 west_0
clock-IsZone = record {
  mktime_is = λ tm m d i. omega arith;
  gmtime_is = λ t. refl;
  east_bound = λ tm. omega arith;
  west_bound = λ tm. omega arith;
}

-- February 29, 2024 was a Thursday.
weekday-day_number_example : weekday clock (date 2024 2 29) ≡ ok 3
unfolding noon
weekday-day_number_example =
    weekday-day_number clock east_13 west_0 (date 2024 2 29) clock-IsZone leap_day_valid
