-- ===== src/NaiveDate/Weekday.antt =====
-- `weekday` of src/NaiveDate.cpp, with the clock of the C library as a parameter. A `time_t` is counted
-- from a midnight UTC before 1900, so it is no negative number.
pub mod Zones
mod Checks
use brenlib.Prelude.{
  ℕ, ◌+◌, ◌-◌, ◌/◌, Bool, true, false, Result, ok, err, logic_error, ◌≡◌, ◌>>=◌, ◌>>◌, fcet,
}
use brenlib.Prelude.Int.{ℤ, pos, negsuc}
use brenlib.NaiveDate.{NaiveDate, valid}

-- std::tm
pub record Tm : Type 0 where
  pub tm_year : ℕ
  pub tm_mon : ℕ
  pub tm_mday : ℕ
  pub tm_hour : ℕ
  pub tm_min : ℕ
  pub tm_sec : ℕ
  pub tm_isdst : ℤ
  pub tm_wday : ℕ

-- std::mktime and std::gmtime
pub record Clock : Type 0 where
  pub mktime : Tm → ℕ
  pub gmtime : ℕ → Tm

-- `bdt`
unfoldable pub noon : NaiveDate → Tm
noon d = record {
  tm_year = d.year_ - 1900;
  tm_mon = d.month_ - 1;
  tm_mday = d.day_;
  tm_hour = 12;
  tm_min = 0;
  tm_sec = 0;
  tm_isdst = negsuc 0;
  tm_wday = 0;
}

-- `weekday`
pub weekday : Clock → NaiveDate → Result ℕ
unfolding noon
weekday clock d = do fcet (valid d) logic_error; ok ((clock.gmtime (clock.mktime (noon d))).tm_wday)
