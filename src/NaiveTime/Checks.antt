-- ===== src/NaiveTime/Checks.antt =====
-- The unit test of src/NaiveTime.cpp, chk/naivetime.cpp.
use brenlib.Prelude.{ℕ, Result, ok, ◌>>=◌, ◌>>◌, ◌≡◌, refl}
use brenlib.Prelude.Text.{Text, text_eq, codes}
use brenlib.Prelude.Asserts.{assert}
use brenlib.NaiveTime.{NaiveTime, unset, set_hour, set_minute, add_minutes, to_text}

-- `nt += n`, and the assertion behind it.
abbrev adds : ℕ → Text → NaiveTime → Result NaiveTime
adds n expected nt = do
  later ← add_minutes nt n
  text ← to_text later
  assert (text_eq expected text)
  ok later

pub check_addmins : Result NaiveTime
check_addmins = do
  hour_set ← set_hour unset 0
  midnight ← set_minute hour_set 0
  a ← adds 0 (codes "00:00") midnight
  b ← adds 10 (codes "00:10") a
  c ← adds 35 (codes "00:45") b
  d ← adds 15 (codes "01:00") c
  e ← adds 60 (codes "02:00") d
  f ← adds 180 (codes "05:00") e
  g ← adds 30 (codes "05:30") f
  h ← adds 45 (codes "06:15") g
  adds 95 (codes "07:50") h

check_addmins_passes : check_addmins ≡ ok (record { hour_ = 7; min_ = 50 })
unfolding check_addmins set_hour set_minute add_minutes brenlib.NaiveTime.valid to_text
    brenlib.Prelude.Text.format_padded
check_addmins_passes = refl
