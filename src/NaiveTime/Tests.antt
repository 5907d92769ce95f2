-- ===== src/NaiveTime/Tests.antt =====
-- Runs on times of day.
use brenlib.Prelude.{
  Bool, true, false, ltb, leb, ◌==◌, ◌+◌, Result, ok, err, logic_error, invalid_argument,
  overflow_error, ◌≡◌, refl, ◌>>=◌,
}
use brenlib.Prelude.Text.{codes}
use brenlib.NaiveTime.{
  NaiveTime, time, unset, valid, hour, set_hour, minute, set_minute, reset, minus, add_minutes, lt,
  le, gt, ge, eq, assign, to_text,
}
use brenlib.NaiveTime.Minutes.{add_minutes-minutes}
use brenlib.NaiveTime.Parsing.{assign-to_text}

runs :
    (hour (time 9 5) ≡ ok 9)
    × (minute unset ≡ err logic_error)
    × ((set_hour unset 9 >>= λ t. set_minute t 5) ≡ ok (time 9 5))
    × (set_minute unset 60 ≡ err invalid_argument)
    × (reset (time 9 5) ≡ unset)
    × (assign unset (codes "9:5") ≡ ok (time 9 5))
    × (assign unset (codes "24:00") ≡ err invalid_argument)
unfolding hour set_hour minute set_minute reset assign brenlib.NaiveTime.match_time
    brenlib.NaiveTime.match_minutes brenlib.Prelude.Text.stoi
runs = (refl, refl, refl, refl, refl, refl, refl)

morning_valid : valid (time 9 5) ≡ true
unfolding valid
morning_valid = refl

add_minutes-minutes_example : add_minutes (time 9 5) 175 ≡ ok (time 12 0)
add_minutes-minutes_example = add_minutes-minutes (time 9 5) 175 morning_valid

assign-to_text_example : (to_text (time 9 5) >>= assign unset) ≡ ok (time 9 5)
assign-to_text_example = assign-to_text (time 9 5) unset morning_valid
