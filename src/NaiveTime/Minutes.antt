-- ===== src/NaiveTime/Minutes.antt =====
-- The arithmetic and the comparisons of src/NaiveTime.cpp, by the minutes since midnight.
use brenlib.Prelude.{
  ℕ, ◌+◌, ◌*◌, ◌/◌, ◌%◌, true, false, ltb, leb, ◌==◌, if◌then◌else◌, ◌&&◌, ◌≡◌, ok, err,
  logic_error, invalid_argument, overflow_error, arith,
}
use brenlib.Prelude.Int.{pos, sub_ℕ}
use brenlib.NaiveTime.{NaiveTime, time, valid, minus, add_minutes, lt, le, gt, ge, eq}

abbrev pub minutes : NaiveTime → ℕ
minutes t = t.hour_ * 60 + t.min_

-- The time of day that many minutes after midnight.
abbrev pub at_minute : ℕ → NaiveTime
at_minute n = time (n / 60) (n % 60)

-- Adding n minutes to a valid time goes n minutes on, and throws exactly if that is past 23:59.
pub add_minutes-minutes :
    (t : NaiveTime) (n : ℕ)
    → valid t ≡ true
    → add_minutes t n
      ≡ (if ltb (minutes t + n) 1440 then ok (at_minute (minutes t + n)) else err overflow_error)
unfolding valid add_minutes
add_minutes-minutes t n v = ground arith

-- What `operator+=` adds, `operator-` gives back; the new time is valid again.
pub minus-add_minutes :
    (t u : NaiveTime) (n : ℕ) → add_minutes t n ≡ ok u → (valid u ≡ true) × (minus u t ≡ ok (pos n))
unfolding valid add_minutes minus
minus-add_minutes t u n e = ground arith

pub record Answers (a b : NaiveTime) : Type 0 where
  pub lt_is : lt a b ≡ ok (ltb (minutes a) (minutes b))
  pub le_is : le a b ≡ ok (leb (minutes a) (minutes b))
  pub gt_is : gt a b ≡ ok (ltb (minutes b) (minutes a))
  pub ge_is : ge a b ≡ ok (leb (minutes b) (minutes a))
  pub eq_is : eq a b ≡ ok (minutes a == minutes b)
  pub minus_is : minus a b ≡ ok (sub_ℕ (minutes a) (minutes b))

-- On valid times the five comparisons and the difference are those of the minutes since midnight.
pub comparisons-minutes : (a b : NaiveTime) → valid a ≡ true → valid b ≡ true → Answers a b
unfolding valid lt le gt ge eq minus
comparisons-minutes a b va vb = record {
  lt_is = ground arith;
  le_is = ground arith;
  gt_is = ground arith;
  ge_is = ground arith;
  eq_is = ground arith;
  minus_is = ground arith;
}

-- Which exception an invalid operand gives: `logic_error` for the left one, which is tested first.
pub comparisons_throw :
    (a b : NaiveTime)
    → (valid a && valid b) ≡ false
    → lt a b ≡ err (if valid a then invalid_argument else logic_error)
unfolding lt
comparisons_throw a b h = ground arith
