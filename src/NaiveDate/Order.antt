-- ===== src/NaiveDate/Order.antt =====
-- The six comparison operators of src/NaiveDate.cpp.
use brenlib.Prelude.{ℕ, ◌+◌, ◌*◌, true, not, ltb, leb, ◌==◌, ◌≡◌, ok, arith, ◌≤◌}
use brenlib.NaiveDate.{NaiveDate, days_of, days, valid, lt, le, eq, ne, ge, gt}

-- One number that orders valid dates: fewer than 13 months a year, fewer than 32 days a month.
abbrev pub rank : NaiveDate → ℕ
rank t = (t.year_ * 13 + t.month_) * 32 + t.day_

pub record InRange (t : NaiveDate) : Type 0 where
  pub year_lo : 1900 ≤ t.year_
  pub month_lo : 1 ≤ t.month_
  pub month_hi : t.month_ ≤ 12
  pub day_lo : 1 ≤ t.day_
  pub day_hi : t.day_ ≤ 31

days_of-le : (y m : ℕ) → days_of y m ≤ 31
unfolding days_of
days_of-le y m = ground arith

pub valid-InRange : (t : NaiveDate) → valid t ≡ true → InRange t
unfolding valid days
valid-InRange t h = ground (arith, days_of-le t.year_ t.month_)

-- The six answers that an order by the number `rank` gives.
pub record Answers (a b : NaiveDate) : Type 0 where
  pub lt_is : lt a b ≡ ok (ltb (rank a) (rank b))
  pub le_is : le a b ≡ ok (leb (rank a) (rank b))
  pub eq_is : eq a b ≡ ok (rank a == rank b)
  pub ne_is : ne a b ≡ ok (not (rank a == rank b))
  pub ge_is : ge a b ≡ ok (leb (rank b) (rank a))
  pub gt_is : gt a b ≡ ok (ltb (rank b) (rank a))

module _ (a b : NaiveDate) (va : valid a ≡ true) (vb : valid b ≡ true) where
  lt-rank : lt a b ≡ ok (ltb (rank a) (rank b))
  unfolding lt
  lt-rank = ground (arith, valid-InRange a va, valid-InRange b vb)

  le-rank : le a b ≡ ok (leb (rank a) (rank b))
  unfolding le
  le-rank = ground (arith, valid-InRange a va, valid-InRange b vb)

  eq-rank : eq a b ≡ ok (rank a == rank b)
  unfolding eq
  eq-rank = ground (arith, valid-InRange a va, valid-InRange b vb)

  ne-rank : ne a b ≡ ok (not (rank a == rank b))
  unfolding ne
  ne-rank = ground (arith, valid-InRange a va, valid-InRange b vb)

  ge-rank : ge a b ≡ ok (leb (rank b) (rank a))
  unfolding ge
  ge-rank = ground (arith, valid-InRange a va, valid-InRange b vb)

  gt-rank : gt a b ≡ ok (ltb (rank b) (rank a))
  unfolding gt
  gt-rank = ground (arith, valid-InRange a va, valid-InRange b vb)

-- On two valid dates none of the six operators throws, and all six answer by the order of one
-- number, that of (year, month, day) read as digits.
pub comparisons-rank : (a b : NaiveDate) → valid a ≡ true → valid b ≡ true → Answers a b
comparisons-rank a b va vb = record {
  lt_is = lt-rank a b va vb;
  le_is = le-rank a b va vb;
  eq_is = eq-rank a b va vb;
  ne_is = ne-rank a b va vb;
  ge_is = ge-rank a b va vb;
  gt_is = gt-rank a b va vb;
}
