-- ===== src/NaiveTime/Parsing.antt =====
-- Reading and writing times, in src/NaiveTime.cpp.
use brenlib.Prelude.{ℕ, ◌/◌, ◌≤◌, true, ◌≡◌, ok, ◌>>=◌, ◌∷◌, [], arith, some}
use brenlib.Prelude.Text.{Text}
use brenlib.Prelude.Text.Decimal.{digit, format_two, stoi_two}
use brenlib.NaiveTime.{NaiveTime, valid, assign, to_text, match_time, match_minutes}

abbrev written : NaiveTime → Text
written t = digit (t.hour_ / 10) ∷ digit t.hour_ ∷ b':' ∷ digit (t.min_ / 10) ∷ digit t.min_ ∷ []

to_text-written : (t : NaiveTime) → valid t ≡ true → to_text t ≡ ok (written t)
unfolding to_text valid
to_text-written t v =
    ground (arith, format_two t.hour_ (ground arith), format_two t.min_ (ground arith))

match_minutes-digits :
    (m : ℕ)
    → m ≤ 59
    → match_minutes (digit (m / 10) ∷ digit m ∷ []) ≡ some (digit (m / 10) ∷ digit m ∷ [])
unfolding match_minutes
match_minutes-digits m h = ground arith

match_time-written :
    (t : NaiveTime)
    → valid t ≡ true
    → match_time (written t)
      ≡ some (digit (t.hour_ / 10) ∷ digit t.hour_ ∷ [], digit (t.min_ / 10) ∷ digit t.min_ ∷ [])
unfolding match_time valid
match_time-written t v = ground (arith, match_minutes-digits t.min_ (ground arith))

-- A time that is written can be read into any object, and is the same time.
pub assign-to_text : (t u : NaiveTime) → valid t ≡ true → (to_text t >>= assign u) ≡ ok t
unfolding assign valid
assign-to_text t u v = rw (to_text-written t v) (
    ground (
      arith,
      match_time-written t v,
      stoi_two t.hour_ (ground arith),
      stoi_two t.min_ (ground arith),
    ))

-- Whatever text is read, the object is valid afterwards.
pub assign-valid : (t u : NaiveTime) (s : Text) → assign t s ≡ ok u → valid u ≡ true
unfolding assign valid
assign-valid t u s e = ground arith
