-- ===== src/Timespec/Nanos.antt =====
-- The operators of src/timespecops.cpp against the time as one number of nanoseconds.
use brenlib.Prelude.{◌+◌, ◌*◌, ◌<◌, true, ◌≡◌, arith, ap, ◌∙◌}
use brenlib.Prelude.Int.{ℤ, pos_part, neg_part, sub_ℕ, ltb_ℤ, leb_ℤ, ◌==ℤ◌, ◌+ℤ◌, ◌-ℤ◌}
use brenlib.Timespec.{Timespec, lt, le, eq, gt, ge, ne, minus, plus}

abbrev pub IsNormal : Timespec → Type 0
IsNormal t = t.tv_nsec < 1000000000

abbrev pub nanos : Timespec → ℤ
nanos t = sub_ℕ (pos_part t.tv_sec * 1000000000 + t.tv_nsec) (neg_part t.tv_sec * 1000000000)

plus-nanos :
    (a b : Timespec)
    → IsNormal a
    → IsNormal b
    → IsNormal (plus a b) × (nanos (plus a b) ≡ nanos a +ℤ nanos b)
unfolding plus
plus-nanos a b ha hb = ground arith

minus-nanos :
    (a b : Timespec)
    → IsNormal a
    → IsNormal b
    → IsNormal (minus a b) × (nanos (minus a b) ≡ nanos a -ℤ nanos b)
unfolding minus
minus-nanos a b ha hb = ground arith

-- A sum and a difference of normal times are normal, a second carried or borrowed where it must be, and
-- their nanoseconds are the sum and the difference.
pub plus-minus-nanos :
    (a b : Timespec)
    → IsNormal a
    → IsNormal b
    → IsNormal (plus a b)
      × (nanos (plus a b) ≡ nanos a +ℤ nanos b)
      × IsNormal (minus a b)
      × (nanos (minus a b) ≡ nanos a -ℤ nanos b)
plus-minus-nanos a b ha hb =
    let (normal, sum) = plus-nanos a b ha hb in
    let (normal', diff) = minus-nanos a b ha hb in (normal, sum, normal', diff)

nanos_inj : (a b : Timespec) → IsNormal a → IsNormal b → nanos a ≡ nanos b → a ≡ b
nanos_inj a b ha hb e = ground arith

+ℤ-cancel : (a b : ℤ) → a +ℤ b -ℤ b ≡ a
+ℤ-cancel a b = ground arith

-- Taking away what was added gives the time back.
pub minus-plus : (a b : Timespec) → IsNormal a → IsNormal b → minus (plus a b) b ≡ a
minus-plus a b ha hb =
    let (normal, sum) = plus-nanos a b ha hb in
    let (normal', diff) = minus-nanos (plus a b) b normal hb in
    nanos_inj _ a normal' ha (diff ∙ (ap (λ z. z -ℤ nanos b) sum ∙ +ℤ-cancel (nanos a) (nanos b)))

-- On normal times `<`, `<=` and `==` compare the nanoseconds.
pub lt-le-eq-nanos :
    (a b : Timespec)
    → IsNormal a
    → IsNormal b
    → (lt a b ≡ ltb_ℤ (nanos a) (nanos b))
      × (le a b ≡ leb_ℤ (nanos a) (nanos b))
      × (eq a b ≡ (nanos a ==ℤ nanos b))
unfolding le
lt-le-eq-nanos a b ha hb = (ground arith, ground arith, ground arith)

-- `>`, `>=` and `!=` are true of any two times: `~` of a `bool` is never 0.
pub gt-ge-ne_always : (a b : Timespec) → (gt a b ≡ true) × (ge a b ≡ true) × (ne a b ≡ true)
unfolding gt ge ne
gt-ge-ne_always a b = (ground arith, ground arith, ground arith)
