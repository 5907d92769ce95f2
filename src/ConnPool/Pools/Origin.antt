-- ===== src/ConnPool/Pools/Origin.antt =====
-- Where the connections of hdr/bren/ConnPool.hpp are after `get`, and where they were.
use brenlib.Prelude.{
  ℕ, Bool, true, false, ◌==◌, none, some, Result, ok, err, ◌>>=◌, ◌≡◌, ◌≢◌, ◌⊎◌, arith, inl, inr,
  Option-cases, Bool-cases, subst, sym, ap, ◌∙◌, ==_iff,
}
use brenlib.Prelude.Text.{Text, text_eq}
use brenlib.Prelude.Maps.{
  lookup, insert, erase, text_key, nat_key, text_eq_iff, lookup-insert, lookup-erase,
}
use brenlib.ConnPool.{ConnMap, Pool, assign, find_free, get_in}
use brenlib.ConnPool.Ownership.{
  has_conn, IsExclusive, find_free-some, lookup-has_conn, has_conn-erase, has_conn-assign,
}
use brenlib.ConnPool.Pools.{pool_of, IsPool, insert-HasKeys, absurd_test, not_true}

-- Where a connection of the map after `assign` comes from.
assign-kept :
    (k c e : ℕ) (cm : ConnMap)
    → lookup k cm ≡ none
    → has_conn e (assign k c cm) ≡ true
    → (e ≡ c) ⊎ (has_conn e cm ≡ true)
assign-kept k c e cm l h = elim (Bool-cases (e == c)) [
  | inl b ↦ inl ((==_iff e c).0 b)
  | inr b ↦ inr (ground (arith, b, h, has_conn-assign k c e cm l))
]

erase-kept : (k e : ℕ) (cm : ConnMap) → has_conn e (erase k cm) ≡ true → has_conn e cm ≡ true
erase-kept k e cm h = elim (Bool-cases (has_conn e cm)) [
  | inl b ↦ b
  | inr b ↦ absurd (absurd_test (has_conn-erase k e cm b) h)
]

abbrev new_entry : ConnMap → ℕ → ℕ → Result (ConnMap × ℕ)
new_entry cm stid d = ok (assign stid d cm, d)

made-kept :
    (cm cm' : ConnMap) (stid c e : ℕ) (made : Result ℕ)
    → lookup stid cm ≡ none
    → (made >>= new_entry cm stid) ≡ ok (cm', c)
    → has_conn e cm' ≡ true
    → (has_conn e cm ≡ true) ⊎ (made ≡ ok e)
made-kept cm cm' stid c e (ok d) l g h =
    let same : assign stid d cm ≡ cm' = cc in
    elim (assign-kept stid d e cm l (subst (λ m. has_conn e m ≡ true) (sym same) h)) [
      | inl b ↦ inr (ap ok (sym b))
      | inr b ↦ inl b
    ]
made-kept cm cm' stid c e (err x) l g h = cc

free-kept :
    (held : ℕ → Bool) (cm : ConnMap) (stid j d e : ℕ)
    → IsExclusive cm
    → lookup stid cm ≡ none
    → find_free held cm ≡ some (j, d)
    → has_conn e (assign stid d (erase j cm)) ≡ true
    → has_conn e cm ≡ true
free-kept held cm stid j d e x l f h =
    let (free, there, gone) = find_free-some held cm j d x f in
    let absent : lookup stid (erase j cm) ≡ none = ground (arith, l, lookup-erase j stid cm) in
    elim (assign-kept stid d e (erase j cm) absent h) [
      | inl b ↦ lookup-has_conn j e cm (subst (λ k. lookup j cm ≡ some k) (sym b) there)
      | inr b ↦ erase-kept j e cm b
    ]

-- The connections after `get` were there before, or one of them was made.
pub get_in-kept :
    (held : ℕ → Bool) (cm cm' : ConnMap) (stid c e : ℕ) (made : Result ℕ)
    → IsExclusive cm
    → get_in held cm stid made ≡ ok (cm', c)
    → has_conn e cm' ≡ true
    → (has_conn e cm ≡ true) ⊎ (made ≡ ok e)
unfolding get_in
get_in-kept held cm cm' stid c e made x g h = elim (Option-cases (lookup stid cm)) [
  | inr (d, l) ↦
      let same : cm ≡ cm' = ground (arith, l, rw (get_in, l) at g) in
      inl (subst (λ m. has_conn e m ≡ true) (sym same) h)
  | inl l ↦ elim (Option-cases (find_free held cm)) [
    | inr ((j, d), f) ↦
        let same : assign stid d (erase j cm) ≡ cm' = ground (arith, rw (get_in, l, f) at g) in
        inl (free-kept held cm stid j d e x l f (subst (λ m. has_conn e m ≡ true) (sym same) h))
    | inl f ↦ made-kept cm cm' stid c e made l (rw (get_in, l, f) at g) h
  ]
]

-- Where the connections come from after the map of one connection string is replaced.
put-origin :
    (params p : Text) (cm : ConnMap) (made : Result ℕ) (pool : Pool) (c : ℕ)
    → ((e : ℕ) → has_conn e cm ≡ true → (has_conn e (pool_of params pool) ≡ true) ⊎ (made ≡ ok e))
    → has_conn c (pool_of p (insert params cm pool)) ≡ true
    → (has_conn c (pool_of p pool) ≡ true) ⊎ ((params ≡ p) × (made ≡ ok c))
put-origin params p cm made pool c kept h = elim (Bool-cases (text_eq params p)) [
  | inl b ↦
      let same = (text_eq_iff params p).0 b in
      elim (kept c (ground (arith, b, h, lookup-insert params p cm pool))) [
        | inl k ↦ inl (subst (λ t. has_conn c (pool_of t pool) ≡ true) same k)
        | inr k ↦ inr (same, k)
      ]
  | inr b ↦ inl (ground (arith, b, h, lookup-insert params p cm pool))
]

put-apart :
    (params p q : Text) (made : Result ℕ) (pool : Pool) (c : ℕ)
    → IsPool pool
    → ((t : Text) (n : ℕ) → made ≡ ok n → has_conn n (pool_of t pool) ≡ false)
    → p ≢ q
    → (has_conn c (pool_of p pool) ≡ true) ⊎ ((params ≡ p) × (made ≡ ok c))
    → (has_conn c (pool_of q pool) ≡ true) ⊎ ((params ≡ q) × (made ≡ ok c))
    → ⊥
put-apart params p q made pool c x fresh n (inl a) (inl b) = absurd_test (x.apart p q c n a) b
put-apart params p q made pool c x fresh n (inl a) (inr b) = absurd_test (fresh p c b.1) a
put-apart params p q made pool c x fresh n (inr a) (inl b) = absurd_test (fresh q c a.1) b
put-apart params p q made pool c x fresh n (inr a) (inr b) = n (sym a.0 ∙ b.0)

-- A pool whose map of one connection string is another one.
pub put-IsPool :
    (params : Text) (cm : ConnMap) (made : Result ℕ) (pool : Pool)
    → IsPool pool
    → ((p : Text) (n : ℕ) → made ≡ ok n → has_conn n (pool_of p pool) ≡ false)
    → IsExclusive cm
    → ((e : ℕ) → has_conn e cm ≡ true → (has_conn e (pool_of params pool) ≡ true) ⊎ (made ≡ ok e))
    → IsPool (insert params cm pool)
put-IsPool params cm made pool x fresh y kept = record {
  keys = insert-HasKeys params cm pool x.keys;
  exclusive = λ p. ground (arith, lookup-insert params p cm pool, x.exclusive p, y);
  apart = λ p q c n h. not_true (has_conn c (pool_of q (insert params cm pool))) (λ k.
      put-apart params p q made pool c x fresh n (put-origin params p cm made pool c kept h)
        (put-origin params q cm made pool c kept k));
}
