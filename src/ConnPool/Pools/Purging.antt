-- ===== src/ConnPool/Pools/Purging.antt =====
-- A purge of the pools of hdr/bren/ConnPool.hpp.
use brenlib.Prelude.{
  ℕ, Bool, true, ◌||◌, if◌then◌else◌, [], ◌∷◌, none, some, ◌≡◌, refl, arith, inl, inr, Option-cases,
  Bool-cases, subst,
}
use brenlib.Prelude.Text.{Text, text_eq}
use brenlib.Prelude.Maps.{lookup, text_key, nat_key, text_eq_iff, lookup-insert, lookup-erase}
use brenlib.ConnPool.{ConnMap, Pool, purge_map, is_empty, purge_all, purge_one, purge}
use brenlib.ConnPool.Ownership.{has_conn, IsExclusive, purge_map-has_conn}
use brenlib.ConnPool.Pools.{
  pool_of, HasKeys, IsPool, insert-HasKeys, erase-HasKeys, absurd_test, not_true,
}

is_empty-none : (cm : ConnMap) → is_empty cm ≡ true → cm ≡ []
is_empty-none [] h = refl
is_empty-none (x ∷ cm) h = cc

pool_of_absent : (p : Text) (pool : Pool) → lookup p pool ≡ none → pool_of p pool ≡ []
pool_of_absent p pool h = rw h refl

purge_all-none :
    (held : ℕ → Bool) (p : Text) (pool : Pool)
    → lookup p pool ≡ none
    → lookup p (purge_all held pool) ≡ none
unfolding purge_all lookup
purge_all-none held p [] h = refl
purge_all-none held p ((q, cm) ∷ pool) h = ground (arith, h, purge_all-none held p pool)

purge_all-HasKeys : (held : ℕ → Bool) (pool : Pool) → HasKeys pool → HasKeys (purge_all held pool)
unfolding purge_all
purge_all-HasKeys held [] h = tt
purge_all-HasKeys held ((q, cm) ∷ pool) h =
    ground (arith, purge_all-HasKeys held pool h.1, purge_all-none held q pool h.0)

-- A purge of all pools purges each.
purge_all-pool_of :
    (held : ℕ → Bool) (p : Text) (pool : Pool)
    → HasKeys pool
    → pool_of p (purge_all held pool) ≡ purge_map held (pool_of p pool)
unfolding purge_all lookup purge_map
purge_all-pool_of held p [] h = refl
purge_all-pool_of held p ((q, cm) ∷ pool) h = elim (Bool-cases (text_eq q p)) [
  | inl e ↦ elim (Bool-cases (is_empty (purge_map held cm))) [
    | inl b ↦
        let gone : lookup p (purge_all held pool) ≡ none =
          purge_all-none held p pool
            (subst (λ k. lookup k pool ≡ none) ((text_eq_iff q p).0 e) h.0) in
        ground (arith, e, b, gone, is_empty-none (purge_map held cm) b)
    | inr b ↦ ground (arith, e, b)
  ]
  | inr e ↦ ground (arith, e, purge_all-pool_of held p pool h.1)
]

purge_one_there :
    (held : ℕ → Bool) (params p : Text) (pool : Pool) (cm : ConnMap)
    → lookup params pool ≡ some cm
    → pool_of p (purge_one held pool params)
      ≡ (if text_eq params p then purge_map held cm else pool_of p pool)
unfolding purge_one
purge_one_there held params p pool cm e = elim (Bool-cases (is_empty (purge_map held cm))) [
  | inl b ↦ ground (arith, e, b, lookup-erase params p pool, is_empty-none (purge_map held cm) b)
  | inr b ↦ ground (arith, e, b, lookup-insert params p (purge_map held cm) pool)
]

purge_one-pool_of :
    (held : ℕ → Bool) (params p : Text) (pool : Pool)
    → pool_of p (purge_one held pool params)
      ≡ (if text_eq params p then purge_map held (pool_of p pool) else pool_of p pool)
unfolding purge_one purge_map
purge_one-pool_of held params p pool = elim (Option-cases (lookup params pool)) [
  | inl e ↦ elim (Bool-cases (text_eq params p)) [
    | inl b ↦
        let absent : lookup p pool ≡ none =
          subst (λ k. lookup k pool ≡ none) ((text_eq_iff params p).0 b) e in
        ground (arith, e, b, absent)
    | inr b ↦ ground (arith, e, b)
  ]
  | inr (cm, e) ↦ elim (Bool-cases (text_eq params p)) [
    | inl b ↦
        let there : lookup p pool ≡ some cm =
          subst (λ k. lookup k pool ≡ some cm) ((text_eq_iff params p).0 b) e in
        ground (arith, b, there, purge_one_there held params p pool cm e)
    | inr b ↦ ground (arith, b, purge_one_there held params p pool cm e)
  ]
]

-- The pool of a connection string after a purge of one or of all.
pub purge-pool_of :
    (held : ℕ → Bool) (params p : Text) (pool : Pool)
    → HasKeys pool
    → pool_of p (purge held pool params) ≡ (
        if text_eq params [] || text_eq params p
        then purge_map held (pool_of p pool)
        else pool_of p pool)
unfolding purge
purge-pool_of held params p pool h =
    ground (arith, purge_all-pool_of held p pool h, purge_one-pool_of held params p pool)

purge_one-HasKeys :
    (held : ℕ → Bool) (params : Text) (pool : Pool)
    → HasKeys pool
    → HasKeys (purge_one held pool params)
unfolding purge_one
purge_one-HasKeys held params pool h = elim (Option-cases (lookup params pool)) [
  | inl e ↦ rw (purge_one, e) h
  | inr (cm, e) ↦ elim (Bool-cases (is_empty (purge_map held cm))) [
    | inl b ↦ rw (purge_one, e, b) (erase-HasKeys params pool h)
    | inr b ↦ rw (purge_one, e, b) (insert-HasKeys params (purge_map held cm) pool h)
  ]
]

purge-HasKeys :
    (held : ℕ → Bool) (params : Text) (pool : Pool)
    → HasKeys pool
    → HasKeys (purge held pool params)
unfolding purge
purge-HasKeys held params pool h =
    ground (arith, purge_all-HasKeys held pool h, purge_one-HasKeys held params pool h)

purge_map-kept :
    (held : ℕ → Bool) (c : ℕ) (cm : ConnMap)
    → IsExclusive cm
    → has_conn c (purge_map held cm) ≡ true
    → has_conn c cm ≡ true
purge_map-kept held c cm x h = ground (arith, h, (purge_map-has_conn held c cm x).0)

-- What is there after a purge was there before.
purge_kept :
    (held : ℕ → Bool) (params p : Text) (pool : Pool) (c : ℕ)
    → IsPool pool
    → has_conn c (pool_of p (purge held pool params)) ≡ true
    → has_conn c (pool_of p pool) ≡ true
purge_kept held params p pool c x h =
    let before : has_conn c (
          if text_eq params [] || text_eq params p
          then purge_map held (pool_of p pool)
          else pool_of p pool)
        ≡ true =
      subst (λ cm. has_conn c cm ≡ true) (purge-pool_of held params p pool x.keys) h in
    elim (Bool-cases (text_eq params [] || text_eq params p)) [
      | inl b ↦ purge_map-kept held c (pool_of p pool) (x.exclusive p) (rw b at before)
      | inr b ↦ rw b at before
    ]

pub purge-IsPool :
    (held : ℕ → Bool) (params : Text) (pool : Pool) → IsPool pool → IsPool (purge held pool params)
purge-IsPool held params pool x = record {
  keys = purge-HasKeys held params pool x.keys;
  exclusive = λ p. ground (
    arith,
    purge-pool_of held params p pool x.keys,
    x.exclusive p,
    (purge_map-has_conn held 0 (pool_of p pool) (x.exclusive p)).1,
  );
  apart = λ p q c n h. not_true (has_conn c (pool_of q (purge held pool params))) (λ k.
      absurd_test (x.apart p q c n (purge_kept held params p pool c x h))
        (purge_kept held params q pool c x k));
}
