-- ===== src/ConnPool/Pools/Calls.antt =====
-- The calls of hdr/bren/ConnPool.hpp on all its pools.
use brenlib.Prelude.{
  ℕ, Bool, false, ◌&&◌, ◌||◌, if◌then◌else◌, [], Result, ok, err, ◌>>=◌, ◌≡◌, refl, arith, inl, inr,
  Option-cases, subst, sym, ap, ==_iff,
}
use brenlib.Prelude.Text.{Text, text_eq}
use brenlib.Prelude.Maps.{lookup, insert, text_key, nat_key}
use brenlib.ConnPool.{ConnMap, Pool, assign, get_in, get, purge}
use brenlib.ConnPool.Ownership.{has_conn, get_in-Granted, purge_map-has_conn}
use brenlib.ConnPool.Pools.{pool_of, IsPool}
use brenlib.ConnPool.Pools.Purging.{purge-pool_of, purge-IsPool}
use brenlib.ConnPool.Pools.Origin.{get_in-kept, put-IsPool}

abbrev first_entry : Pool → Text → ℕ → ℕ → Result (Pool × ℕ)
first_entry pool params stid d = ok (insert params (assign stid d []) pool, d)

-- `get` where the connection string has no pool yet.
first-IsPool :
    (pool pool' : Pool) (params : Text) (stid c : ℕ) (made : Result ℕ)
    → IsPool pool
    → ((p : Text) (n : ℕ) → made ≡ ok n → has_conn n (pool_of p pool) ≡ false)
    → (made >>= first_entry pool params stid) ≡ ok (pool', c)
    → IsPool pool'
unfolding assign lookup
first-IsPool pool pool' params stid c (err z) x fresh g = cc
first-IsPool pool pool' params stid c (ok d) x fresh g =
    let same : insert params (assign stid d []) pool ≡ pool' = cc in
    subst IsPool same (
      put-IsPool params (assign stid d []) (ok d) pool x fresh (refl, refl, tt)
        (λ e h. let mine : e ≡ d = ground (arith, h, ==_iff e d) in inr (ap ok (sym mine))))

abbrev next_entry : Pool → Text → ConnMap × ℕ → Result (Pool × ℕ)
next_entry pool params r = ok (insert params r.0 pool, r.1)

-- `get` within the pool that is there.
next-IsPool :
    (held : ℕ → Bool) (pool pool' : Pool) (params : Text) (stid c : ℕ) (made : Result ℕ)
    (r : Result (ConnMap × ℕ))
    → IsPool pool
    → ((p : Text) (n : ℕ) → made ≡ ok n → has_conn n (pool_of p pool) ≡ false)
    → get_in held (pool_of params pool) stid made ≡ r
    → (r >>= next_entry pool params) ≡ ok (pool', c)
    → IsPool pool'
next-IsPool held pool pool' params stid c made (err z) x fresh e g = cc
next-IsPool held pool pool' params stid c made (ok (cm', d)) x fresh e g =
    let same : insert params cm' pool ≡ pool' = cc in
    let granted =
      get_in-Granted held (pool_of params pool) cm' stid d made (x.exclusive params) (fresh params)
        e in
    subst IsPool same (
      put-IsPool params cm' made pool x fresh granted.exclusive
        (λ k h. get_in-kept held (pool_of params pool) cm' stid d k made (x.exclusive params) e h))

pub get-IsPool :
    (held : ℕ → Bool) (pool pool' : Pool) (params : Text) (stid c : ℕ) (made : Result ℕ)
    → IsPool pool
    → ((p : Text) (n : ℕ) → made ≡ ok n → has_conn n (pool_of p pool) ≡ false)
    → get held pool params stid made ≡ ok (pool', c)
    → IsPool pool'
unfolding get
get-IsPool held pool pool' params stid c made x fresh g = elim (Option-cases (lookup params pool)) [
  | inl e ↦ first-IsPool pool pool' params stid c made x fresh (rw (get, e) at g)
  | inr (cm, e) ↦
      let here : get_in held (pool_of params pool) stid made ≡ get_in held cm stid made =
        rw e refl in
      next-IsPool held pool pool' params stid c made (get_in held cm stid made) x fresh here
        (rw (get, e) at g)
]

-- Whatever is asked of the pools, a connection stays with one thread of one pool: after `get`, and after
-- a `purge` behind it. The purge keeps of each pool that it is about the connections that are held, and of
-- the others all; a new connection must be one that no pool has.
pub operations-IsPool :
    (held still_held : ℕ → Bool) (pool pool' : Pool) (params purged p : Text) (stid c e : ℕ)
    (made : Result ℕ)
    → IsPool pool
    → ((t : Text) (n : ℕ) → made ≡ ok n → has_conn n (pool_of t pool) ≡ false)
    → get held pool params stid made ≡ ok (pool', c)
    → IsPool pool'
      × IsPool (purge still_held pool' purged)
      × (has_conn e (pool_of p (purge still_held pool' purged)) ≡ (
          if text_eq purged [] || text_eq purged p
          then still_held e && has_conn e (pool_of p pool')
          else has_conn e (pool_of p pool')))
operations-IsPool held still_held pool pool' params purged p stid c e made x fresh g =
    let y = get-IsPool held pool pool' params stid c made x fresh g in
    (
      y,
      purge-IsPool still_held purged pool' y,
      ground (
        arith,
        purge-pool_of still_held purged p pool' y.keys,
        (purge_map-has_conn still_held e (pool_of p pool') (y.exclusive p)).0,
      ),
    )
