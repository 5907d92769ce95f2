-- ===== src/ConnPool/Pools.antt =====
-- All the pools of hdr/bren/ConnPool.hpp.
pub mod Purging
pub mod Origin
pub mod Calls
use brenlib.Prelude.{
  ℕ, Bool, true, false, ◌==◌, ◌&&◌, ◌||◌, if◌then◌else◌, List, [], ◌∷◌, Option, none, some, Result,
  ok, err, ◌>>=◌, ◌≡◌, ◌≢◌, ◌⊎◌, refl, arith, inl, inr, Option-cases, Bool-cases, subst, sym, ap,
  ◌∙◌, ==_iff,
}
use brenlib.Prelude.Text.{Text, text_eq}
use brenlib.Prelude.Maps.{
  lookup, insert, erase, text_key, nat_key, text_eq_iff, lookup-insert, lookup-erase,
}
use brenlib.ConnPool.{
  ConnMap, Pool, assign, find_free, get_in, get, purge_map, is_empty, purge_all, purge_one, purge,
}
use brenlib.ConnPool.Ownership.{
  has_conn, IsExclusive, Granted, get_in-Granted, purge_map-has_conn, find_free-some,
  lookup-has_conn, has_conn-erase, has_conn-assign,
}

-- The map of a connection string; an absent one is empty.
abbrev pub map_or_none : Option ConnMap → ConnMap
map_or_none none = []
map_or_none (some cm) = cm

abbrev pub pool_of : Text → Pool → ConnMap
pool_of params pool = map_or_none (lookup params pool)

-- No connection string has two pools.
abbrev pub HasKeys : Pool → Type 0
HasKeys [] = Unit {0}
HasKeys ((p, cm) ∷ pool) = (lookup p pool ≡ none) × HasKeys pool

-- No two threads share a connection, in one pool or in two.
pub record IsPool (pool : Pool) : Type 0 where
  pub keys : HasKeys pool
  pub exclusive : (p : Text) → IsExclusive (pool_of p pool)
  pub apart :
      (p q : Text) (c : ℕ)
      → p ≢ q
      → has_conn c (pool_of p pool) ≡ true
      → has_conn c (pool_of q pool) ≡ false

pub insert-HasKeys :
    (p : Text) (cm : ConnMap) (pool : Pool) → HasKeys pool → HasKeys (insert p cm pool)
unfolding insert lookup
insert-HasKeys p cm [] h = (refl, tt)
insert-HasKeys p cm ((q, dm) ∷ pool) h = ground (
  arith,
  insert-HasKeys p cm pool h.1,
  lookup-insert p q cm pool,
  text_eq_iff p q,
  text_eq_iff q p,
)

pub erase-HasKeys : (p : Text) (pool : Pool) → HasKeys pool → HasKeys (erase p pool)
unfolding erase
erase-HasKeys p [] h = tt
erase-HasKeys p ((q, dm) ∷ pool) h = ground (arith, erase-HasKeys p pool h.1, lookup-erase p q pool)

pub absurd_test : {b : Bool} → b ≡ false → b ≡ true → ⊥
absurd_test h k = cc

pub not_true : (b : Bool) → (b ≡ true → ⊥) → b ≡ false
not_true true h = absurd (h refl)
not_true false h = refl
