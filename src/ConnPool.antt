-- ===== src/ConnPool.antt =====
-- hdr/bren/ConnPool.hpp. A connection is a number; `held` says of which ones a copy of the shared
-- pointer lives outside the pool (`use_count() > 1`). A new connection is what `new T(params_i)`
-- gives: a number that no connection has yet, or its exception. Each method holds the mutex.
pub mod Ownership
pub mod Pools
mod Checks
mod Tests
use brenlib.Prelude.{
  ℕ, Bool, true, false, not, ltb, ◌==◌, if◌then◌else◌, List, [], ◌∷◌, ◌++◌, Option, none, some,
  Result, ok, err, ◌>>=◌,
}
use brenlib.Prelude.Text.{Text, text_eq}
use brenlib.Prelude.Maps.{lookup, insert, erase, nat_key, text_key}

-- connmap_t: from thread numbers to connections, in the order of the threads.
abbrev pub ConnMap : Type 0
ConnMap = List (ℕ × ℕ)

-- pool_t
abbrev pub Pool : Type 0
Pool = List (Text × ConnMap)

-- `cm[stid] = con` in a std::map, which keeps its keys in order.
pub assign : ℕ → ℕ → ConnMap → ConnMap
assign k c [] = (k, c) ∷ []
assign k c ((j, d) ∷ cm) =
    if k == j then (k, c) ∷ cm else if ltb k j then (k, c) ∷ (j, d) ∷ cm else (j, d) ∷ assign k c cm

-- The loop that looks for a free connection: the first whose only owner is the pool.
pub find_free : (ℕ → Bool) → ConnMap → Option (ℕ × ℕ)
find_free held [] = none
find_free held ((j, c) ∷ cm) =
    let later = find_free held cm in if held c then later else some (j, c)

-- `get` within the pool of one connection string.
pub get_in : (ℕ → Bool) → ConnMap → ℕ → Result ℕ → Result (ConnMap × ℕ)
get_in held cm stid made = elim (lookup stid cm) [
  | some c ↦ ok (cm, c)
  | none ↦ elim (find_free held cm) [
    | some p ↦ ok (assign stid p.1 (erase p.0 cm), p.1)
    | none ↦ made >>= λ c. ok (assign stid c cm, c)
  ]
]

-- `get`: the pool afterwards, and the connection.
pub get : (ℕ → Bool) → Pool → Text → ℕ → Result ℕ → Result (Pool × ℕ)
get held pool params stid made = elim (lookup params pool) [
  | none ↦ made >>= λ c. ok (insert params (assign stid c []) pool, c)
  | some cm ↦ get_in held cm stid made >>= λ r. ok (insert params r.0 pool, r.1)
]

-- `purge_`: the map without its idle connections.
pub purge_map : (ℕ → Bool) → ConnMap → ConnMap
purge_map held [] = []
purge_map held ((j, c) ∷ cm) =
    let rest = purge_map held cm in if held c then (j, c) ∷ rest else rest

abbrev pub is_empty : ConnMap → Bool
is_empty [] = true
is_empty (p ∷ cm) = false

-- `purge` of all pools: those that are empty afterwards go.
pub purge_all : (ℕ → Bool) → Pool → Pool
purge_all held [] = []
purge_all held ((params, cm) ∷ pool) =
    let rest = purge_all held pool in
    if is_empty (purge_map held cm) then rest else (params, purge_map held cm) ∷ rest

-- `purge` of one pool.
pub purge_one : (ℕ → Bool) → Pool → Text → Pool
purge_one held pool params = elim (lookup params pool) [
  | none ↦ pool
  | some cm ↦
      if is_empty (purge_map held cm)
      then erase params pool
      else insert params (purge_map held cm) pool
]

-- `purge`
pub purge : (ℕ → Bool) → Pool → Text → Pool
unfolding purge_all purge_one
purge held pool params =
    if text_eq params [] then purge_all held pool else purge_one held pool params
