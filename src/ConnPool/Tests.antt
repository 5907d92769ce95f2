-- ===== src/ConnPool/Tests.antt =====
-- A pool with the connection 10 of thread 1 and the connection 20 of thread 2; 10 is in use.
use brenlib.Prelude.{
  ℕ, Bool, true, false, ◌&&◌, ◌==◌, List, [], ◌∷◌, Option, none, some, Result, ok, err, ◌≡◌, refl,
  arith,
}
use brenlib.Prelude.Text.{Text, codes}
use brenlib.Prelude.Maps.{lookup}
use brenlib.ConnPool.{ConnMap, Pool, get_in, get, purge_map, purge}
use brenlib.ConnPool.Pools.{pool_of, IsPool}
use brenlib.ConnPool.Pools.Calls.{get-IsPool, operations-IsPool}
use brenlib.ConnPool.Ownership.{has_conn, IsExclusive, Granted, get_in-Granted}

abbrev used : ℕ → Bool
used c = c == 10

abbrev two : ConnMap
two = (1, 10) ∷ (2, 20) ∷ []

runs :
    (get used ((codes "db", two) ∷ []) (codes "db") 1 (ok 30) ≡ ok ((codes "db", two) ∷ [], 10))
    × (purge used ((codes "db", two) ∷ []) [] ≡ (codes "db", (1, 10) ∷ []) ∷ [])
    × (get used [] (codes "db") 1 (ok 30) ≡ ok ((codes "db", (1, 30) ∷ []) ∷ [], 30))
unfolding get purge lookup get_in brenlib.Prelude.Maps.insert purge_map brenlib.ConnPool.assign
runs = (refl, refl, refl)

two-IsExclusive : IsExclusive two
unfolding lookup
two-IsExclusive = (refl, refl, (refl, refl, tt))

fresh : (n : ℕ) → Path (Result ℕ) (ok 30) (ok n) → has_conn n two ≡ false
fresh n e = ground arith

moved : get_in used two 3 (ok 30) ≡ ok ((1, 10) ∷ (3, 20) ∷ [], 20)
unfolding get_in lookup brenlib.Prelude.Maps.erase brenlib.ConnPool.assign
    brenlib.ConnPool.find_free
moved = refl

get_in-Granted_example : Granted used two 3 ((1, 10) ∷ (3, 20) ∷ []) 20
get_in-Granted_example =
    get_in-Granted used two ((1, 10) ∷ (3, 20) ∷ []) 3 20 (ok 30) two-IsExclusive fresh moved

-- The connection 30 of thread 1, which nobody holds.
abbrev one : Pool
one = (codes "db", (1, 30) ∷ []) ∷ []

empty-IsPool : IsPool []
unfolding lookup
empty-IsPool = record { keys = tt; exclusive = λ p. tt; apart = λ p q c n h. refl }

nothing_there :
    (p : Text) (n : ℕ) → Path (Result ℕ) (ok 30) (ok n) → has_conn n (pool_of p []) ≡ false
unfolding lookup
nothing_there p n e = refl

opened : get used [] (codes "db") 1 (ok 30) ≡ ok (one, 30)
unfolding get lookup brenlib.Prelude.Maps.insert brenlib.ConnPool.assign
opened = refl

not_there : (p : Text) (n : ℕ) → Path (Result ℕ) (ok 40) (ok n) → has_conn n (pool_of p one) ≡ false
unfolding lookup
not_there p n e = ground arith

handed_on : get used one (codes "db") 2 (ok 40) ≡ ok ((codes "db", (2, 30) ∷ []) ∷ [], 30)
unfolding get get_in lookup brenlib.Prelude.Maps.insert brenlib.Prelude.Maps.erase
    brenlib.ConnPool.assign brenlib.ConnPool.find_free
handed_on = refl

operations-IsPool_example :
    IsPool ((codes "db", (2, 30) ∷ []) ∷ [])
    × IsPool (purge used ((codes "db", (2, 30) ∷ []) ∷ []) (codes "db"))
    × (has_conn 30
          (pool_of (codes "db") (purge used ((codes "db", (2, 30) ∷ []) ∷ []) (codes "db")))
        ≡ (used 30 && has_conn 30 (pool_of (codes "db") ((codes "db", (2, 30) ∷ []) ∷ []))))
operations-IsPool_example =
    operations-IsPool used used one ((codes "db", (2, 30) ∷ []) ∷ []) (codes "db") (codes "db")
      (codes "db") 2 30 30 (ok 40)
      (get-IsPool used [] one (codes "db") 1 30 (ok 30) empty-IsPool nothing_there opened) not_there
      handed_on
