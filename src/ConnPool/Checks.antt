-- ===== src/ConnPool/Checks.antt =====
-- The unit tests of hdr/bren/ConnPool.hpp, chk/connpool.cpp. The connections are numbered from 10, and
-- which of them is held is what is in scope. The threads of `multi` wait for each other, so that their
-- calls of `get` come in one order.
use brenlib.Prelude.{
  ℕ, zero, suc, ◌+◌, ltb, map, ◌++◌, Bool, true, false, not, ◌==◌, if◌then◌else◌, ◌&&◌, ◌||◌, List,
  [], ◌∷◌, Option, none, some, length, Result, ok, ◌>>=◌, ◌>>◌, ◌≡◌, refl,
}
use brenlib.Prelude.Text.{Text, codes}
use brenlib.Prelude.Maps.{lookup, text_key, nat_key}
use brenlib.Prelude.Asserts.{Check, assert}
use brenlib.ConnPool.{ConnMap, Pool, get, purge}

abbrev template_db : Text
template_db = codes "host=pgdb user=postgres dbname=template1"

abbrev postgres_db : Text
postgres_db = codes "host=pgdb user=postgres dbname=postgres"

abbrev nobody : ℕ → Bool
nobody c = false

abbrev only : ℕ → ℕ → Bool
only d c = c == d

-- The number of connections of a string; none if it is not in the pool.
abbrev count : Text → Pool → Option ℕ
count params pool = elim (lookup params pool) [ none ↦ none | some cm ↦ some (length cm) ]

abbrev same_count : Option ℕ → Option ℕ → Bool
same_count none none = true
same_count none (some n) = false
same_count (some n) none = false
same_count (some n) (some m) = n == m

abbrev counts : Text → Option ℕ → Pool → Check
counts params n pool = assert (same_count n (count params pool))

pub check_purge : Check
check_purge = do
  assert (length (purge nobody [] []) == 0)
  a ← get nobody [] template_db 0 (ok 10)
  assert (length (a.0) == 1)
  counts template_db (some 1) (a.0)
  let b = purge (only 10) (a.0) []
  assert (length b == 1)
  counts template_db (some 1) b
  c ← get nobody b postgres_db 0 (ok 11)
  assert (length (c.0) == 2)
  counts postgres_db (some 1) (c.0)
  counts template_db (some 1) (c.0)
  let d = purge (only 11) (c.0) postgres_db
  counts template_db (some 1) d
  let e = purge nobody d template_db
  counts template_db none e
  counts postgres_db (some 1) e
  assert (length (purge nobody e []) == 0)

check_purge_passes : check_purge ≡ ok tt
unfolding check_purge purge get lookup brenlib.Prelude.Maps.insert brenlib.ConnPool.assign
    brenlib.ConnPool.purge_map brenlib.Prelude.Maps.erase
check_purge_passes = refl

abbrev occurrences : ℕ → List ℕ → ℕ
occurrences c [] = 0
occurrences c (d ∷ ds) = let rest = occurrences c ds in if c == d then suc rest else rest

-- The connections that the copies of shared pointers in scope are of.
abbrev held : List ℕ → ℕ → Bool
held scope c = ltb 0 (occurrences c scope)

abbrev in_pool : Pool → List ℕ
in_pool [] = []
in_pool ((params, cm) ∷ pool) = map (λ p. p.1) cm ++ in_pool pool

-- `use_count()`
abbrev use_count : List ℕ → Pool → ℕ → ℕ
use_count scope pool c = occurrences c scope + occurrences c (in_pool pool)

-- What `begin()` of the pool and of its map lead to.
abbrev one_entry : ConnMap → ℕ → ℕ → Bool
one_entry [] stid c = false
one_entry ((j, d) ∷ cm) stid c = (length cm == 0) && ((d == c) && (j == stid))

abbrev begins_with : Pool → ℕ → ℕ → Check
begins_with [] stid c = assert false
begins_with ((params, cm) ∷ pool) stid c = assert (one_entry cm stid c)

-- A null pointer is no number, so that the tests for one hold.
pub check_connect : Pool → ℕ → Check
check_connect cp self = do
  assert (length cp == 0)
  counts template_db none cp
  a ← get (held []) cp template_db self (ok 10)
  let dbc = a.1
  assert (use_count (dbc ∷ []) a.0 dbc == 2)
  assert (length (a.0) == 1)
  counts template_db (some 1) (a.0)
  begins_with (a.0) self dbc
  b ← get (held (dbc ∷ [])) (a.0) template_db self (ok 11)
  let dbc2 = b.1
  assert (dbc2 == dbc)
  assert (use_count (dbc2 ∷ dbc ∷ []) b.0 dbc == 3)
  assert (use_count (dbc2 ∷ dbc ∷ []) b.0 dbc2 == 3)
  assert (length (b.0) == 1)
  counts template_db (some 1) (b.0)
  begins_with (b.0) self dbc
  assert (use_count (dbc ∷ []) b.0 dbc == 2)

-- The threads of a map.
abbrev threads : Text → Pool → List ℕ
threads params pool = elim (lookup params pool) [ none ↦ [] | some cm ↦ map (λ p. p.0) cm ]

abbrev all : (ℕ → Bool) → List ℕ → Bool
all test [] = true
all test (t ∷ ts) = test t && all test ts

abbrev found : ℕ → List ℕ → Bool
found t ts = ltb 0 (occurrences t ts)

-- The assertions of `multi` on the pool that two threads share, and on it once another thread has taken
-- the place of the first.
abbrev two_threads : Pool → ℕ → ℕ → Check
two_threads cp self tid1 = do
  assert (length cp == 1)
  counts template_db (some 2) cp
  assert (all (λ t. (t == self) || (t == tid1)) (threads template_db cp))
  assert (found tid1 (threads template_db cp))

abbrev thread_replaced : Pool → ℕ → ℕ → ℕ → Check
thread_replaced cp self tid1 tid2 = do
  assert (not (tid1 == tid2))
  assert (length cp == 1)
  counts template_db (some 2) cp
  assert (all (λ t. not (t == tid1) && ((t == self) || (t == tid2))) (threads template_db cp))
  assert (found tid2 (threads template_db cp) && not (found tid1 (threads template_db cp)))

pub check_multi : Pool → ℕ → ℕ → ℕ → Check
check_multi cp self tid1 tid2 = do
  assert (length cp == 0)
  a ← get (held []) cp template_db self (ok 10)
  b ← get (held (a.1 ∷ [])) (a.0) template_db tid1 (ok 11)
  two_threads (b.0) self tid1
  c ← get (held (a.1 ∷ [])) (b.0) template_db tid2 (ok 12)
  thread_replaced (c.0) self tid1 tid2

check_connect_passes : check_connect [] 7 ≡ ok tt
unfolding check_connect get lookup brenlib.Prelude.Maps.insert brenlib.ConnPool.assign
    brenlib.ConnPool.get_in
check_connect_passes = refl

check_multi_passes : (check_multi [] 1 2 3 ≡ ok tt) × (check_multi [] 3 2 1 ≡ ok tt)
unfolding check_multi get lookup brenlib.Prelude.Maps.insert brenlib.ConnPool.assign
    brenlib.ConnPool.get_in brenlib.ConnPool.find_free brenlib.Prelude.Maps.erase
check_multi_passes = (refl, refl)
