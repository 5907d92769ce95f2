-- ===== src/ConnPool/Ownership.antt =====
-- Who gets which connection from hdr/bren/ConnPool.hpp.
use brenlib.Prelude.{
  ℕ, Bool, true, false, ◌==◌, ◌&&◌, ◌||◌, if◌then◌else◌, [], ◌∷◌, none, some, Result, ok, err,
  ◌>>=◌, ◌≡◌, ◌⊎◌, refl, arith, inl, inr, ==_iff, Option-cases, Bool-cases, subst, ==_refl,
}
use brenlib.Prelude.Maps.{lookup, erase, nat_key, text_key, lookup-erase}
use brenlib.ConnPool.{ConnMap, assign, find_free, get_in, purge_map}

-- Does a thread of this map have the connection?
abbrev pub has_conn : ℕ → ConnMap → Bool
has_conn c [] = false
has_conn c ((j, d) ∷ cm) = (c == d) || has_conn c cm

-- No two threads share a connection, and no thread has two entries.
abbrev pub IsExclusive : ConnMap → Type 0
IsExclusive [] = Unit
IsExclusive ((j, c) ∷ cm) = (has_conn c cm ≡ false) × (lookup j cm ≡ none) × IsExclusive cm

lookup-assign :
    (k j c : ℕ) (cm : ConnMap) → lookup j (assign k c cm) ≡ (if k == j then some c else lookup j cm)
unfolding assign lookup
lookup-assign k j c [] = refl
lookup-assign k j c ((i, d) ∷ cm) = ground (arith, lookup-assign k j c cm)

pub has_conn-assign :
    (k c e : ℕ) (cm : ConnMap)
    → lookup k cm ≡ none
    → has_conn e (assign k c cm) ≡ ((e == c) || has_conn e cm)
unfolding assign lookup
has_conn-assign k c e [] h = refl
has_conn-assign k c e ((i, d) ∷ cm) h = ground (arith, has_conn-assign k c e cm)

pub has_conn-erase :
    (k e : ℕ) (cm : ConnMap) → has_conn e cm ≡ false → has_conn e (erase k cm) ≡ false
unfolding erase
has_conn-erase k e [] h = refl
has_conn-erase k e ((i, d) ∷ cm) h = ground (arith, has_conn-erase k e cm)

assign-IsExclusive :
    (k c : ℕ) (cm : ConnMap)
    → IsExclusive cm
    → has_conn c cm ≡ false
    → lookup k cm ≡ none
    → IsExclusive (assign k c cm)
unfolding assign lookup
assign-IsExclusive k c [] x h l = (refl, refl, tt)
assign-IsExclusive k c ((i, d) ∷ cm) x h l =
    ground (arith, assign-IsExclusive k c cm x.2, has_conn-assign k c d cm, lookup-assign k i c cm)

erase-IsExclusive : (k : ℕ) (cm : ConnMap) → IsExclusive cm → IsExclusive (erase k cm)
unfolding erase
erase-IsExclusive k [] x = tt
erase-IsExclusive k ((i, d) ∷ cm) x =
    ground (arith, erase-IsExclusive k cm x.2, has_conn-erase k d cm x.0, lookup-erase k i cm)

pub lookup-has_conn : (j c : ℕ) (cm : ConnMap) → lookup j cm ≡ some c → has_conn c cm ≡ true
unfolding lookup
lookup-has_conn j c [] h = cc
lookup-has_conn j c ((i, d) ∷ cm) h = ground (arith, lookup-has_conn j c cm)

-- A free connection that is found is not held, and the map without its thread does not have it.
pub find_free-some :
    (held : ℕ → Bool) (cm : ConnMap) (j c : ℕ)
    → IsExclusive cm
    → find_free held cm ≡ some (j, c)
    → (held c ≡ false) × (lookup j cm ≡ some c) × (has_conn c (erase j cm) ≡ false)
unfolding find_free lookup erase
find_free-some held [] j c x h = cc
find_free-some held ((i, d) ∷ cm) j c x h = elim (Bool-cases (held d)) [
  | inl e ↦
      let (free, there, gone) = find_free-some held cm j c x.2 (rw e at h) in
      ground (arith, free, there, gone, lookup-has_conn j c cm there)
  | inr e ↦ ground (arith, e, rw e at h, has_conn-erase i d cm x.0)
]

-- What a call of `get` for a thread gives within the pool of one connection string.
pub record Granted (held : ℕ → Bool) (cm : ConnMap) (stid : ℕ) (cm' : ConnMap) (c : ℕ)
    : Type 0 where
  pub exclusive : IsExclusive cm'
  pub registered : lookup stid cm' ≡ some c
  pub source : (lookup stid cm ≡ some c) ⊎ ((held c ≡ false) ⊎ (has_conn c cm ≡ false))

get_in-free :
    (held : ℕ → Bool) (cm : ConnMap) (stid j c : ℕ)
    → IsExclusive cm
    → lookup stid cm ≡ none
    → find_free held cm ≡ some (j, c)
    → Granted held cm stid (assign stid c (erase j cm)) c
get_in-free held cm stid j c x l f =
    let (free, there, gone) = find_free-some held cm j c x f in
    record {
      exclusive =
          assign-IsExclusive stid c (erase j cm) (erase-IsExclusive j cm x) gone
            (ground (arith, lookup-erase j stid cm));
      registered = ground (arith, lookup-assign stid stid c (erase j cm), ==_refl stid);
      source = inr (inl free);
    }

get_in-new :
    (held : ℕ → Bool) (cm : ConnMap) (stid c : ℕ)
    → IsExclusive cm
    → lookup stid cm ≡ none
    → has_conn c cm ≡ false
    → Granted held cm stid (assign stid c cm) c
get_in-new held cm stid c x l n = record {
  exclusive = assign-IsExclusive stid c cm x n l;
  registered = ground (arith, lookup-assign stid stid c cm, ==_refl stid);
  source = inr (inr n);
}

abbrev IfGranted : (ℕ → Bool) → ConnMap → ℕ → Result (ConnMap × ℕ) → Type 0
IfGranted held cm stid (ok (cm', c)) = Granted held cm stid cm' c
IfGranted held cm stid (err e) = Unit {0}

made-IfGranted :
    (held : ℕ → Bool) (cm : ConnMap) (stid : ℕ) (made : Result ℕ)
    → IsExclusive cm
    → lookup stid cm ≡ none
    → ((n : ℕ) → made ≡ ok n → has_conn n cm ≡ false)
    → IfGranted held cm stid (made >>= λ c. ok (assign stid c cm, c))
made-IfGranted held cm stid (ok c) x l fresh = get_in-new held cm stid c x l (fresh c refl)
made-IfGranted held cm stid (err e) x l fresh = tt

get_in-IfGranted :
    (held : ℕ → Bool) (cm : ConnMap) (stid : ℕ) (made : Result ℕ)
    → IsExclusive cm
    → ((n : ℕ) → made ≡ ok n → has_conn n cm ≡ false)
    → IfGranted held cm stid (get_in held cm stid made)
unfolding get_in
get_in-IfGranted held cm stid made x fresh = elim (Option-cases (lookup stid cm)) [
  | inr (c, e) ↦ rw (e, get_in) (record { exclusive = x; registered = e; source = inl e })
  | inl e ↦
      rw (e, get_in)
        (elim (Option-cases (find_free held cm)) [
          | inr ((j, c), f) ↦ rw (f, get_in) (get_in-free held cm stid j c x e f)
          | inl f ↦ rw (f, get_in) (made-IfGranted held cm stid made x e fresh)
        ])
]

-- A thread gets the connection that it has, or one that nobody holds, or a new one; afterwards it
-- has that one, and no two threads of the pool share a connection.
pub get_in-Granted :
    (held : ℕ → Bool) (cm cm' : ConnMap) (stid c : ℕ) (made : Result ℕ)
    → IsExclusive cm
    → ((n : ℕ) → made ≡ ok n → has_conn n cm ≡ false)
    → get_in held cm stid made ≡ ok (cm', c)
    → Granted held cm stid cm' c
unfolding get_in
get_in-Granted held cm cm' stid c made x fresh h =
    subst (IfGranted held cm stid) h (get_in-IfGranted held cm stid made x fresh)

purge-has_conn :
    (held : ℕ → Bool) (e : ℕ) (cm : ConnMap)
    → has_conn e (purge_map held cm) ≡ (held e && has_conn e cm)
unfolding purge_map
purge-has_conn held e [] = ground arith
purge-has_conn held e ((j, c) ∷ cm) = ground (arith, purge-has_conn held e cm, ==_iff e c)

lookup-purge_map :
    (held : ℕ → Bool) (t : ℕ) (cm : ConnMap)
    → lookup t cm ≡ none
    → lookup t (purge_map held cm) ≡ none
unfolding purge_map lookup
lookup-purge_map held t [] h = refl
lookup-purge_map held t ((j, c) ∷ cm) h = ground (arith, lookup-purge_map held t cm)

-- A purge of a pool keeps exactly the connections that are held, still one thread to each.
pub purge_map-has_conn :
    (held : ℕ → Bool) (e : ℕ) (cm : ConnMap)
    → IsExclusive cm
    → (has_conn e (purge_map held cm) ≡ (held e && has_conn e cm)) × IsExclusive (purge_map held cm)
unfolding purge_map
purge_map-has_conn held e [] x = (ground arith, tt)
purge_map-has_conn held e ((j, c) ∷ cm) x =
    let (same, rest) = purge_map-has_conn held e cm x.2 in
    (
      ground (arith, same, ==_iff e c),
      ground (arith, rest, purge-has_conn held c cm, lookup-purge_map held j cm x.1),
    )
