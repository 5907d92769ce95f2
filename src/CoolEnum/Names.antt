-- ===== src/CoolEnum/Names.antt =====
-- Names and keys of an enumeration of hdr/bren/CoolEnum.cpp.hpp.
use brenlib.Prelude.{
  ℕ, Bool, true, false, ◌==◌, List, [], ◌∷◌, Option, none, some, ok, ◌≡◌, ◌↔◌, refl, get_elem?,
  zero, suc, arith, All, ==_iff, ◌∙◌, ==_refl,
}
use brenlib.Prelude.Text.{Text, text_eq}
use brenlib.Prelude.Maps.{lookup, insert, nat_key, text_key, lookup-insert, text_eq_iff}
use brenlib.CoolEnum.{EnumMaps, unfilled, store, store_all, fill, found, name_of, key_of}

-- No index and no value stands twice.
abbrev pub AreDistinct : List (ℕ × Text) → Type 0
AreDistinct [] = Unit
AreDistinct ((k, v) ∷ items) =
    All (λ p. ((p.0 == k) ≡ false) × (text_eq p.1 v ≡ false)) items × AreDistinct items

-- Each map is the inverse of the other.
pub record IsInverse (m : EnumMaps) : Type 0 where
  pub there : (k : ℕ) (v : Text) → lookup k m.k2s ≡ some v → lookup v m.s2k ≡ some k
  pub back : (k : ℕ) (v : Text) → lookup v m.s2k ≡ some k → lookup k m.k2s ≡ some v

-- Neither the index nor the value is in the maps.
abbrev IsNew : EnumMaps → ℕ × Text → Type 0
IsNew m p = (lookup p.0 m.k2s ≡ none) × (lookup p.1 m.s2k ≡ none)

store-IsInverse :
    (k : ℕ) (v : Text) (m : EnumMaps) → IsNew m (k, v) → IsInverse m → IsInverse (store (k, v) m)
unfolding store
store-IsInverse k v m n h = record {
  there = λ j w e. ground (
    arith,
    lookup-insert k j v m.k2s,
    lookup-insert v w k m.s2k,
    h.there j w,
    ==_iff k j,
    text_eq_iff v w,
  );
  back = λ j w e. ground (
    arith,
    lookup-insert k j v m.k2s,
    lookup-insert v w k m.s2k,
    h.back j w,
    ==_iff k j,
    text_eq_iff v w,
  );
}

store-IsNew :
    (k j : ℕ) (v w : Text) (m : EnumMaps)
    → IsNew m (j, w)
    → (j == k) ≡ false
    → text_eq w v ≡ false
    → IsNew (store (k, v) m) (j, w)
unfolding store
store-IsNew k j v w m n d e = ground (
  arith,
  lookup-insert k j v m.k2s,
  lookup-insert v w k m.s2k,
  ==_iff k j,
  text_eq_iff v w,
  ==_iff j k,
  text_eq_iff w v,
)

store-AllNew :
    (k : ℕ) (v : Text) (m : EnumMaps) (items : List (ℕ × Text))
    → All (IsNew m) items
    → All (λ p. ((p.0 == k) ≡ false) × (text_eq p.1 v ≡ false)) items
    → All (IsNew (store (k, v) m)) items
store-AllNew k v m [] n d = tt
store-AllNew k v m ((j, w) ∷ items) n d =
    (store-IsNew k j v w m n.0 d.0.0 d.0.1, store-AllNew k v m items n.1 d.1)

store_all-IsInverse :
    (items : List (ℕ × Text)) (m : EnumMaps)
    → AreDistinct items
    → All (IsNew m) items
    → IsInverse m
    → IsInverse (store_all items m)
unfolding store_all
store_all-IsInverse [] m d n h = h
store_all-IsInverse ((k, v) ∷ items) m d n h =
    store_all-IsInverse items (store (k, v) m) d.1 (store-AllNew k v m items n.1 d.0)
      (store-IsInverse k v m n.0 h)

abbrev is_filled : List (ℕ × Text) → Bool
is_filled [] = false
is_filled (p ∷ ps) = true

insert-is_filled : (k : ℕ) (v : Text) (m : List (ℕ × Text)) → is_filled (insert k v m) ≡ true
unfolding insert
insert-is_filled k v [] = refl
insert-is_filled k v ((j, w) ∷ m) = ground arith

store_all-is_filled :
    (items : List (ℕ × Text)) (m : EnumMaps)
    → is_filled m.k2s ≡ true
    → is_filled (store_all items m).k2s ≡ true
unfolding store_all
store_all-is_filled [] m h = h
store_all-is_filled ((k, v) ∷ items) m h =
    store_all-is_filled items (store (k, v) m) (insert-is_filled k v m.k2s)

fill_kept :
    (items ps : List (ℕ × Text)) (s : List (Text × ℕ))
    → is_filled ps ≡ true
    → fill items (record { k2s = ps; s2k = s }) ≡ record { k2s = ps; s2k = s }
unfolding fill
fill_kept items [] s h = cc
fill_kept items (p ∷ ps) s h = refl

fill-again : (items : List (ℕ × Text)) → fill items (fill items unfilled) ≡ fill items unfilled
unfolding fill
fill-again [] = refl
fill-again ((k, v) ∷ items) =
    let m = store_all ((k, v) ∷ items) unfilled in
    fill_kept ((k, v) ∷ items) m.k2s m.s2k
      (store_all-is_filled items (store (k, v) unfilled) (insert-is_filled k v []))

found-ok : {A : Type 0} (o : Option A) (a : A) → (found o ≡ ok a) ↔ (o ≡ some a)
found-ok none a = (λ e. cc, λ e. cc)
found-ok (some b) a = (λ e. cc, λ e. cc)

all-IsNew : (items : List (ℕ × Text)) → All (IsNew unfilled) items
unfolding lookup
all-IsNew [] = tt
all-IsNew (p ∷ items) = ((refl, refl), all-IsNew items)

unfilled-IsInverse : IsInverse unfilled
unfolding lookup
unfilled-IsInverse = record { there = λ k v e. cc; back = λ k v e. cc }

fill-IsInverse : (items : List (ℕ × Text)) → AreDistinct items → IsInverse (fill items unfilled)
unfolding fill
fill-IsInverse items d = store_all-IsInverse items unfilled d (all-IsNew items) unfilled-IsInverse

-- With distinct indices and distinct values a key has a name exactly where the name has the key, in
-- the first call as in a later one.
pub name_of-key_of :
    (items : List (ℕ × Text)) (k : ℕ) (v : Text)
    → AreDistinct items
    → ((name_of items unfilled k).1 ≡ ok v)
      ↔ ((key_of items (name_of items unfilled k).0 v).1 ≡ ok k)
unfolding name_of key_of
name_of-key_of items k v d =
    let m = fill items unfilled in
    let inverse = fill-IsInverse items d in
    rw (fill-again items) (
      λ e. (found-ok (lookup v m.s2k) k).1 (inverse.there k v ((found-ok (lookup k m.k2s) v).0 e)),
      λ e. (found-ok (lookup k m.k2s) v).1 (inverse.back k v ((found-ok (lookup v m.s2k) k).0 e)),
    )

lookup-store_all :
    (k : ℕ) (v : Text) (items : List (ℕ × Text)) (m : EnumMaps)
    → All (λ p. ((p.0 == k) ≡ false) × (text_eq p.1 v ≡ false)) items
    → lookup k (store_all items m).k2s ≡ lookup k m.k2s
unfolding store_all
lookup-store_all k v [] m d = refl
lookup-store_all k v ((j, w) ∷ items) m d =
    lookup-store_all k v items (store (j, w) m) d.1
    ∙ ground (arith, lookup-insert j k w m.k2s, d.0.0)

store_all-item :
    (items : List (ℕ × Text)) (i k : ℕ) (v : Text) (m : EnumMaps)
    → AreDistinct items
    → get_elem? items i ≡ some (k, v)
    → lookup k (store_all items m).k2s ≡ some v
unfolding store_all store
store_all-item [] i k v m d h = cc
store_all-item ((j, w) ∷ items) zero k v m d h =
    ground
      (arith, lookup-store_all j w items (store (j, w) m) d.0, lookup-insert j j w m.k2s, ==_refl j)
store_all-item ((j, w) ∷ items) (suc i) k v m d h =
    store_all-item items i k v (store (j, w) m) d.1 h

-- With distinct indices and distinct values the name of each index is its value.
pub name_of-item :
    (items : List (ℕ × Text)) (i k : ℕ) (v : Text)
    → AreDistinct items
    → get_elem? items i ≡ some (k, v)
    → (name_of items unfilled k).1 ≡ ok v
unfolding name_of fill
name_of-item items i k v d h =
    (found-ok (lookup k (store_all items unfilled).k2s) v).1
      (store_all-item items i k v unfilled d h)
