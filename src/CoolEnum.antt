-- ===== src/CoolEnum.antt =====
-- hdr/bren/CoolEnum.cpp.hpp: what the macros make of an enumeration NAME. `items` are the uses of
-- COOLENUM(VALUE, INDEX) in their order, each with its index and the text of its value.
pub mod Names
mod Checks
mod Tests
use brenlib.Prelude.{
  ℕ, Bool, true, false, List, [], ◌∷◌, Option, none, some, Result, ok, err, Error, out_of_range,
}
use brenlib.Prelude.Text.{Text}
use brenlib.Prelude.Maps.{lookup, insert, nat_key, text_key}

-- NAME_k2s and NAME_s2k
pub record EnumMaps : Type 0 where
  pub k2s : List (ℕ × Text)
  pub s2k : List (Text × ℕ)

-- The maps before the first call.
abbrev pub unfilled : EnumMaps
unfilled = record { k2s = []; s2k = [] }

-- COOLENUM
pub store : ℕ × Text → EnumMaps → EnumMaps
store (index, value) m = record { k2s = insert index value m.k2s; s2k = insert value index m.s2k }

pub store_all : List (ℕ × Text) → EnumMaps → EnumMaps
unfolding store
store_all [] m = m
store_all (item ∷ items) m = store_all items (store item m)

-- NAME_fillenummaps
pub fill : List (ℕ × Text) → EnumMaps → EnumMaps
unfolding store_all
fill items m = elim (m.k2s) [ [] ↦ store_all items m | p ∷ ps ↦ m ]

abbrev pub found {ℓ} : {A : Type ℓ} → Option A → Result A
found none = err out_of_range
found (some a) = ok a

-- NAME_(const KEYTYPE)
pub name_of : List (ℕ × Text) → EnumMaps → ℕ → EnumMaps × Result Text
name_of items m key = let filled = fill items m in (filled, found (lookup key filled.k2s))

-- NAME_(const std::string &)
pub key_of : List (ℕ × Text) → EnumMaps → Text → EnumMaps × Result ℕ
key_of items m str = let filled = fill items m in (filled, found (lookup str filled.s2k))
