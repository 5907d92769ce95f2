-- ===== src/CoolEnum/Checks.antt =====
-- The unit tests of hdr/bren/CoolEnum.cpp.hpp, chk/coolenum.cpp, on the enumeration of chk/coolenum.def.
use brenlib.Prelude.{ℕ, ◌==◌, List, [], ◌∷◌, length, ok, out_of_range, ◌>>=◌, ◌>>◌, ◌≡◌, refl}
use brenlib.Prelude.Text.{Text, text_eq, codes}
use brenlib.Prelude.Asserts.{Check, assert, assert_throw}
use brenlib.CoolEnum.{EnumMaps, unfilled, name_of, key_of}

abbrev plain : List (ℕ × Text)
plain = (0, codes "PLAIN_ZERO") ∷ (1, codes "PLAIN_ONE") ∷ (2, codes "PLAIN_TWO") ∷ []

pub check_basics : Check
check_basics = do
  assert (length unfilled.k2s == 0)
  assert (length unfilled.s2k == 0)
  let called = key_of plain unfilled (codes "PLAIN_TWO")
  two ← called.1
  assert (2 == two)
  assert (length (called.0).k2s == 3)
  assert (length (called.0).s2k == 3)
  name ← (name_of plain (called.0) 2).1
  assert (text_eq (codes "PLAIN_TWO") name)

check_basics_passes : check_basics ≡ ok tt
unfolding check_basics key_of brenlib.Prelude.Maps.lookup brenlib.CoolEnum.fill
    brenlib.Prelude.Maps.insert name_of
check_basics_passes = refl

-- `m` is what the maps hold before this test.
pub check_notfound : EnumMaps → Check
check_notfound m = do
  assert_throw out_of_range (name_of plain m 255).1
  assert_throw out_of_range (key_of plain (name_of plain m 255).0 (codes "PLAIN_NONE")).1

check_notfound_passes :
    (check_notfound unfilled ≡ ok tt)
    × (check_notfound (key_of plain unfilled (codes "PLAIN_TWO")).0 ≡ ok tt)
unfolding check_notfound name_of brenlib.Prelude.Maps.lookup brenlib.CoolEnum.fill
    brenlib.Prelude.Maps.insert key_of
check_notfound_passes = (refl, refl)
