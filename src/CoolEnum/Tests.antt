-- ===== src/CoolEnum/Tests.antt =====
-- An enumeration of two values.
use brenlib.Prelude.{
  ℕ, Bool, true, false, List, [], ◌∷◌, some, Result, ok, err, out_of_range, get_elem?, ◌≡◌, ◌↔◌,
  refl,
}
use brenlib.Prelude.Text.{Text, codes}
use brenlib.CoolEnum.{unfilled, fill, name_of, key_of}
use brenlib.CoolEnum.Names.{AreDistinct, name_of-key_of}

abbrev colours : List (ℕ × Text)
colours = (4, codes "Red") ∷ (9, codes "Blue") ∷ []

runs :
    ((name_of colours unfilled 9).1 ≡ ok (codes "Blue"))
    × ((key_of colours unfilled (codes "Red")).1 ≡ ok 4)
    × ((key_of colours unfilled (codes "red")).1 ≡ err out_of_range)
unfolding name_of key_of fill brenlib.Prelude.Maps.lookup brenlib.Prelude.Maps.insert
runs = (refl, refl, refl)

colours-AreDistinct : AreDistinct colours
colours-AreDistinct = (((refl, refl), tt), (tt, tt))

name_of-key_of_example :
    ((name_of colours unfilled 9).1 ≡ ok (codes "Blue"))
    ↔ ((key_of colours (name_of colours unfilled 9).0 (codes "Blue")).1 ≡ ok 9)
name_of-key_of_example = name_of-key_of colours 9 (codes "Blue") colours-AreDistinct
