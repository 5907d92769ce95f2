-- ===== src/Roman/Tests.antt =====
-- Runs of `to_roman`.
use brenlib.Prelude.{◌≡◌, refl}
use brenlib.Prelude.Text.{codes}
use brenlib.Roman.{to_roman}
use brenlib.Roman.Value.{value, value-to_roman}

runs :
    (to_roman 1994 ≡ codes "MXMIV")
    × (to_roman 49 ≡ codes "IL")
    × (to_roman 1999 ≡ codes "MIM")
    × (to_roman 3888 ≡ codes "MMMDCCCLXXXVIII")
unfolding to_roman
runs = (refl, refl, refl, refl)

value-to_roman_example : value (to_roman 1994) ≡ 1994
value-to_roman_example = value-to_roman 1994
