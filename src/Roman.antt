-- ===== src/Roman.antt =====
-- src/roman.cpp: numbers as Roman numerals. `fill` is the inner `while`, `subtract` the inner
-- `for`, `convert` the outer one. Each returns the text that it appends, and what is left of `rem`.
pub mod Value
mod Tests
use brenlib.Prelude.{
  ℕ, zero, suc, ◌+◌, ◌-◌, Bool, true, false, not, ◌&&◌, ltb, leb, ◌==◌, if◌then◌else◌, List, [],
  ◌∷◌, ◌++◌,
}
use brenlib.Prelude.Text.{Text}
use mathlib.Core.List.{reverse}

abbrev pub Numeral : Type 0
Numeral = ℕ × ℕ

-- The map `rn` from the greatest key down, as `rbegin` walks it.
abbrev pub rn : List Numeral
rn = (1000, b'M') ∷ (500, b'D') ∷ (100, b'C') ∷ (50, b'L') ∷ (10, b'X') ∷ (5, b'V') ∷ (1, b'I') ∷ []

-- `while (rem >= i->first)`. As keys are positive, `rem` rounds are enough.
pub fill : ℕ → Numeral → ℕ → Text × ℕ
fill zero (v, c) rem = ([], rem)
fill (suc fuel) (v, c) rem =
    let (out, left) = fill fuel (v, c) (rem - v) in if leb v rem then (c ∷ out, left) else ([], rem)

-- The keys that are never a prefix: `continue`.
pub skipped : ℕ → Bool
skipped w = not (w == 100) && (not (w == 10) && not (w == 1))

-- The loop over the lesser keys `js`, from the least up, until one subtraction is done.
pub subtract : Numeral → List Numeral → ℕ → Text × ℕ
subtract i [] rem = ([], rem)
subtract (v, c) ((w, d) ∷ js) rem =
    let rest = subtract (v, c) js rem in
    if skipped w then rest else if leb (v - w) rem then (d ∷ c ∷ [], rem - (v - w)) else rest

-- The loop over the keys; the keys below `i` are those that come after it in `rn`.
pub convert : List Numeral → ℕ → Text × ℕ
convert [] rem = ([], rem)
convert (i ∷ lower) rem =
    let (filled, rem') = fill rem i rem in
    let (subtracted, rem'') = subtract i (reverse lower) rem' in
    let (rest, left) = convert lower rem'' in (filled ++ (subtracted ++ rest), left)

-- `toRoman`
pub to_roman : ℕ → Text
unfolding fill skipped subtract convert
to_roman num = (convert rn num).0
