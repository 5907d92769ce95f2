-- ===== src/Roman/Value.antt =====
-- What a Roman numeral is worth, and that src/roman.cpp writes numerals of the right worth.
use brenlib.Prelude.{
  ℕ, zero, suc, ◌+◌, ◌-◌, ◌≤◌, ◌<◌, ltb, leb, ◌==◌, if◌then◌else◌, List, [], ◌∷◌, ◌++◌, ◌≡◌, sym,
  subst, arith, Bool-cases, inl, inr, All, All-append,
}
use brenlib.Prelude.Text.{Text}
use mathlib.Core.List.{reverse, reverse-cons}
use brenlib.Roman.{Numeral, rn, fill, skipped, subtract, convert, to_roman}

-- The worth of a letter; 0 for any other byte.
unfoldable pub worth : ℕ → ℕ
worth c =
    if c == b'M'
    then 1000
    else if c == b'D'
    then 500
    else if c == b'C'
    then 100
    else if c == b'L'
    then 50
    else if c == b'X'
    then 10
    else if c == b'V'
    then 5
    else if c == b'I'
    then 1
    else 0

abbrev pub front : Text → ℕ
front [] = 0
front (c ∷ cs) = worth c

-- Read from the left: a letter before one of greater worth is subtracted, any other is added.
pub value : Text → ℕ
value [] = 0
value (c ∷ cs) = if ltb (worth c) (front cs) then value cs - worth c else value cs + worth c

value-add : (c : ℕ) (cs : Text) → front cs ≤ worth c → value (c ∷ cs) ≡ value cs + worth c
unfolding value
value-add c cs h = ground arith

value-subtract :
    (d c : ℕ) (cs : Text)
    → worth d < worth c
    → front cs ≤ worth c
    → value (d ∷ c ∷ cs) ≡ value cs + (worth c - worth d)
unfolding value
value-subtract d c cs lt h = ground (arith, value-add c cs h)

-- What a chunk of the output does to a text of lesser letters that follows it.
abbrev Adds : ℕ → ℕ → Text × ℕ → Type 0
Adds v rem (out, left) =
    (cs : Text)
    → front cs ≤ v
    → (value (out ++ cs) + left ≡ value cs + rem) × (front (out ++ cs) ≤ v)

fill-Adds : (fuel c rem : ℕ) → Adds (worth c) rem (fill fuel (worth c, c) rem)
unfolding fill
fill-Adds zero c rem cs h = ground arith
fill-Adds (suc fuel) c rem cs h = ground (
  arith,
  fill-Adds fuel c (rem - worth c) cs h,
  value-add c ((fill fuel (worth c, c) (rem - worth c)).0 ++ cs),
)

fill_below : (fuel v c rem : ℕ) → 1 ≤ v → rem ≤ fuel → (fill fuel (v, c) rem).1 < v
unfolding fill
fill_below zero v c rem hv h = omega arith
fill_below (suc fuel) v c rem hv h = ground (arith, fill_below fuel v c (rem - v))

-- A numeral of `rn` that may stand before a greater one of worth `v`.
abbrev Lesser : ℕ → Numeral → Type 0
Lesser v j = (worth j.1 ≡ j.0) × (j.0 < v)

prefixed :
    (c rem w d : ℕ) (cs : Text)
    → Lesser (worth c) (w, d)
    → front cs ≤ worth c
    → worth c - w ≤ rem
    → (value (d ∷ c ∷ cs) + (rem - (worth c - w)) ≡ value cs + rem) × (worth d ≤ worth c)
prefixed c rem w d cs l h le = omega (arith, l.0, l.1, value-subtract d c cs (omega arith) h)

subtract-Adds :
    (c rem : ℕ) (js : List Numeral)
    → All (Lesser (worth c)) js
    → Adds (worth c) rem (subtract (worth c, c) js rem)
unfolding subtract
subtract-Adds c rem [] l cs h = ground arith
subtract-Adds c rem ((w, d) ∷ js) l cs h =
    let later = subtract-Adds c rem js l.1 cs h in
    elim (Bool-cases (skipped w)) [
      | inl e ↦ rw (e, subtract) later
      | inr e ↦
          rw (e, subtract)
            (elim (Bool-cases (leb (worth c - w) rem)) [
              | inl f ↦ rw f (prefixed c rem w d cs l.0 h (ground arith))
              | inr f ↦ rw f later
            ])
    ]

All-reverse {ℓ κ} : {A : Type ℓ} (P : A → Type κ) (xs : List A) → All P xs → All P (reverse xs)
All-reverse P [] h = h
All-reverse P (x ∷ xs) h =
    rw (reverse-cons x xs) (All-append P (reverse xs) (x ∷ []) (All-reverse P xs h.1) (h.0, tt))

below_le : (v : ℕ) (ds : List Numeral) → All (Lesser v) ds → All (λ j. j.0 ≤ v) ds
below_le v [] h = tt
below_le v (j ∷ ds) h = (omega (arith, h.0.1), below_le v ds h.1)

-- Keys fall from left to right, each is the worth of its letter, and the last is 1.
abbrev IsTable : List Numeral → Type 0
IsTable [] = Unit
IsTable ((v, c) ∷ lower) = (worth c ≡ v) × (1 ≤ v) × All (Lesser v) lower × IsTable lower

abbrev Reads : ℕ → ℕ → Text × ℕ → Type 0
Reads v rem (out, left) = (value out + left ≡ rem) × (front out ≤ v)

convert-Reads :
    (ds : List Numeral) (v rem : ℕ)
    → IsTable ds
    → All (λ j. j.0 ≤ v) ds
    → Reads v rem (convert ds rem)
unfolding convert value
convert-Reads [] v rem t h = ground arith
convert-Reads ((u, c) ∷ lower) v rem t h =
    subst (λ k. Reads v rem (convert ((k, c) ∷ lower) rem)) t.0
      (let (filled, rem1) = fill rem (worth c, c) rem in
        let (cut, rem2) = subtract (worth c, c) (reverse lower) rem1 in
        let rest = convert-Reads lower (worth c) rem2 t.3 (below_le (worth c) lower lesser) in
        let after = convert lower rem2 in
        let s = subtract-Adds c rem1 _ (All-reverse _ lower lesser) after.0 rest.1 in
        let f = fill-Adds rem c rem (cut ++ after.0) s.1 in (omega arith, omega (arith, h.0, t.0)))
  where
    lesser : All (Lesser (worth c)) lower
    lesser = subst (λ k. All (Lesser k) lower) (sym t.0) t.2

-- The last key is 1, so nothing is left over.
convert_rest : (ds : List Numeral) (rem : ℕ) (c : ℕ) → (convert (ds ++ (1, c) ∷ []) rem).1 ≡ 0
unfolding convert subtract
convert_rest [] rem c = omega (arith, fill_below rem 1 c rem)
convert_rest (i ∷ ds) rem c = convert_rest ds _ c

rn-IsTable : IsTable rn
unfolding worth
rn-IsTable = omega arith

-- The text that `toRoman` writes for a number is worth that number, whatever the number.
pub value-to_roman : (num : ℕ) → value (to_roman num) ≡ num
unfolding to_roman
value-to_roman num = omega (
  arith,
  convert-Reads rn 1000 num rn-IsTable (omega arith),
  convert_rest ((1000, b'M') ∷ (500, b'D') ∷ (100, b'C') ∷ (50, b'L') ∷ (10, b'X') ∷ (5, b'V') ∷ [])
      num b'I',
)
