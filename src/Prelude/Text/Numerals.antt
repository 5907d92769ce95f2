-- ===== src/Prelude/Text/Numerals.antt =====
-- Different numbers are written differently.
use brenlib.Prelude.{
  ℕ, zero, suc, ◌+◌, ◌-◌, ◌*◌, ◌/◌, ◌%◌, ◌<◌, ltb, [], ◌∷◌, ◌++◌, ◌≡◌, refl, arith, ap, ◌∙◌, sym,
  Bool-cases, inl, inr,
}
use brenlib.Prelude.Text.{Text, digits_fuel, to_string}

-- The number that digits write, behind the number `a`.
value : ℕ → Text → ℕ
value a [] = a
value a (c ∷ cs) = value (a * 10 + (c - b'0')) cs

value-append : (a : ℕ) (xs ys : Text) → value a (xs ++ ys) ≡ value (value a xs) ys
unfolding value
value-append a [] ys = refl
value-append a (c ∷ cs) ys = value-append (a * 10 + (c - b'0')) cs ys

-- The numbers that the fuel is enough for.
bound : ℕ → ℕ
bound zero = 10
bound (suc f) = 10 * bound f

value-digits_fuel : (f n : ℕ) → n < bound f → value 0 (digits_fuel f n) ≡ n
unfolding value digits_fuel bound
value-digits_fuel zero n h = omega arith
value-digits_fuel (suc f) n h = elim (Bool-cases (ltb n 10)) [
  | inl e ↦ ground arith
  | inr e ↦
      let front : value 0 (digits_fuel f (n / 10)) ≡ n / 10 =
        value-digits_fuel f (n / 10) (omega arith) in
      rw e (
        value-append 0 (digits_fuel f (n / 10)) ((b'0' + n % 10) ∷ [])
        ∙ (ap (λ v. value v ((b'0' + n % 10) ∷ [])) front ∙ omega arith))
]

pub to_string_inj : (n m : ℕ) → n < 65535 → m < 65535 → to_string n ≡ to_string m → n ≡ m
unfolding to_string bound
to_string_inj n m h k e =
    sym (value-digits_fuel 19 n (omega arith))
    ∙ (ap (value 0) e ∙ value-digits_fuel 19 m (omega arith))
