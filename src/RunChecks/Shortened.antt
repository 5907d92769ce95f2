-- ===== src/RunChecks/Shortened.antt =====
-- The names of src/runchecks.cpp without "check" at their end.
use brenlib.Prelude.{
  ℕ, suc, ◌+◌, ◌-◌, Bool, false, ◌&&◌, ◌||◌, leb, ◌==◌, if◌then◌else◌, [], ◌∷◌, length, take, drop,
  ◌≡◌, ◌≤◌, refl, arith, ap, sym, ◌∙◌, Bool-cases, inl, inr,
}
use brenlib.Prelude.Text.{Text, text_eq, codes}
use brenlib.RunChecks.{to_lower, lowered, sanitized}

-- Is the byte this letter, in either case?
abbrev is_letter : (lower upper c : ℕ) → Bool
is_letter lower upper c = (c == lower) || (c == upper)

abbrev is_check : Text → Bool
is_check (c ∷ h ∷ e ∷ d ∷ k ∷ []) =
    is_letter b'c' b'C' c
    && (is_letter b'h' b'H' h
        && (is_letter b'e' b'E' e && (is_letter b'c' b'C' d && is_letter b'k' b'K' k)))
is_check t = false

-- A text up to the "check" at its end.
abbrev before_check : Text → Text
before_check [] = []
before_check (c ∷ cs) = if is_check (c ∷ cs) then [] else c ∷ before_check cs

-- A name without "check" at its end, behind two bytes at least.
abbrev pub shortened : Text → Text
shortened (a ∷ b ∷ name) = a ∷ b ∷ before_check name
shortened name = name

to_lower-letter : (u c : ℕ) → b'A' ≤ u → u ≤ b'Z' → (to_lower c == u + 32) ≡ is_letter (u + 32) u c
unfolding to_lower
to_lower-letter u c lo hi = ground arith

is_check-lowered :
    (c h e d k : ℕ)
    → text_eq (lowered (c ∷ h ∷ e ∷ d ∷ k ∷ [])) (codes "check") ≡ is_check (c ∷ h ∷ e ∷ d ∷ k ∷ [])
unfolding lowered
is_check-lowered c h e d k =
    rw
      (
        to_lower-letter b'C' c (omega arith) (omega arith),
        to_lower-letter b'H' h (omega arith) (omega arith),
        to_lower-letter b'E' e (omega arith) (omega arith),
        to_lower-letter b'C' d (omega arith) (omega arith),
        to_lower-letter b'K' k (omega arith) (omega arith),
      )
      (ground arith)

-- The same by positions, as the code finds it.
cut : Text → Text
cut t =
    if leb 5 (length t) && text_eq (lowered (drop (length t - 5) t)) (codes "check")
    then take (length t - 5) t
    else t

cut-longer : (c : ℕ) (t : Text) → 5 ≤ length t → cut (c ∷ t) ≡ c ∷ cut t
unfolding cut
cut-longer c t h =
    let place : suc (length t) - 5 ≡ suc (length t - 5) = omega arith in rw place (ground arith)

before_check-cut : (t : Text) → before_check t ≡ cut t
unfolding cut
before_check-cut [] = refl
before_check-cut (a ∷ []) = refl
before_check-cut (a ∷ b ∷ []) = refl
before_check-cut (a ∷ b ∷ c ∷ []) = refl
before_check-cut (a ∷ b ∷ c ∷ d ∷ []) = refl
before_check-cut (a ∷ b ∷ c ∷ d ∷ e ∷ []) = rw (is_check-lowered a b c d e) refl
before_check-cut (a ∷ b ∷ c ∷ d ∷ e ∷ f ∷ t) =
    ap (λ cs. a ∷ cs) (before_check-cut (b ∷ c ∷ d ∷ e ∷ f ∷ t))
    ∙ sym (cut-longer a (b ∷ c ∷ d ∷ e ∷ f ∷ t) (omega arith))

sanitized-cut : (a b : ℕ) (t : Text) → sanitized (a ∷ b ∷ t) ≡ a ∷ b ∷ cut t
unfolding sanitized cut
sanitized-cut a b t = elim (Bool-cases (leb 5 (length t))) [
  | inl h ↦
      let long : 5 ≤ length t = ground arith in
      let place : suc (suc (length t)) - 5 ≡ suc (suc (length t - 5)) = omega arith in
      rw place (ground arith)
  | inr h ↦ ground arith
]

-- `sanitized` shortens the names.
pub sanitized-shortened : (name : Text) → sanitized name ≡ shortened name
unfolding sanitized
sanitized-shortened [] = refl
sanitized-shortened (a ∷ []) = refl
sanitized-shortened (a ∷ b ∷ t) =
    sanitized-cut a b t ∙ ap (λ cs. a ∷ b ∷ cs) (sym (before_check-cut t))
