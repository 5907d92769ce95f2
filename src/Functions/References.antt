-- ===== src/Functions/References.antt =====
-- What src/functions.cpp makes of character references.
use brenlib.Prelude.{
  ℕ, zero, suc, ◌<◌, ◌≤◌, false, ◌==◌, if◌then◌else◌, [], ◌∷◌, ◌++◌, length, ◌≡◌, refl, arith,
  Bool-cases, inl, inr, ==_iff, ap, ◌∙◌, length-append,
}
use brenlib.Prelude.Text.{Text, codes}
use brenlib.Prelude.Maps.{text_key}
use brenlib.Functions.{replace_from, html_to_ascii}

-- The reference for a byte, where HTML wants one.
abbrev reference : ℕ → Text
reference c =
    if c == b'&'
    then codes "&amp;"
    else if c == b'<'
    then codes "&lt;"
    else if c == b'>'
    then codes "&gt;"
    else c ∷ []

-- A text with `&`, `<` and `>` as references.
pub to_html : Text → Text
to_html [] = []
to_html (c ∷ cs) = reference c ++ to_html cs

replace-amp :
    (fuel : ℕ) (s : Text)
    → replace_from (suc fuel) (codes "&amp;" ++ s) ≡ b'&' ∷ replace_from fuel s
unfolding replace_from
replace-amp fuel s = refl

replace-lt :
    (fuel : ℕ) (s : Text) → replace_from (suc fuel) (codes "&lt;" ++ s) ≡ b'<' ∷ replace_from fuel s
unfolding replace_from
replace-lt fuel s = refl

replace-gt :
    (fuel : ℕ) (s : Text) → replace_from (suc fuel) (codes "&gt;" ++ s) ≡ b'>' ∷ replace_from fuel s
unfolding replace_from
replace-gt fuel s = refl

replace-plain :
    (fuel c : ℕ) (s : Text)
    → (c == b'&') ≡ false
    → replace_from (suc fuel) (c ∷ s) ≡ c ∷ replace_from fuel s
unfolding replace_from
replace-plain fuel c s h = rw h

replace-reference :
    (fuel c : ℕ) (s : Text) → replace_from (suc fuel) (reference c ++ s) ≡ c ∷ replace_from fuel s
replace-reference fuel c s = elim (Bool-cases (c == b'&')) [
  | inl e ↦ rw ((==_iff c b'&').0 e) (replace-amp fuel s)
  | inr e ↦ elim (Bool-cases (c == b'<')) [
    | inl f ↦ rw ((==_iff c b'<').0 f) (replace-lt fuel s)
    | inr f ↦ elim (Bool-cases (c == b'>')) [
      | inl g ↦ rw ((==_iff c b'>').0 g) (replace-gt fuel s)
      | inr g ↦ rw (e, f, g) (replace-plain fuel c s e)
    ]
  ]
]

reference_pos : (c : ℕ) → 1 ≤ length (reference c)
reference_pos c = ground arith

replace-to_html :
    (fuel : ℕ) (s : Text) → length (to_html s) < fuel → replace_from fuel (to_html s) ≡ s
unfolding to_html
replace-to_html zero s h = elim h [ ]
replace-to_html (suc fuel) [] h = unfold replace_from in refl
replace-to_html (suc fuel) (c ∷ cs) h =
    let shorter : length (to_html cs) < fuel =
      omega (arith, reference_pos c, length-append (reference c) (to_html cs)) in
    replace-reference fuel c (to_html cs) ∙ ap (λ t. c ∷ t) (replace-to_html fuel cs shorter)

-- Any text whose `&`, `<` and `>` were written as references is read back as it was.
pub html_to_ascii-to_html : (s : Text) → html_to_ascii (to_html s) ≡ s
unfolding html_to_ascii
html_to_ascii-to_html s = replace-to_html (suc (length (to_html s))) s (omega arith)
