-- ===== src/HeaderedTable/Names.antt =====
-- The loop of src/HeaderedTable.cpp over `a` finds a name that is free: there are more candidates than
-- headers.
use brenlib.Prelude.{
  ℕ, zero, suc, ◌+◌, ◌≤◌, ◌<◌, true, if◌then◌else◌, List, [], ◌∷◌, ◌++◌, length, ok, ◌≡◌, ◌≢◌, refl,
  arith, All, Bool-cases, inl, inr, ap, ◌⊎◌,
}
use brenlib.Prelude.Text.{Text, text_eq}
use brenlib.Prelude.Text.Numerals.{to_string_inj}
use brenlib.Prelude.Maps.{text_eq_iff}
use brenlib.HeaderedTable.{taken, candidate, unique_name}

-- The headers without the first one that has the name.
remove : Text → List Text → List Text
remove name [] = []
remove name (h ∷ hs) = let rest = h ∷ remove name hs in if text_eq h name then hs else rest

length-remove :
    (name : Text) (hs : List Text)
    → taken hs name ≡ true
    → suc (length (remove name hs)) ≡ length hs
unfolding taken remove
length-remove name [] h = cc
length-remove name (h ∷ hs) t = elim (Bool-cases (text_eq h name)) [
  | inl e ↦ rw e refl
  | inr e ↦ rw e (ap suc (length-remove name hs (rw e at t)))
]

taken-remove :
    (name other : Text) (hs : List Text)
    → other ≢ name
    → taken hs other ≡ true
    → taken (remove name hs) other ≡ true
unfolding taken remove
taken-remove name other [] n t = t
taken-remove name other (h ∷ hs) n t = elim (Bool-cases (text_eq h name)) [
  | inl e ↦ ground (arith, e, t, text_eq_iff h name, text_eq_iff h other)
  | inr e ↦ elim (Bool-cases (text_eq h other)) [
    | inl f ↦ rw (e, taken, f) refl
    | inr f ↦ rw (e, taken, f) (taken-remove name other hs n (rw f at t))
  ]
]

AllTaken : List Text → List Text → Type 0
AllTaken hs = All (λ n. taken hs n ≡ true)

-- No two of the names are the same.
AllDifferent : List Text → Type 0
AllDifferent [] = Unit {0}
AllDifferent (n ∷ ns) = All (λ m. m ≢ n) ns × AllDifferent ns

all-remove :
    (name : Text) (ns hs : List Text)
    → All (λ m. m ≢ name) ns
    → AllTaken hs ns
    → AllTaken (remove name hs) ns
unfolding AllTaken
all-remove name [] hs d t = tt
all-remove name (n ∷ ns) hs d t = (taken-remove name n hs d.0 t.0, all-remove name ns hs d.1 t.1)

-- Different names that are all taken are no more than the headers.
taken_count : (ns hs : List Text) → AllDifferent ns → AllTaken hs ns → length ns ≤ length hs
unfolding AllTaken AllDifferent
taken_count [] hs d t = omega arith
taken_count (n ∷ ns) hs d t =
    omega
      (arith, length-remove n hs t.0, taken_count ns (remove n hs) d.1 (all-remove n ns hs d.0 t.1))

append_inj : (xs ys zs : Text) → xs ++ ys ≡ xs ++ zs → ys ≡ zs
append_inj [] ys zs e = e
append_inj (x ∷ xs) ys zs e = append_inj xs ys zs (cc)

candidate_inj :
    (base : Text) (a b : ℕ) → a < 65535 → b < 65535 → candidate base a ≡ candidate base b → a ≡ b
candidate_inj base a b h k e = to_string_inj a b h k (let tails = append_inj base _ _ e in cc)

-- The candidates of the rounds that are left.
candidates : ℕ → ℕ → Text → List Text
candidates zero a base = []
candidates (suc left) a base = candidate base a ∷ candidates left (a + 1) base

length-candidates : (left a : ℕ) (base : Text) → length (candidates left a base) ≡ left
unfolding candidates
length-candidates zero a base = refl
length-candidates (suc left) a base = ap suc (length-candidates left (a + 1) base)

candidate_before :
    (left a b : ℕ) (base : Text)
    → b < a
    → a + left ≤ 65535
    → All (λ m. m ≢ candidate base b) (candidates left a base)
unfolding candidates
candidate_before zero a b base h k = tt
candidate_before (suc left) a b base h k = (
  λ e. absurd (omega (arith, candidate_inj base a b (omega arith) (omega arith) e)),
  candidate_before left (a + 1) b base (omega arith) (omega arith),
)

candidates-AllDifferent :
    (left a : ℕ) (base : Text) → a + left ≤ 65535 → AllDifferent (candidates left a base)
unfolding candidates AllDifferent
candidates-AllDifferent zero a base h = tt
candidates-AllDifferent (suc left) a base h = (
  candidate_before left (a + 1) a base (omega arith) (omega arith),
  candidates-AllDifferent left (a + 1) base (omega arith),
)

-- The loop gives a name, or all its candidates are taken.
unique_name-taken :
    (left a : ℕ) (base : Text) (hs : List Text)
    → ((name : Text) × (unique_name left a base hs ≡ ok name))
      ⊎ AllTaken hs (candidates left a base)
unfolding unique_name candidates AllTaken
unique_name-taken zero a base hs = inr tt
unique_name-taken (suc left) a base hs = elim (Bool-cases (taken hs (candidate base a))) [
  | inl e ↦ elim (unique_name-taken left (a + 1) base hs) [
    | inl f ↦ inl (f.0, rw e (f.1))
    | inr f ↦ inr (e, f)
  ]
  | inr e ↦ inl (candidate base a, rw e refl)
]

-- With fewer than 2 ^ 16 - 1 headers a free name is found.
pub unique_name-found :
    (base : Text) (hs : List Text)
    → length hs < 65535
    → (name : Text) × (unique_name 65535 0 base hs ≡ ok name)
unique_name-found base hs h = elim (unique_name-taken 65535 0 base hs) [
  | inl f ↦ f
  | inr t ↦ absurd (
      omega (
        arith,
        h,
        length-candidates 65535 0 base,
        taken_count (candidates 65535 0 base) hs
            (candidates-AllDifferent 65535 0 base (omega arith)) t,
      ))
]
