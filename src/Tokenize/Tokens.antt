-- ===== src/Tokenize/Tokens.antt =====
-- The tokens of src/Tokenize.cpp are the words of the text: the longest runs without a delimiter.
use brenlib.Prelude.{
  ℕ, zero, suc, ◌≤◌, ◌<◌, Bool, true, false, not, if◌then◌else◌, List, [], ◌∷◌, length, ◌≡◌, refl,
  arith, Bool-cases, inl, inr, ◌∙◌, ap,
}
use brenlib.Prelude.Text.{Text, elem}
use brenlib.Tokenize.{skip_delimiters, find_delimiter, tokens_from, tokenize}

-- Does a word begin here?
abbrev pub in_word : Text → Text → Bool
in_word ds [] = false
in_word ds (c ∷ cs) = not (elem c ds)

abbrev longer : ℕ → List Text → List Text
longer c [] = (c ∷ []) ∷ []
longer c (w ∷ ws) = (c ∷ w) ∷ ws

-- The words, from the right: a byte that is no delimiter makes the word behind it longer, or is a
-- word of its own.
pub words : Text → Text → List Text
words ds [] = []
words ds (c ∷ cs) =
    let rest = words ds cs in
    if elem c ds then rest else if in_word ds cs then longer c rest else (c ∷ []) ∷ rest

words-skip : (ds s : Text) → words ds (skip_delimiters ds s) ≡ words ds s
unfolding words skip_delimiters
words-skip ds [] = refl
words-skip ds (c ∷ cs) = elim (Bool-cases (elem c ds)) [
  | inl e ↦ rw e (words-skip ds cs)
  | inr e ↦ rw e (rw e)
]

words-longer :
    (ds : Text) (c d : ℕ) (cs : Text)
    → elem c ds ≡ false
    → elem d ds ≡ false
    → words ds (c ∷ d ∷ cs) ≡ longer c (words ds (d ∷ cs))
unfolding words
words-longer ds c d cs h e = rw (h, e)

words-last :
    (ds : Text) (c d : ℕ) (cs : Text)
    → elem c ds ≡ false
    → elem d ds ≡ true
    → words ds (c ∷ d ∷ cs) ≡ (c ∷ []) ∷ words ds (d ∷ cs)
unfolding words
words-last ds c d cs h e = rw (h, e)

find-cons :
    (ds : Text) (c : ℕ) (cs : Text)
    → elem c ds ≡ false
    → find_delimiter ds (c ∷ cs) ≡ (c ∷ (find_delimiter ds cs).0, (find_delimiter ds cs).1)
unfolding find_delimiter
find-cons ds c cs h = rw h

find-stop :
    (ds : Text) (c : ℕ) (cs : Text) → elem c ds ≡ true → find_delimiter ds (c ∷ cs) ≡ ([], c ∷ cs)
unfolding find_delimiter
find-stop ds c cs h = rw h

-- The token that is found at a text, and the words behind it.
abbrev split_off : Text → Text × Text → List Text
split_off ds (token, left) = token ∷ words ds left

-- A text that begins with a word splits into the token that is found and the words behind it.
words-find :
    (ds : Text) (c : ℕ) (cs : Text)
    → elem c ds ≡ false
    → words ds (c ∷ cs) ≡ split_off ds (find_delimiter ds (c ∷ cs))
words-find ds c [] h = unfold words find_delimiter in rw h
words-find ds c (d ∷ cs) h = elim (Bool-cases (elem d ds)) [
  | inl e ↦ rw (words-last ds c d cs h e, find-cons ds c (d ∷ cs) h, find-stop ds d cs e)
  | inr e ↦ rw (words-longer ds c d cs h e, find-cons ds c (d ∷ cs) h, words-find ds d cs e)
]

find-le : (ds s : Text) → length (find_delimiter ds s).1 ≤ length s
unfolding find_delimiter
find-le ds [] = omega arith
find-le ds (c ∷ cs) = ground (arith, find-le ds cs)

skip-le : (ds s : Text) → length (skip_delimiters ds s) ≤ length s
unfolding skip_delimiters
skip-le ds [] = omega arith
skip-le ds (c ∷ cs) = ground (arith, skip-le ds cs)

-- Where a word begins, the rest after its token is shorter.
find-lt :
    (ds : Text) (c : ℕ) (cs : Text)
    → elem c ds ≡ false
    → length (find_delimiter ds (c ∷ cs)).1 ≤ length cs
unfolding find_delimiter
find-lt ds c cs h = rw h (find-le ds cs)

-- After skipping, the text is at its end or at a word.
skip-in_word : (ds s : Text) (c : ℕ) (cs : Text) → skip_delimiters ds s ≡ c ∷ cs → elem c ds ≡ false
unfolding skip_delimiters
skip-in_word ds [] c cs h = cc
skip-in_word ds (d ∷ s) c cs h = elim (Bool-cases (elem d ds)) [
  | inl e ↦ skip-in_word ds s c cs (rw e at h)
  | inr e ↦ ground (arith, e, rw e at h)
]

words-tokens_from :
    (fuel : ℕ) (ds s r : Text)
    → skip_delimiters ds s ≡ r
    → length r < fuel
    → tokens_from fuel ds r ≡ words ds r
unfolding tokens_from
words-tokens_from zero ds s r e h = elim h [ ]
words-tokens_from (suc fuel) ds s [] e h = unfold words in refl
words-tokens_from (suc fuel) ds s (c ∷ cs) e h =
    let start = skip-in_word ds s c cs e in
    let left = (find_delimiter ds (c ∷ cs)).1 in
    let shorter : length (skip_delimiters ds left) < fuel =
      omega (arith, skip-le ds left, find-lt ds c cs start) in
    rw (words-find ds c cs start) (
      ap (λ ws. (find_delimiter ds (c ∷ cs)).0 ∷ ws)
        (words-tokens_from fuel ds left (skip_delimiters ds left) refl shorter
          ∙ words-skip ds left))

-- The tokens are the words of the text, in order; the loop ends.
pub tokenize-words : (s ds : Text) → tokenize s ds ≡ words ds s
unfolding tokenize
tokenize-words s ds =
    words-tokens_from (suc (length s)) ds s (skip_delimiters ds s) refl
      (omega (arith, skip-le ds s))
    ∙ words-skip ds s
