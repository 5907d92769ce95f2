-- ===== src/Tokenize.antt =====
-- src/Tokenize.cpp. A position is what is left of the text from it on; `npos` is `none`.
pub mod Tokens
mod Tests
use brenlib.Prelude.{
  ℕ, zero, suc, Bool, true, false, not, if◌then◌else◌, List, [], ◌∷◌, ◌++◌, Option, none, some,
  length,
}
use brenlib.Prelude.Text.{Text, elem}

-- str.find_first_not_of(delimiters, pos), from the text at `pos` on.
pub skip_delimiters : Text → Text → Text
skip_delimiters ds [] = []
skip_delimiters ds (c ∷ cs) =
    let later = skip_delimiters ds cs in if elem c ds then later else c ∷ cs

-- str.find_first_of(delimiters, pos): the token before that place, and the text from it on.
pub find_delimiter : Text → Text → Text × Text
find_delimiter ds [] = ([], [])
find_delimiter ds (c ∷ cs) =
    let (token, left) = find_delimiter ds cs in
    if elem c ds then ([], c ∷ cs) else (c ∷ token, left)

-- The loop, at `lastPos`; the text has no delimiter there. `npos` is the empty text: the loop ends
-- when both positions are `npos`, which is when `lastPos` is.
pub tokens_from : ℕ → Text → Text → List Text
tokens_from zero ds s = []
tokens_from (suc fuel) ds [] = []
tokens_from (suc fuel) ds (c ∷ cs) =
    let (token, left) = find_delimiter ds (c ∷ cs) in
    token ∷ tokens_from fuel ds (skip_delimiters ds left)

-- `Tokenize`. Each round takes a byte at least.
pub tokenize : Text → Text → List Text
unfolding skip_delimiters find_delimiter tokens_from
tokenize s ds = tokens_from (suc (length s)) ds (skip_delimiters ds s)
