-- ===== src/Tokenize/Tests.antt =====
-- Runs of `tokenize`.
use brenlib.Prelude.{[], ◌∷◌, ◌≡◌, refl}
use brenlib.Prelude.Text.{codes}
use brenlib.Tokenize.{tokenize}
use brenlib.Tokenize.Tokens.{words, tokenize-words}

runs : tokenize (codes " a, bc,,d ") (codes " ,") ≡ codes "a" ∷ codes "bc" ∷ codes "d" ∷ []
unfolding tokenize
runs = refl

tokenize-words_example :
    tokenize (codes " a, bc,,d ") (codes " ,") ≡ words (codes " ,") (codes " a, bc,,d ")
tokenize-words_example = tokenize-words (codes " a, bc,,d ") (codes " ,")
