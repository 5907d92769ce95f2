-- ===== src/Functions/Checks.antt =====
-- The unit tests of src/functions.cpp, chk/functions.cpp.
use brenlib.Prelude.{ℕ, ◌+◌, ◌*◌, List, [], ◌∷◌, ok, ◌>>◌, ◌≡◌, refl}
use brenlib.Prelude.Text.{Text, text_eq, codes, to_string}
use brenlib.Prelude.Asserts.{Check, assert}
use brenlib.Functions.{html_to_ascii, join}

abbrev reads : Text → Text → Check
reads expected text = assert (text_eq expected (html_to_ascii text))

pub check_hcerc2ascii : Check
check_hcerc2ascii = do
  let s = codes "Plain old string without HTML Character Entity Reference Codes"
  reads s s
  reads (codes "&amp stuff") (codes "&amp stuff")
  reads (codes "justsc;") (codes "justsc;")
  reads (codes "&stretchedlong;") (codes "&stretchedlong;")
  reads (codes "&amp;") (codes "&amp;amp;")
  reads (codes "&&&") (codes "&amp;&amp;&")
  reads (codes "&;") (codes "&;")
  reads (codes "&what;") (codes "&what;")
  reads (codes " ") (codes "&nbsp;")
  reads (codes "?") (codes "&quest;")
  reads (codes "<") (codes "&lt;")

check_hcerc2ascii_passes : check_hcerc2ascii ≡ ok tt
unfolding check_hcerc2ascii html_to_ascii
check_hcerc2ascii_passes = refl

-- `extract` is by default what gives the text of a number.
abbrev joins : Text → Text → (ℕ → Text) → Text → List ℕ → Check
joins expected separator extract last v = assert (text_eq expected (join separator extract last v))

pub check_join : Check
check_join = do
  joins [] (codes ", ") to_string [] []
  joins [] (codes "sepstr") to_string [] []
  joins [] (codes "><") to_string [] []
  let v = 42 ∷ 23 ∷ 119 ∷ []
  joins (codes "42, 23, 119") (codes ", ") to_string [] v
  joins (codes "4223119") [] to_string [] v
  joins (codes "42}{23}{119") (codes "}{") to_string [] v
  joins (codes "420 230 1190") (codes " ") (λ d. to_string (d * 10)) [] v
  joins (codes "43, 24 or 120") (codes ", ") (λ d. to_string (d + 1)) (codes " or ") v

check_join_passes : check_join ≡ ok tt
unfolding check_join join to_string
check_join_passes = refl
