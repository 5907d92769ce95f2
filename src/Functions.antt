-- ===== src/Functions.antt =====
-- src/functions.cpp and hdr/bren/functions.hpp: HTML character references, and `join`.
pub mod References
mod Checks
mod Tests
use brenlib.Prelude.{
  ℕ, zero, suc, Bool, true, false, not, ◌&&◌, ltb, ◌==◌, if◌then◌else◌, List, [], ◌∷◌, ◌++◌, Option,
  none, some, length,
}
use brenlib.Prelude.Text.{Text, codes}
use brenlib.Prelude.Maps.{lookup, text_key}

-- hcerc2asc
abbrev pub hcerc2asc : List (Text × ℕ)
hcerc2asc =
    (codes "amp", b'&')
    ∷ (codes "gt", b'>')
    ∷ (codes "lt", b'<')
    ∷ (codes "nbsp", b' ')
    ∷ (codes "plus", b'+')
    ∷ (codes "quest", b'?')
    ∷ []

-- The loop that computes `maxlen`.
pub longest : ℕ → List (Text × ℕ) → ℕ
longest n [] = n
longest n ((k, c) ∷ rest) = longest (if ltb n (length k) then length k else n) rest

-- The text before the next semicolon, and the text behind it.
pub until_semicolon : Text → Option (Text × Text)
until_semicolon [] = none
until_semicolon (c ∷ cs) =
    let later = until_semicolon cs in
    if c == b';' then some ([], cs) else elim later [ none ↦ none | some p ↦ some (c ∷ p.0, p.1) ]

-- The loop, on the text from position `amp` on. What is left of it is copied when the loop ends.
pub replace_from : ℕ → Text → Text
unfolding longest until_semicolon lookup
replace_from zero s = s
replace_from (suc fuel) [] = []
replace_from (suc fuel) (c ∷ cs) =
    let onward = c ∷ replace_from fuel cs in
    if not (c == b'&') then onward else elim (until_semicolon cs) [
      | none ↦ c ∷ cs
      | some p ↦
          if ltb (longest 0 hcerc2asc) (length p.0) then onward else elim (lookup p.0 hcerc2asc) [
            | none ↦ c ∷ (p.0 ++ b';' ∷ replace_from fuel p.1)
            | some a ↦ a ∷ replace_from fuel p.1
          ]
    ]

-- `htmlCharEntRefCodes2ascii`. Each round passes a byte at least.
pub html_to_ascii : Text → Text
unfolding replace_from
html_to_ascii s = replace_from (suc (length s)) s

module _ {A : Type 0} (separator : Text) (extract : A → Text) (last : Text) where
  -- The loop of `join`, after the first item.
  pub join_rest : List A → Text
  join_rest [] = []
  join_rest (x ∷ xs) =
      (if (length xs == 0) && not (length last == 0) then last else separator)
      ++ (extract x ++ join_rest xs)

  -- `join`
  pub join : List A → Text
  unfolding join_rest
  join [] = []
  join (x ∷ xs) = extract x ++ join_rest xs

-- `epoch2iso8601`; `now` is what `time` answers, and `formatted` what `localtime_r` and `strftime` make
-- of a time with the format "%F %T". If that and the zero byte behind it do not fit in 20 bytes, what
-- the array holds is not defined.
pub epoch2iso8601 : (now : ℕ) (formatted : ℕ → Text) → ℕ → Option Text
epoch2iso8601 now formatted timestamp =
    let str = formatted (if timestamp == 0 then now else timestamp) in
    if ltb (length str) 20 then some str else none
