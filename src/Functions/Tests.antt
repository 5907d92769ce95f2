-- ===== src/Functions/Tests.antt =====
-- Runs of `html_to_ascii` and `join`.
use brenlib.Prelude.{ℕ, some, [], ◌∷◌, ◌≡◌, refl}
use brenlib.Prelude.Text.{Text, codes}
use brenlib.Functions.{html_to_ascii, join, epoch2iso8601}
use brenlib.Functions.References.{to_html, html_to_ascii-to_html}

abbrev itself : Text → Text
itself t = t

runs :
    (html_to_ascii (codes "a&amp;b&bogus;&lt;") ≡ codes "a&b&bogus;<")
    × (join (codes ", ") itself (codes " and ") (codes "a" ∷ codes "b" ∷ codes "c" ∷ [])
        ≡ codes "a, b and c")
unfolding html_to_ascii join
runs = (refl, refl)

html_to_ascii-to_html_example : html_to_ascii (to_html (codes "a<b&&c>d")) ≡ codes "a<b&&c>d"
html_to_ascii-to_html_example = html_to_ascii-to_html (codes "a<b&&c>d")

abbrev formatted : ℕ → Text
formatted t = codes "2026-01-02 03:04:05"

shown : epoch2iso8601 9 formatted 0 ≡ some (codes "2026-01-02 03:04:05")
unfolding epoch2iso8601
shown = refl
