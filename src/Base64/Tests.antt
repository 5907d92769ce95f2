-- ===== src/Base64/Tests.antt =====
-- Runs of `encode` and `decode`.
use brenlib.Prelude.{ok, [], ◌∷◌, ◌≡◌, refl, arith}
use brenlib.Prelude.Text.{codes}
use brenlib.Base64.{encode, decode}
use brenlib.Base64.Decoding.{decode-encode}

runs :
    (encode (codes "Hello") ≡ codes "SGVsbG8=") × (decode (codes "SGVsbG8=") ≡ ok (codes "Hello"))
unfolding encode decode brenlib.Base64.first_letter brenlib.Base64.second_letter
    brenlib.Base64.third_letter brenlib.Base64.fourth_letter brenlib.Base64.letter
runs = (refl, refl)

decode-encode_example : decode (encode (200 ∷ 7 ∷ 0 ∷ 255 ∷ [])) ≡ ok (200 ∷ 7 ∷ 0 ∷ 255 ∷ [])
decode-encode_example =
    decode-encode (200 ∷ 7 ∷ 0 ∷ 255 ∷ [])
      (omega arith, (omega arith, (omega arith, (omega arith, tt))))
