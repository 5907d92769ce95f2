-- ===== src/Base64/Lengths.antt =====
-- How long the texts of hdr/bren/Base64.hpp are.
use brenlib.Prelude.{
  ℕ, ◌+◌, ◌-◌, ◌*◌, ◌/◌, ◌≤◌, ◌==◌, if◌then◌else◌, [], ◌∷◌, length, Result, ok, err, ◌≡◌, refl,
  arith, Option-cases, ◌⊎◌, Error, inl, inr, length-append,
}
use brenlib.Prelude.Text.{Text}
use brenlib.Base64.{Quad, encode, index, take_value, decode_from, decode}

-- Three bytes, or what is left of them, become four letters.
pub length-encode : (xs : Text) → length (encode xs) ≡ (length xs + 2) / 3 * 4
unfolding encode
length-encode [] = omega arith
length-encode (a ∷ []) = omega arith
length-encode (a ∷ b ∷ []) = omega arith
length-encode (a ∷ b ∷ c ∷ rest) = omega (arith, length-encode rest)

-- What a quad that has begun may still become, in quarters of a byte.
abbrev pending : ℕ → ℕ
pending o = if o == 0 then 0 else 4 - o

-- Three quarters of a byte for each letter.
take_value-length :
    (q q' : Quad) (v : ℕ)
    → take_value q v ≡ ok q'
    → 4 * length q'.bytes + pending q'.offset ≡ 4 * length q.bytes + pending q.offset + 3
unfolding take_value
take_value-length q q' v h = grind (arith, length-append)

taken_or_not : (r : Result Quad) → ((q : Quad) × (r ≡ ok q)) ⊎ ((x : Error) × (r ≡ err x))
taken_or_not (ok q) = inl (q, refl)
taken_or_not (err x) = inr (x, refl)

decode_from-length :
    (s out : Text) (q : Quad)
    → decode_from q s ≡ ok out
    → 4 * length out ≤ 4 * length q.bytes + pending q.offset + 3 * length s
unfolding decode_from
decode_from-length [] out q h = ground arith
decode_from-length (c ∷ cs) out q h = elim (Option-cases (index c)) [
  | inl e ↦ ground (arith, e, h, decode_from-length cs out q)
  | inr (v, e) ↦ elim (taken_or_not (take_value q v)) [
    | inl (q', f) ↦
        ground (arith, e, f, h, take_value-length q q' v f, decode_from-length cs out q')
    | inr (x, f) ↦ ground (arith, e, f, h)
  ]
]

-- Decoding gives three bytes for four bytes of the text at most.
pub length-decode : (s out : Text) → decode s ≡ ok out → 4 * length out ≤ 3 * length s
unfolding decode
length-decode s out h = omega (arith, decode_from-length s out _ h)
