-- ===== src/Base64/Decoding.antt =====
-- Base64 texts of hdr/bren/Base64.hpp: what is encoded is decoded, and how long it is.
use Prim.Native.Nat.{bit_and}
use mathlib.Core.List.{append_assoc, append-nil}
use brenlib.Prelude.{
  ℕ, ◌+◌, ◌*◌, ◌/◌, ◌%◌, ◌<◌, ◌≡◌, refl, ap, arith, [], ◌∷◌, ◌++◌, ok, ◌>>=◌, length, All, ◌∙◌, sym,
  ◌≢◌, take,
}
use brenlib.Prelude.Text.{Text, IsByte}
use brenlib.Base64.{
  shl, letter, first_letter, second_letter, third_letter, fourth_letter, encode, index, Quad, quad,
  take_value, is_skipped, decode_from, decode, strlen, encode_string,
}
use brenlib.Base64.Bits.{join_4, join_16, join_64, masks, shifts, index-letter}

-- The letters by arithmetic.
first_letter-value : (a : ℕ) → IsByte a → first_letter a ≡ letter (a / 4)
unfolding first_letter
first_letter-value a h = ap letter ((masks a h).top_6)

second_letter-value :
    (a b : ℕ) → IsByte a → IsByte b → second_letter a b ≡ letter (a % 4 * 16 + b / 16)
unfolding second_letter
second_letter-value a b ha hb =
    rw ((masks a ha).low_2, (masks b hb).top_4)
      (ap letter (join_16 (a % 4) (b / 16) (omega arith) (omega arith)))

third_letter-value :
    (b c : ℕ) → IsByte b → IsByte c → third_letter b c ≡ letter (b % 16 * 4 + c / 64)
unfolding third_letter
third_letter-value b c hb hc =
    rw ((masks b hb).low_4, (masks c hc).top_2)
      (ap letter (join_4 (b % 16) (c / 64) (omega arith) (omega arith)))

fourth_letter-value : (c : ℕ) → IsByte c → fourth_letter c ≡ letter (c % 64)
unfolding fourth_letter
fourth_letter-value c h = ap letter ((masks c h).low_6)

-- A letter is read as its value.
decode-letter :
    (q : Quad) (v : ℕ) (cs : Text)
    → v < 64
    → decode_from q (letter v ∷ cs) ≡ (take_value q v >>= λ q'. decode_from q' cs)
unfolding decode_from
decode-letter q v cs h = rw (index-letter v h, decode_from) (rw ((shifts v h).none_above))

-- The four steps of a quad.
take_first : (d : Text) (v : ℕ) → v < 64 → take_value (quad 0 0 d) v ≡ ok (quad 1 (v * 4) d)
unfolding take_value
take_first d v h = rw ((shifts v h).up_2)

take_second :
    (d : Text) (u v : ℕ)
    → u < 64
    → v < 64
    → take_value (quad 1 (u * 4) d) v ≡ ok (quad 2 (v % 16 * 16) (d ++ (u * 4 + v / 16) ∷ []))
unfolding take_value
take_second d u v hu hv =
    rw ((shifts v hv).up_4, (shifts v hv).down_4, join_4 u (v / 16) hu (omega arith))

take_third :
    (d : Text) (u v : ℕ)
    → u < 16
    → v < 64
    → take_value (quad 2 (u * 16) d) v ≡ ok (quad 3 (v % 4 * 64) (d ++ (u * 16 + v / 4) ∷ []))
unfolding take_value
take_third d u v hu hv =
    rw ((shifts v hv).up_6, (shifts v hv).down_2, join_16 u (v / 4) hu (omega arith))

take_fourth :
    (d : Text) (u v : ℕ)
    → u < 4
    → v < 64
    → take_value (quad 3 (u * 64) d) v ≡ ok (quad 0 0 (d ++ (u * 64 + v) ∷ []))
unfolding take_value
take_fourth d u v hu hv = rw ((shifts v hv).keep_6, join_64 u v hu hv)

-- The first two letters of a byte, and those of the next one.
decode_one :
    (d cs : Text) (a v : ℕ)
    → IsByte a
    → v < 64
    → v / 16 ≡ a % 4
    → decode_from (quad 0 0 d) (first_letter a ∷ letter v ∷ cs)
      ≡ decode_from (quad 2 (v % 16 * 16) (d ++ a ∷ [])) cs
decode_one d cs a v ha hv e =
    let whole : a / 4 * 4 + v / 16 ≡ a = omega arith in
    rw (
      first_letter-value a ha,
      decode-letter (quad 0 0 d) (a / 4) (letter v ∷ cs) (omega arith),
      take_first d (a / 4) (omega arith),
      decode-letter (quad 1 (a / 4 * 4) d) v cs hv,
      take_second d (a / 4) v (omega arith) hv,
      whole,
    )

decode_two :
    (d cs : Text) (b u v : ℕ)
    → IsByte b
    → u ≡ b / 16
    → v < 64
    → v / 4 ≡ b % 16
    → decode_from (quad 2 (u * 16) d) (letter v ∷ cs)
      ≡ decode_from (quad 3 (v % 4 * 64) (d ++ b ∷ [])) cs
decode_two d cs b u v hb hu hv e =
    let whole : u * 16 + v / 4 ≡ b = omega arith in
    rw (decode-letter (quad 2 (u * 16) d) v cs hv, take_third d u v (omega arith) hv, whole)

decode_three :
    (d cs : Text) (c u : ℕ)
    → IsByte c
    → u ≡ c / 64
    → decode_from (quad 3 (u * 64) d) (fourth_letter c ∷ cs)
      ≡ decode_from (quad 0 0 (d ++ c ∷ [])) cs
decode_three d cs c u hc hu =
    let whole : u * 64 + c % 64 ≡ c = omega arith in
    rw (
      fourth_letter-value c hc,
      decode-letter (quad 3 (u * 64) d) (c % 64) cs (omega arith),
      take_fourth d u (c % 64) (omega arith) (omega arith),
      whole,
    )

-- A padding sign after the second or third letter ends the text.
decode-pad : (o b : ℕ) (d cs : Text) → 1 < o → decode_from (quad o b d) (b'=' ∷ cs) ≡ ok d
unfolding decode_from index is_skipped
decode-pad o b d cs h = ground arith

last_of_one : (a : ℕ) → IsByte a → letter (shl (bit_and a 0x03) 4) ≡ letter (a % 4 * 16)
last_of_one a h = ap (λ k. letter (k * 16)) ((masks a h).low_2)

last_of_two : (b : ℕ) → IsByte b → letter (shl (bit_and b 0x0F) 2) ≡ letter (b % 16 * 4)
last_of_two b h = ap (λ k. letter (k * 4)) ((masks b h).low_4)

decode-end : (q : Quad) → decode_from q [] ≡ ok q.bytes
unfolding decode_from
decode-end q = refl

decode-encode_from :
    (xs d : Text) → All IsByte xs → decode_from (quad 0 0 d) (encode xs) ≡ ok (d ++ xs)
unfolding encode
decode-encode_from [] d h = decode-end (quad 0 0 d) ∙ ap ok (sym (append-nil d))
decode-encode_from (a ∷ []) d h = rw (
  last_of_one a h.0,
  decode_one d (b'=' ∷ b'=' ∷ []) a (a % 4 * 16) h.0 (omega arith) (omega arith),
  decode-pad 2 (a % 4 * 16 % 16 * 16) (d ++ a ∷ []) (b'=' ∷ []) (omega arith),
)
decode-encode_from (a ∷ b ∷ []) d h =
    let v = a % 4 * 16 + b / 16 in
    let w = b % 16 * 4 in
    rw (
      second_letter-value a b h.0 h.1.0,
      last_of_two b h.1.0,
      decode_one d (letter w ∷ b'=' ∷ []) a v h.0 (omega arith) (omega arith),
      decode_two (d ++ a ∷ []) (b'=' ∷ []) b (v % 16) w h.1.0 (omega arith) (omega arith)
          (omega arith),
      decode-pad 3 (w % 4 * 64) ((d ++ a ∷ []) ++ b ∷ []) [] (omega arith),
      append_assoc d (a ∷ []) (b ∷ []),
    )
decode-encode_from (a ∷ b ∷ c ∷ rest) d h =
    let v = a % 4 * 16 + b / 16 in
    let w = b % 16 * 4 + c / 64 in
    rw (
      second_letter-value a b h.0 h.1.0,
      third_letter-value b c h.1.0 h.1.1.0,
      decode_one d (letter w ∷ fourth_letter c ∷ encode rest) a v h.0 (omega arith) (omega arith),
      decode_two (d ++ a ∷ []) (fourth_letter c ∷ encode rest) b (v % 16) w h.1.0 (omega arith)
          (omega arith) (omega arith),
      decode_three ((d ++ a ∷ []) ++ b ∷ []) (encode rest) c (w % 4) h.1.1.0 (omega arith),
      decode-encode_from rest (((d ++ a ∷ []) ++ b ∷ []) ++ c ∷ []) h.1.1.1,
      append_assoc ((d ++ a ∷ []) ++ b ∷ []) (c ∷ []) rest,
      append_assoc (d ++ a ∷ []) (b ∷ []) (c ∷ rest),
      append_assoc d (a ∷ []) (b ∷ c ∷ rest),
    )

-- Any bytes are decoded as they were encoded.
pub decode-encode : (xs : Text) → All IsByte xs → decode (encode xs) ≡ ok xs
unfolding decode
decode-encode xs h = decode-encode_from xs [] h

take-strlen :
    (xs behind : Text)
    → All (λ c. c ≢ 0) xs
    → take (strlen (xs ++ 0 ∷ behind)) (xs ++ 0 ∷ behind) ≡ xs
unfolding strlen
take-strlen [] behind h = refl
take-strlen (c ∷ cs) behind h = ground (arith, h.0, take-strlen cs behind h.1)

-- A C string is decoded as it was encoded, whatever stands behind its end.
pub decode-encode_string :
    (xs behind : Text)
    → All IsByte xs
    → All (λ c. c ≢ 0) xs
    → decode (encode_string (xs ++ 0 ∷ behind)) ≡ ok xs
unfolding encode_string
decode-encode_string xs behind h n =
    ap (λ t. decode (encode t)) (take-strlen xs behind n) ∙ decode-encode xs h

-- A text of n bytes is encoded in four letters for each three bytes or part of them.
pub length-encode : (xs : Text) → length (encode xs) ≡ (length xs + 2) / 3 * 4
unfolding encode
length-encode [] = refl
length-encode (a ∷ []) = refl
length-encode (a ∷ b ∷ []) = refl
length-encode (a ∷ b ∷ c ∷ rest) = omega (arith, length-encode rest)
