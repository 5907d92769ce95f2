-- ===== src/Base64.antt =====
-- hdr/bren/Base64.hpp, with T = unsigned char: a byte is a number below 256.
pub mod Bits
pub mod Decoding
pub mod Skipping
pub mod Lengths
mod Tests
use Prim.Native.Nat.{bit_and, bit_or}
use brenlib.Prelude.{
  ℕ, zero, suc, ◌+◌, ◌*◌, ◌/◌, ◌%◌, ◌^◌, Bool, true, false, leb, ◌==◌, ◌||◌, if◌then◌else◌, List,
  [], ◌∷◌, ◌++◌, Option, none, some, get_elem?, take, Result, ok, err, Error, runtime_error,
  logic_error, ◌>>=◌,
}
use brenlib.Prelude.Text.{Text, codes}

abbrev pub b64 : Text
b64 = codes "ABCDEFGHIJKLMNOPQRSTUVWXYZabcdefghijklmnopqrstuvwxyz0123456789+/"

-- b64[k] at an index below 64
pub letter : ℕ → ℕ
letter k = elim (get_elem? b64 k) [ none ↦ 0 | some c ↦ c ]

-- x >> k and x << k
abbrev pub shr : ℕ → ℕ → ℕ
shr x k = x / 2 ^ k

abbrev pub shl : ℕ → ℕ → ℕ
shl x k = x * 2 ^ k

-- The letters that a byte, or two bytes that follow each other, give.
pub first_letter : ℕ → ℕ
first_letter a = letter (bit_and (shr a 2) 0x3F)

pub second_letter : ℕ → ℕ → ℕ
second_letter a b = letter (bit_or (shl (bit_and a 0x03) 4) (bit_and (shr b 4) 0x0F))

pub third_letter : ℕ → ℕ → ℕ
third_letter b c = letter (bit_or (shl (bit_and b 0x0F) 2) (bit_and (shr c 6) 0x03))

pub fourth_letter : ℕ → ℕ
fourth_letter c = letter (bit_and c 0x3F)

-- `base64encode`: whole triples, and then the `switch` on what is left.
pub encode : Text → Text
encode [] = []
encode (a ∷ []) = first_letter a ∷ letter (shl (bit_and a 0x03) 4) ∷ b'=' ∷ b'=' ∷ []
encode (a ∷ b ∷ []) =
    first_letter a ∷ second_letter a b ∷ letter (shl (bit_and b 0x0F) 2) ∷ b'=' ∷ []
encode (a ∷ b ∷ c ∷ rest) =
    first_letter a ∷ second_letter a b ∷ third_letter b c ∷ fourth_letter c ∷ encode rest

-- strlen: the number of bytes before the first zero byte.
pub strlen : Text → ℕ
strlen [] = 0
strlen (c ∷ cs) = let rest = strlen cs in if c == 0 then 0 else suc rest

-- `base64encode` of a C string, which `buffer` begins with
pub encode_string : Text → Text
unfolding strlen encode
encode_string buffer = encode (take (strlen buffer) buffer)

-- The place of a byte in a text, from place `i` on.
pub index_from : ℕ → ℕ → Text → Option ℕ
index_from i c [] = none
index_from i c (d ∷ ds) = if c == d then some i else index_from (i + 1) c ds

-- `index`: also finds the zero byte that ends the C string.
pub index : ℕ → Option ℕ
unfolding index_from
index c = index_from 0 c (b64 ++ 0 ∷ [])

-- The variables of the loop of `base64decode`.
pub record Quad : Type 0 where
  pub offset : ℕ
  pub b : ℕ
  pub bytes : Text

abbrev pub quad : ℕ → ℕ → Text → Quad
quad o b d = record { offset = o; b = b; bytes = d }

-- The second `switch`, on the value of a letter, and the step of `offset`.
pub take_value : Quad → ℕ → Result Quad
take_value q v =
    if q.offset == 3
    then ok (quad 0 0 (q.bytes ++ bit_or q.b (bit_and v 0x3F) ∷ []))
    else if q.offset == 2
    then ok (quad 3 (bit_and (shl v 6) 0xC0) (q.bytes ++ bit_or q.b (bit_and (shr v 2) 0x0F) ∷ []))
    else if q.offset == 1
    then ok (quad 2 (bit_and (shl v 4) 0xF0) (q.bytes ++ bit_or q.b (bit_and (shr v 4) 0x03) ∷ []))
    else if q.offset == 0
    then ok (quad 1 (bit_and (shl v 2) 0xFC) q.bytes)
    else err logic_error

-- The bytes that are passed over: `case '\r': case '\n': case '\\':`
pub is_skipped : ℕ → Bool
is_skipped c = (c == 13) || ((c == 10) || (c == 92))

-- The loop over the text.
pub decode_from : Quad → Text → Result Text
decode_from q [] = ok q.bytes
decode_from q (c ∷ cs) =
    let skip = decode_from q cs in
    let read = λ (v : ℕ). take_value q v >>= λ q'. decode_from q' cs in
    elim (index c) [
      | none ↦
          if is_skipped c
          then skip
          else if c == b'='
          then (if leb q.offset 1 then err runtime_error else ok q.bytes)
          else err runtime_error
      | some v ↦ if bit_and v 0xC0 == 0 then read v else err logic_error
    ]

-- `base64decode`
pub decode : Text → Result Text
unfolding index take_value is_skipped decode_from
decode s = decode_from (quad 0 0 []) s
