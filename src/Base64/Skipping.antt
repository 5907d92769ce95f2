-- ===== src/Base64/Skipping.antt =====
-- What the decoder of hdr/bren/Base64.hpp passes over.
use Prim.Native.Nat.{bit_and}
use brenlib.Prelude.{
  ℕ, true, ◌==◌, ◌≡◌, refl, ap, arith, [], ◌∷◌, none, Result, ok, err, ◌>>=◌, if◌then◌else◌,
  Bool-cases, inl, inr, ◌∙◌, sym, logic_error, Option-cases, ◌⊎◌,
}
use brenlib.Prelude.Text.{Text}
use brenlib.Base64.{index, Quad, quad, take_value, is_skipped, decode_from, decode}

-- The text without the bytes that are passed over.
pub strip : Text → Text
strip [] = []
strip (c ∷ cs) = let rest = strip cs in if is_skipped c then rest else c ∷ rest

skipped_cases : (c : ℕ) → is_skipped c ≡ true → (c ≡ 13) ⊎ ((c ≡ 10) ⊎ (c ≡ 92))
unfolding is_skipped
skipped_cases c h = ground arith

-- A byte that is passed over is no letter.
index-skipped : (c : ℕ) → is_skipped c ≡ true → index c ≡ none
unfolding index
index-skipped c h = elim (skipped_cases c h) [
  | inl e ↦ rw (e)
  | inr (inl e) ↦ rw (e)
  | inr (inr e) ↦ rw (e)
]

decode-skipped :
    (q : Quad) (c : ℕ) (cs : Text) → is_skipped c ≡ true → decode_from q (c ∷ cs) ≡ decode_from q cs
unfolding decode_from
decode-skipped q c cs h = rw (index-skipped c h, decode_from) (rw h)

>>=-cong :
    {A B : Type 0} (m : Result A) (f g : A → Result B)
    → ((a : A) → f a ≡ g a)
    → (m >>= f) ≡ (m >>= g)
>>=-cong (ok a) f g h = h a
>>=-cong (err e) f g h = refl

decode_cong :
    (q : Quad) (c : ℕ) (s t : Text)
    → ((q' : Quad) → decode_from q' s ≡ decode_from q' t)
    → decode_from q (c ∷ s) ≡ decode_from q (c ∷ t)
unfolding decode_from
decode_cong q c s t h = elim (Option-cases (index c)) [
  | inl e ↦ rw (e, decode_from) (rw (h q))
  | inr (v, e) ↦
      rw (e, decode_from)
        (ap (λ r. if bit_and v 0xC0 == 0 then r else err logic_error)
          (>>=-cong (take_value q v) (λ q'. decode_from q' s) (λ q'. decode_from q' t) h))
]

decode-strip_from : (s : Text) (q : Quad) → decode_from q (strip s) ≡ decode_from q s
unfolding strip
decode-strip_from [] q = refl
decode-strip_from (c ∷ cs) q = elim (Bool-cases (is_skipped c)) [
  | inl e ↦ rw e (decode-strip_from cs q ∙ sym (decode-skipped q c cs e))
  | inr e ↦ rw e (decode_cong q c (strip cs) cs (decode-strip_from cs))
]

-- Line ends and backslashes anywhere in a text change nothing.
pub decode-strip : (s : Text) → decode (strip s) ≡ decode s
unfolding decode
decode-strip s = decode-strip_from s (quad 0 0 [])
