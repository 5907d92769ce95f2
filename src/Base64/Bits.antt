-- ===== src/Base64/Bits.antt =====
-- The bit operations of hdr/bren/Base64.hpp as arithmetic, by checking every value in range.
use Prim.Native.Nat.{bit_and, bit_or}
use brenlib.Prelude.{
  ℕ, zero, suc, ◌+◌, ◌*◌, ◌/◌, ◌%◌, ◌<◌, Bool, true, false, ◌==◌, ◌&&◌, ◌≡◌, refl, arith, ==_iff,
  Option, none, some,
}
use brenlib.Base64.{letter, index}

all_below : ℕ → (ℕ → Bool) → Bool
all_below zero p = true
all_below (suc n) p = p n && all_below n p

holds : (n : ℕ) (p : ℕ → Bool) (x : ℕ) → all_below n p ≡ true → x < n → p x ≡ true
unfolding all_below
holds zero p x h lt = absurd (omega arith)
holds (suc n) p x h lt = ground (arith, holds n p x)

equal_below :
    (n : ℕ) (f g : ℕ → ℕ) (x : ℕ) → all_below n (λ y. f y == g y) ≡ true → x < n → f x ≡ g x
equal_below n f g x h lt = (==_iff (f x) (g x)).0 (holds n (λ y. f y == g y) x h lt)

-- Two numbers below 16 and 64, or so, as one: x is x / n and x % n.
or_below :
    (n u : ℕ)
    → all_below 256 (λ y. bit_or (y / n * u) (y % n) == y / n * u + y % n) ≡ true
    → (x : ℕ) → x < 256
    → bit_or (x / n * u) (x % n) ≡ x / n * u + x % n
or_below n u h x lt =
    equal_below 256 (λ y. bit_or (y / n * u) (y % n)) (λ y. y / n * u + y % n) x h lt

or_4 : (x : ℕ) → x < 256 → bit_or (x / 4 * 4) (x % 4) ≡ x / 4 * 4 + x % 4
unfolding all_below
or_4 = or_below 4 4 refl

or_16 : (x : ℕ) → x < 256 → bit_or (x / 16 * 16) (x % 16) ≡ x / 16 * 16 + x % 16
unfolding all_below
or_16 = or_below 16 16 refl

or_64 : (x : ℕ) → x < 256 → bit_or (x / 64 * 64) (x % 64) ≡ x / 64 * 64 + x % 64
unfolding all_below
or_64 = or_below 64 64 refl

-- Joining high bits with low ones is addition.
pub join_4 : (h l : ℕ) → h < 64 → l < 4 → bit_or (h * 4) l ≡ h * 4 + l
join_4 h l hh hl =
    let e : (h * 4 + l) / 4 ≡ h = omega arith in
    let f : (h * 4 + l) % 4 ≡ l = omega arith in rw (e, f) at (or_4 (h * 4 + l) (omega arith))

pub join_16 : (h l : ℕ) → h < 16 → l < 16 → bit_or (h * 16) l ≡ h * 16 + l
join_16 h l hh hl =
    let e : (h * 16 + l) / 16 ≡ h = omega arith in
    let f : (h * 16 + l) % 16 ≡ l = omega arith in rw (e, f) at (or_16 (h * 16 + l) (omega arith))

pub join_64 : (h l : ℕ) → h < 4 → l < 64 → bit_or (h * 64) l ≡ h * 64 + l
join_64 h l hh hl =
    let e : (h * 64 + l) / 64 ≡ h = omega arith in
    let f : (h * 64 + l) % 64 ≡ l = omega arith in rw (e, f) at (or_64 (h * 64 + l) (omega arith))

-- The masks on a byte.
pub record Masks (x : ℕ) : Type 0 where
  pub low_2 : bit_and x 0x03 ≡ x % 4
  pub low_4 : bit_and x 0x0F ≡ x % 16
  pub low_6 : bit_and x 0x3F ≡ x % 64
  pub top_6 : bit_and (x / 4) 0x3F ≡ x / 4
  pub top_4 : bit_and (x / 16) 0x0F ≡ x / 16
  pub top_2 : bit_and (x / 64) 0x03 ≡ x / 64

pub masks : (x : ℕ) → x < 256 → Masks x
unfolding all_below
masks x h = record {
  low_2 = equal_below 256 (λ y. bit_and y 0x03) (λ y. y % 4) x refl h;
  low_4 = equal_below 256 (λ y. bit_and y 0x0F) (λ y. y % 16) x refl h;
  low_6 = equal_below 256 (λ y. bit_and y 0x3F) (λ y. y % 64) x refl h;
  top_6 = equal_below 256 (λ y. bit_and (y / 4) 0x3F) (λ y. y / 4) x refl h;
  top_4 = equal_below 256 (λ y. bit_and (y / 16) 0x0F) (λ y. y / 16) x refl h;
  top_2 = equal_below 256 (λ y. bit_and (y / 64) 0x03) (λ y. y / 64) x refl h;
}

-- The masks on the value of a letter, shifted.
pub record Shifts (v : ℕ) : Type 0 where
  pub keep_6 : bit_and v 0x3F ≡ v
  pub none_above : bit_and v 0xC0 ≡ 0
  pub up_2 : bit_and (v * 4) 0xFC ≡ v * 4
  pub up_4 : bit_and (v * 16) 0xF0 ≡ v % 16 * 16
  pub up_6 : bit_and (v * 64) 0xC0 ≡ v % 4 * 64
  pub down_4 : bit_and (v / 16) 0x03 ≡ v / 16
  pub down_2 : bit_and (v / 4) 0x0F ≡ v / 4

pub shifts : (v : ℕ) → v < 64 → Shifts v
unfolding all_below
shifts v h = record {
  keep_6 = equal_below 64 (λ y. bit_and y 0x3F) (λ y. y) v refl h;
  none_above = equal_below 64 (λ y. bit_and y 0xC0) (λ y. 0) v refl h;
  up_2 = equal_below 64 (λ y. bit_and (y * 4) 0xFC) (λ y. y * 4) v refl h;
  up_4 = equal_below 64 (λ y. bit_and (y * 16) 0xF0) (λ y. y % 16 * 16) v refl h;
  up_6 = equal_below 64 (λ y. bit_and (y * 64) 0xC0) (λ y. y % 4 * 64) v refl h;
  down_4 = equal_below 64 (λ y. bit_and (y / 16) 0x03) (λ y. y / 16) v refl h;
  down_2 = equal_below 64 (λ y. bit_and (y / 4) 0x0F) (λ y. y / 4) v refl h;
}

abbrev found_at : ℕ → Option ℕ → Bool
found_at v none = false
found_at v (some w) = w == v

found_at-eq : (v : ℕ) (o : Option ℕ) → found_at v o ≡ true → o ≡ some v
found_at-eq v none h = cc
found_at-eq v (some w) h = ground arith

-- Every letter is found at its own place.
pub index-letter : (v : ℕ) → v < 64 → index (letter v) ≡ some v
unfolding all_below index letter
index-letter v h =
    found_at-eq v (index (letter v)) (holds 64 (λ y. found_at y (index (letter y))) v refl h)
