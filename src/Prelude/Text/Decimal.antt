-- ===== src/Prelude/Text/Decimal.antt =====
-- Reading back what fmt::format wrote with leading zeros.
use Prim.Native.Nat.{ℕ, suc, ◌+◌, ◌*◌, ◌/◌, ◌%◌, ◌<◌, ◌≤◌}
use mathlib.Core.Path.{◌≡◌}
use mathlib.Core.List.{[], ◌∷◌, ◌++◌}
use native.Mathlib.Omega.{arith}
use native.Mathlib.Decide.{dec_lt}
use brenlib.Prelude.Errors.{ok}
use brenlib.Prelude.Int.{pos}
use brenlib.Prelude.Text.{Text, digits_fuel, format_padded, stoi, read_digits}

abbrev pub digit : ℕ → ℕ
digit n = b'0' + n % 10

digits_fuel-small : (f n : ℕ) → n < 10 → digits_fuel (suc f) n ≡ (b'0' + n) ∷ []
unfolding digits_fuel
digits_fuel-small f n h = ground arith

digits_fuel-step :
    (f n : ℕ) → 10 ≤ n → digits_fuel (suc f) n ≡ digits_fuel f (n / 10) ++ digit n ∷ []
unfolding digits_fuel
digits_fuel-step f n h = ground arith

-- Two digits.
pub format_two : (n : ℕ) → n < 100 → format_padded 2 n ≡ digit (n / 10) ∷ digit n ∷ []
unfolding format_padded
format_two n h = elim (dec_lt n 10) [
  | yes p ↦ rw (digits_fuel-small 18 n p) (ground arith)
  | no p ↦
      rw (digits_fuel-step 18 n (omega arith), digits_fuel-small 17 (n / 10) (omega arith))
        (ground arith)
]

-- Four digits.
pub format_four :
    (n : ℕ)
    → 1000 ≤ n
    → n < 10000
    → format_padded 4 n
      ≡ digit (n / 10 / 10 / 10) ∷ digit (n / 10 / 10) ∷ digit (n / 10) ∷ digit n ∷ []
unfolding format_padded
format_four n lo hi =
    rw
      (
        digits_fuel-step 18 n (omega arith),
        digits_fuel-step 17 (n / 10) (omega arith),
        digits_fuel-step 16 (n / 10 / 10) (omega arith),
        digits_fuel-small 15 (n / 10 / 10 / 10) (omega arith),
      )
      (ground arith)

read_digits-digit :
    (a n : ℕ) (t : Text) → read_digits a (digit n ∷ t) ≡ read_digits (a * 10 + n % 10) t
unfolding read_digits
read_digits-digit a n t = ground arith

stoi-digit : (n : ℕ) (t : Text) → stoi (digit n ∷ t) ≡ ok (pos (read_digits (n % 10) t))
unfolding stoi
stoi-digit n t = ground (arith, read_digits-digit 0 n t)

pub stoi_two : (n : ℕ) → n < 100 → stoi (digit (n / 10) ∷ digit n ∷ []) ≡ ok (pos n)
unfolding read_digits
stoi_two n h =
    rw (stoi-digit (n / 10) (digit n ∷ []), read_digits-digit (n / 10 % 10) n []) (ground arith)

pub stoi_four :
    (n : ℕ)
    → n < 10000
    → stoi (digit (n / 10 / 10 / 10) ∷ digit (n / 10 / 10) ∷ digit (n / 10) ∷ digit n ∷ [])
      ≡ ok (pos n)
unfolding read_digits
stoi_four n h =
    rw
      (
        stoi-digit (n / 10 / 10 / 10) (digit (n / 10 / 10) ∷ digit (n / 10) ∷ digit n ∷ []),
        read_digits-digit (n / 10 / 10 / 10 % 10) (n / 10 / 10) (digit (n / 10) ∷ digit n ∷ []),
        read_digits-digit _ (n / 10) (digit n ∷ []),
        read_digits-digit _ n [],
      )
      (ground arith)
