-- ===== src/Prelude/Text.antt =====
-- What the sources use of std::string, std::stoi and fmt::format. A text is the list of its bytes.
use Prim.Native.Char.{code}
pub mod Decimal
pub mod Numerals
use Prim.Native.String.{String}
use brenlib.Prelude.Tests.{ltb, leb, ◌==◌, if◌then◌else◌}
use brenlib.Prelude.Lists.{length, replicate, All}
use brenlib.Prelude.Errors.{Result, ok, err, Error, invalid_argument}
use brenlib.Prelude.Int.{ℤ, pos, negsuc, neg_ℤ}
use Prim.Native.Nat.{ℕ, zero, suc, ◌+◌, ◌-◌, ◌*◌, ◌/◌, ◌%◌, ◌<◌}
use mathlib.Core.Bool.{Bool, true, false, not, ◌&&◌, ◌||◌}
use mathlib.Core.Option.{Option, none, some}
use mathlib.Core.List.{List, [], ◌∷◌, ◌++◌}

abbrev pub Text : Type 0
Text = List ℕ

-- A string literal of the source as bytes; all literals here are ASCII.
abbrev pub codes : String → Text
codes (String.◌∷◌ first later) = code first ∷ codes later
codes String.[] = []

abbrev pub IsByte : ℕ → Type 0
IsByte c = c < 256

-- operator== of std::string
abbrev pub text_eq : Text → Text → Bool
text_eq [] [] = true
text_eq [] (y ∷ ys) = false
text_eq (x ∷ xs) [] = false
text_eq (x ∷ xs) (y ∷ ys) = (x == y) && text_eq xs ys

-- Is the byte one of these?
abbrev pub elem : ℕ → Text → Bool
elem c [] = false
elem c (d ∷ ds) = (c == d) || elem c ds

abbrev pub is_digit : ℕ → Bool
is_digit c = leb b'0' c && leb c b'9'

abbrev pub is_space : ℕ → Bool
is_space c = (c == 32) || (leb 9 c && leb c 13)

-- The digits at the front of a text, appended to the number `n`.
unfoldable pub read_digits : ℕ → Text → ℕ
read_digits n [] = n
read_digits n (c ∷ cs) = if is_digit c then read_digits (n * 10 + (c - b'0')) cs else n

-- A number that must begin with a digit.
unfoldable pub read_number : Text → Result ℕ
unfolding read_digits
read_number [] = err invalid_argument
read_number (c ∷ cs) = if is_digit c then ok (read_digits 0 (c ∷ cs)) else err invalid_argument

abbrev negated : Result ℕ → Result ℤ
negated (ok n) = ok (neg_ℤ (pos n))
negated (err e) = err e

abbrev plain : Result ℕ → Result ℤ
plain (ok n) = ok (pos n)
plain (err e) = err e

-- std::stoi on a text so short that an `int` holds every value: leading white space, an optional
-- sign, and digits; what follows the digits is ignored.
unfoldable pub stoi : Text → Result ℤ
unfolding read_number
stoi [] = err invalid_argument
stoi (c ∷ cs) =
    if is_space c
    then stoi cs
    else if c == b'-'
    then negated (read_number cs)
    else if c == b'+'
    then plain (read_number cs)
    else plain (read_number (c ∷ cs))

-- The decimal digits of a number below 10 ^ (fuel + 1).
unfoldable pub digits_fuel : ℕ → ℕ → Text
digits_fuel zero n = (b'0' + n % 10) ∷ []
digits_fuel (suc f) n =
    let front = digits_fuel f (n / 10) in
    if ltb n 10 then (b'0' + n) ∷ [] else front ++ (b'0' + n % 10) ∷ []

-- std::to_string of an unsigned number below 10 ^ 20
unfoldable pub to_string : ℕ → Text
unfolding digits_fuel
to_string n = digits_fuel 19 n

-- fmt::format("{:0wd}", n)
unfoldable pub format_padded : ℕ → ℕ → Text
unfolding to_string
format_padded w n = let t = to_string n in replicate (w - length t) b'0' ++ t
