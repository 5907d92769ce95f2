-- ===== src/Timespec.antt =====
-- src/timespecops.cpp: the operators on `struct timespec`. `tv_sec` does not overflow here.
pub mod Nanos
mod Tests
use brenlib.Prelude.{
  suc, ◌∷◌, ◌++◌, ℕ, ◌+◌, ◌-◌, Bool, true, false, not, ◌&&◌, ◌||◌, ltb, leb, ◌==◌, if◌then◌else◌,
}
use brenlib.Prelude.Text.{Text, to_string, format_padded}
use brenlib.Prelude.Int.{ℤ, pos, negsuc, ltb_ℤ, ◌+ℤ◌, ◌-ℤ◌, ◌==ℤ◌}

pub record Timespec : Type 0 where
  pub tv_sec : ℤ
  pub tv_nsec : ℕ

abbrev pub timespec : ℤ → ℕ → Timespec
timespec s n = record { tv_sec = s; tv_nsec = n }

pub lt : Timespec → Timespec → Bool
lt lhs rhs =
    ltb_ℤ lhs.tv_sec rhs.tv_sec || ((lhs.tv_sec ==ℤ rhs.tv_sec) && ltb lhs.tv_nsec rhs.tv_nsec)

pub eq : Timespec → Timespec → Bool
eq lhs rhs = (lhs.tv_sec ==ℤ rhs.tv_sec) && (lhs.tv_nsec == rhs.tv_nsec)

pub le : Timespec → Timespec → Bool
unfolding lt eq
le lhs rhs = eq lhs rhs || lt lhs rhs

-- `~` on a `bool`: the operand is converted to `int`, and the bits are complemented.
pub complement : Bool → ℤ
complement false = negsuc 0
complement true = negsuc 1

-- An `int` as the `bool` that is returned.
pub to_bool : ℤ → Bool
to_bool z = not (z ==ℤ pos 0)

pub gt : Timespec → Timespec → Bool
unfolding complement to_bool
gt lhs rhs = to_bool (complement (le lhs rhs))

pub ge : Timespec → Timespec → Bool
unfolding complement to_bool
ge lhs rhs = to_bool (complement (lt lhs rhs))

pub ne : Timespec → Timespec → Bool
unfolding complement to_bool
ne lhs rhs = to_bool (complement (eq lhs rhs))

-- `operator-=`: the left operand afterwards.
pub minus : Timespec → Timespec → Timespec
minus lhs rhs =
    let sec = lhs.tv_sec -ℤ rhs.tv_sec in
    if ltb lhs.tv_nsec rhs.tv_nsec
    then timespec (sec -ℤ pos 1) (lhs.tv_nsec + 1000000000 - rhs.tv_nsec)
    else timespec sec (lhs.tv_nsec - rhs.tv_nsec)

pub plus : Timespec → Timespec → Timespec
plus lhs rhs =
    let sec = lhs.tv_sec +ℤ rhs.tv_sec in
    let nsec = lhs.tv_nsec + rhs.tv_nsec in
    if leb 1000000000 nsec then timespec (sec +ℤ pos 1) (nsec - 1000000000) else timespec sec nsec

-- What std::ostream puts out for a `time_t`, in decimal
abbrev pub show_int : ℤ → Text
show_int (pos n) = to_string n
show_int (negsuc n) = b'-' ∷ to_string (suc n)

-- `operator<<`: what is put out, to a stream whose width is not set.
pub to_text : Timespec → Text
to_text ts = show_int ts.tv_sec ++ b'.' ∷ format_padded 9 ts.tv_nsec
