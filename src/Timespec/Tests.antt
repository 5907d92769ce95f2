-- ===== src/Timespec/Tests.antt =====
-- Runs on points in time.
use brenlib.Prelude.{◌≡◌, refl, arith}
use brenlib.Prelude.Int.{pos, negsuc, ◌+ℤ◌, ◌-ℤ◌}
use brenlib.Timespec.{Timespec, timespec, minus, plus, to_text}
use brenlib.Prelude.Text.{codes}
use brenlib.Timespec.Nanos.{IsNormal, nanos, plus-minus-nanos}

abbrev late : Timespec
late = timespec (pos 3) 900000000

abbrev before : Timespec
before = timespec (negsuc 1) 200000000

runs :
    (plus late before ≡ timespec (pos 2) 100000000)
    × (minus before late ≡ timespec (negsuc 5) 300000000)
unfolding plus minus
runs = (refl, refl)

plus-minus-nanos_example :
    IsNormal (plus before late)
    × (nanos (plus before late) ≡ nanos before +ℤ nanos late)
    × IsNormal (minus before late)
    × (nanos (minus before late) ≡ nanos before -ℤ nanos late)
plus-minus-nanos_example = plus-minus-nanos before late (omega arith) (omega arith)

shown : to_text (timespec (pos 3) 50) ≡ codes "3.000000050"
unfolding to_text brenlib.Prelude.Text.to_string brenlib.Prelude.Text.format_padded
shown = refl
