-- ===== src/Logger/Setup.antt =====
-- Where a logger of src/Logger.cpp writes to.
use brenlib.Prelude.{ℕ, false, ◌&&◌, Option, none, some, ◌≡◌, refl, arith}
use brenlib.Prelude.Text.{Text}
use brenlib.Logger.{Logger, create, stream, stderror, syslog, set_maxlevel, destroy}
use brenlib.Logger.Macros.Fcet.{is_given}

-- Not to syslog and to a stream at once.
abbrev pub HasOneSink : Logger → Type 0
HasOneSink l = (l.syslog_ && is_given l.stream_) ≡ false

-- However a logger is set up, it writes to syslog or to a stream, never to both, and once it is
-- destroyed it has neither.
pub operations-HasOneSink :
    (l : Logger) (s : Option ℕ) (n level : ℕ) (ident : Text)
    → HasOneSink l
    → HasOneSink create
      × HasOneSink (stream l s n).0
      × HasOneSink (stderror l n).0
      × HasOneSink (syslog l ident n).0
      × HasOneSink (set_maxlevel l level)
      × ((destroy l).syslog_ ≡ false)
      × ((destroy l).stream_ ≡ none)
unfolding create stream stderror syslog set_maxlevel destroy
operations-HasOneSink l none n level ident h =
    (refl, h, refl, ground arith, h, ground arith, ground arith)
operations-HasOneSink l (some s) n level ident h =
    (refl, refl, refl, ground arith, h, ground arith, ground arith)
