-- ===== src/Tracer.antt =====
-- src/Tracer.cpp and hdr/bren/Tracer.hpp: an object that logs when a function is entered and left. The
-- logger, the sinks and the place in the file are as in Logger/Macros.
use brenlib.Prelude.{ℕ, ◌++◌, Option, none, some}
use brenlib.Prelude.Text.{Text, codes}
use brenlib.Logger.{Logger, Sinks, level_debug}
use brenlib.Logger.Macros.{Leave, say}

pub record Tracer : Type 0 where
  pub pf : Text

-- The constructor; a null pointer is none.
pub create : Option Text → Tracer
create none = record { pf = codes "(No function)" }
create (some pf) = record { pf = pf }

module _ {A : Type 0} (l : Logger) (k : Sinks) (stamp file : Text) (line : ℕ) where
  -- What the constructor logs, and the destructor.
  pub enter : Tracer → Sinks × Leave A
  enter t = say l k stamp file line level_debug (t.pf ++ codes " entry")

  pub leave : Tracer → Sinks × Leave A
  leave t = say l k stamp file line level_debug (t.pf ++ codes " exit")
