-- ===== src/Logger/Macros.antt =====
-- The macros of hdr/bren/Logger.hpp that test a condition. The logger, the sinks and the place of the
-- call are the section's parameters; `msg` is the formatted text.
pub mod Fcet
pub mod Release
mod Tests
use brenlib.Prelude.{
  ℕ, [], Bool, true, false, if◌then◌else◌, Option, none, some, Result, ok, err, Error,
}
use brenlib.Prelude.Text.{Text}
use brenlib.Logger.{Logger, Sinks, log, level_error, level_warning, level_info}

-- How a macro is left: to its end; by `return ret`; by an exception, whose text `what()` gives if
-- the macro made it; or by a call on the null pointer that `log` returned.
pub data Leave (A : Type 0) : Type 0 where
  ended : Leave A
  returned : A → Leave A
  thrown : Error → Text → Leave A
  null_pointer : Leave A

module _ {A : Type 0} (l : Logger) (k : Sinks) (stamp file : Text) (line : ℕ) where
  -- A call of `log` alone: an exception of its own leaves the macro.
  abbrev pub alone : Sinks × Result (Option Text) → Leave A → Sinks × Leave A
  alone (k', ok p) next = (k', next)
  alone (k', err e) next = (k', thrown e [])

  -- FD, FI, FN, FW, FE at their levels
  pub say : ℕ → Text → Sinks × Leave A
  say level msg = alone (log l k stamp file line level msg) ended

  -- FCD, FCI, FCN, FCW, FCE
  pub say_unless : ℕ → Bool → Text → Sinks × Leave A
  unfolding say
  say_unless level cond msg = if cond then (k, ended) else say level msg

  -- FCDA, FCIA, FCNA, FCWA, FCEA; `next` is how the action ends.
  pub act_unless : ℕ → Bool → Leave A → Text → Sinks × Leave A
  act_unless level cond next msg =
      if cond then (k, ended) else alone (log l k stamp file line level msg) next

  -- FCIR
  pub fcir : Bool → A → Text → Sinks × Leave A
  fcir cond ret msg =
      if cond then (k, ended) else alone (log l k stamp file line level_info msg) (returned ret)

  -- FCWR
  pub fcwr : Bool → A → Text → Sinks × Leave A
  fcwr cond ret msg =
      if cond then (k, ended) else alone (log l k stamp file line level_warning msg) (returned ret)

  -- FCER
  pub fcer : Bool → A → Text → Sinks × Leave A
  fcer cond ret msg =
      if cond then (k, ended) else alone (log l k stamp file line level_error msg) (returned ret)

  abbrev throw_logged : Error → Sinks × Result (Option Text) → Sinks × Leave A
  throw_logged exc (k', ok (some t)) = (k', thrown exc t)
  throw_logged exc (k', ok none) = (k', null_pointer)
  throw_logged exc (k', err e) = (k', thrown e [])

  -- FET
  pub fet : Error → Text → Sinks × Leave A
  fet exc msg = throw_logged exc (log l k stamp file line level_error msg)

  -- FCET
  pub fcet : Bool → Error → Text → Sinks × Leave A
  fcet cond exc msg =
      if cond then (k, ended) else throw_logged exc (log l k stamp file line level_error msg)
