-- ===== src/Logger/Macros/Release.antt =====
-- The macros of hdr/bren/Logger.hpp for the debug level where NDEBUG is defined: nothing is logged.
use brenlib.Prelude.{ℕ, ◌<◌, Bool, if◌then◌else◌, ◌≡◌, arith}
use brenlib.Prelude.Text.{Text}
use brenlib.Logger.{Logger, Sinks, log, level_debug}
use brenlib.Logger.Macros.{Leave, ended, say, say_unless, act_unless}

-- FD and FCD; the condition is evaluated, and nothing else.
pub fd : {A : Type 0} → Sinks → Sinks × Leave A
fd k = (k, ended)

pub fcd : {A : Type 0} → Sinks → Bool → Sinks × Leave A
fcd k cond = if cond then (k, ended) else (k, ended)

-- FCDA; `next` is how the action ends.
pub fcda : {A : Type 0} → Sinks → Bool → Leave A → Sinks × Leave A
fcda k cond next = if cond then (k, ended) else (k, next)

-- Where the debug level is not logged, these macros do what they do without NDEBUG.
pub debug-release :
    (A : Type 0) (l : Logger) (k : Sinks) (stamp file : Text) (line : ℕ) (cond : Bool)
    (next : Leave A) (msg : Text)
    → l.maxlevel_ < level_debug
    → (say {A = A} l k stamp file line level_debug msg ≡ fd k)
      × (say_unless {A = A} l k stamp file line level_debug cond msg ≡ fcd k cond)
      × (act_unless l k stamp file line level_debug cond next msg ≡ fcda k cond next)
unfolding fd fcd fcda say say_unless act_unless log
debug-release A l k stamp file line cond next msg h = (ground arith, ground arith, ground arith)
