-- ===== src/Logger.antt =====
-- src/Logger.cpp and the macros of hdr/bren/Logger.hpp. Streams are numbers; what they and syslog were
-- given stands in `Sinks`. `stamp` is the text of the time and the thread. The map `levels_` is the
-- function `level_name`.
pub mod Macros
pub mod Setup
mod Checks
use brenlib.Prelude.{
  ℕ, ◌+◌, Bool, true, false, not, ltb, ◌==◌, if◌then◌else◌, List, [], ◌∷◌, ◌++◌, Option, none, some,
  length, drop, Result, ok, err, Error, invalid_argument, logic_error, out_of_range, ◌>>=◌, ◌>>◌,
}
use brenlib.Prelude.Text.{Text, codes, to_string}

-- loglevel_t, as the numbers that syslog gives its levels
abbrev pub level_none : ℕ
level_none = 2

abbrev pub level_error : ℕ
level_error = 3

abbrev pub level_warning : ℕ
level_warning = 4

abbrev pub level_notice : ℕ
level_notice = 5

abbrev pub level_info : ℕ
level_info = 6

abbrev pub level_debug : ℕ
level_debug = 7

pub record Logger : Type 0 where
  pub ident_ : Text
  pub maxlevel_ : ℕ
  pub stream_ : Option ℕ
  pub strip_ : ℕ
  pub syslog_ : Bool

-- What was written, the latest last.
pub record Sinks : Type 0 where
  pub streams : List (ℕ × Text)
  pub syslogs : List (ℕ × Text)

pub create : Logger
create = record {
  ident_ = [];
  maxlevel_ = level_debug;
  stream_ = none;
  strip_ = 0;
  syslog_ = false;
}

-- `levels_[priority_i]`; a level that the constructor left out gets the empty text.
pub level_name : ℕ → Text
level_name p =
    if p == 3
    then codes "ERROR"
    else if p == 4
    then codes "WARNING"
    else if p == 5
    then codes "NOTICE"
    else if p == 6
    then codes "INFO"
    else if p == 7
    then codes "DEBUG"
    else []

-- std::string::substr(pos)
abbrev pub substr_from : ℕ → Text → Result Text
substr_from n s = if ltb (length s) n then err out_of_range else ok (drop n s)

-- The log entry.
pub entry : Logger → Text → Text → ℕ → ℕ → Text → Text
unfolding level_name
entry l stamp file line priority msg =
    stamp
    ++ (file
        ++ (b':'
            ∷ (to_string line
                ++ (b' ' ∷ ((if l.syslog_ then [] else level_name priority ++ b' ' ∷ []) ++ msg)))))

-- The writing at the end of `log`.
abbrev pub deliver : Logger → Sinks → ℕ → Text → Sinks × Result (Option Text)
deliver l k priority le =
    if l.syslog_
    then (record k { syslogs = k.syslogs ++ (priority, le) ∷ [] }, ok (some le))
    else (elim (l.stream_) [
      | none ↦ (k, err logic_error)
      | some s ↦ (record k { streams = k.streams ++ (s, le ++ 10 ∷ []) ∷ [] }, ok (some le))
    ])

abbrev stripped : Logger → Sinks → Text → ℕ → ℕ → Text → Result Text → Sinks × Result (Option Text)
stripped l k stamp line priority msg (err e) = (k, err e)
stripped l k stamp line priority msg (ok file) =
    deliver l k priority (entry l stamp file line priority msg)

-- `log`: what is written, and the pointer that is returned, null as `none`.
pub log : Logger → Sinks → Text → Text → ℕ → ℕ → Text → Sinks × Result (Option Text)
unfolding entry
log l k stamp file line priority msg =
    if ltb l.maxlevel_ priority
    then (k, ok none)
    else stripped l k stamp line priority msg (substr_from l.strip_ file)

-- `maxlevel(level_i)`
pub set_maxlevel : Logger → ℕ → Logger
set_maxlevel l level = record l { maxlevel_ = level }

-- `stream`
pub stream : Logger → Option ℕ → ℕ → Logger × Result (Unit {0})
stream l none strip = (l, err invalid_argument)
stream l (some s) strip = (record l { syslog_ = false; strip_ = strip; stream_ = some s }, ok tt)

-- `stderror`; the stream 2 is std::cerr.
pub stderror : Logger → ℕ → Logger × Result (Unit {0})
unfolding stream
stderror l strip = stream l (some 2) strip

-- `syslog`
pub syslog : Logger → Text → ℕ → Logger × Bool
syslog l ident strip =
    if l.syslog_
    then (l, false)
    else (record l { ident_ = ident; strip_ = strip; stream_ = none; syslog_ = true }, true)

-- `destSyslog`
pub dest_syslog : Logger → Bool
dest_syslog l = l.syslog_

-- `~Logger`; what it closes of syslog is the C library's.
pub destroy : Logger → Logger
destroy l = if l.syslog_ then record l { syslog_ = false } else record l { stream_ = none }
