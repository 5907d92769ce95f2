-- ===== src/Logger/Checks.antt =====
-- The unit test of src/Logger.cpp, chk/logger.cpp.
use brenlib.Prelude.{
  ℕ, suc, true, not, leb, ◌==◌, if◌then◌else◌, List, [], ◌∷◌, length, Result, ok, ◌≡◌, refl, ◌>>◌,
}
use brenlib.Prelude.Text.{codes}
use brenlib.Prelude.Asserts.{assert}
use brenlib.Logger.{
  Logger, create, stderror, syslog, dest_syslog, level_name, level_none, level_error, level_warning,
  level_notice, level_info, level_debug,
}

-- `levels_.size()`: how many of the levels have a text.
abbrev named : List ℕ → ℕ
named [] = 0
named (p ∷ levels) =
    let rest = named levels in if leb 1 (length (level_name p)) then suc rest else rest

abbrev all_levels : List ℕ
all_levels = level_none ∷ level_error ∷ level_warning ∷ level_notice ∷ level_info ∷ level_debug ∷ []

-- The logger after the test.
pub check_logdest : Logger → Result Logger
check_logdest l = do
  let to_cerr = stderror l 0
  to_cerr.1
  assert (not (dest_syslog to_cerr.0))
  assert (named all_levels == 5)
  let opened = syslog to_cerr.0 (codes "LoggerCheck") 0
  assert opened.1
  assert (dest_syslog opened.0)
  let again = syslog opened.0 (codes "LoggerCheck") 0
  assert (not again.1)
  assert (dest_syslog again.0)
  let back = stderror again.0 0
  back.1
  assert (not (dest_syslog back.0))
  let reopened = syslog back.0 (codes "LoggerCheck") 0
  assert reopened.1
  assert (dest_syslog reopened.0)
  ok reopened.0

check_logdest_passes :
    check_logdest create ≡ ok (record create { ident_ = codes "LoggerCheck"; syslog_ = true })
unfolding check_logdest create stderror syslog dest_syslog level_name
check_logdest_passes = refl
