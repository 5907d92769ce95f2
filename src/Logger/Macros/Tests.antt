-- ===== src/Logger/Macros/Tests.antt =====
-- Runs of a logger.
use brenlib.Prelude.{
  ℕ, ◌≤◌, Bool, true, false, ◌||◌, List, [], ◌∷◌, Option, none, some, Result, ok, err, Error,
  invalid_argument, out_of_range, runtime_error, logic_error, ◌≡◌, refl, arith,
}
use brenlib.Prelude.Text.{Text, codes}
use brenlib.Logger.{
  Logger, Sinks, create, level_none, level_notice, log, stream, stderror, syslog, set_maxlevel,
}
use brenlib.Logger.Macros.{
  ended, returned, thrown, null_pointer, say, say_unless, act_unless, fcir, fcwr, fcer, fet, fcet,
}
use brenlib.Logger.Macros.Fcet.{fate_of, raised, fcet-raised}

abbrev nothing : Sinks
nothing = record { streams = []; syslogs = [] }

abbrev to_stream : Logger
to_stream = record { ident_ = []; maxlevel_ = 6; stream_ = some 1; strip_ = 4; syslog_ = false }

abbrev file : Text
file = codes "src/a.cpp"

runs :
    (log to_stream nothing (codes "T ") file 12 5 (codes "m") ≡ (
      record { streams = (1, codes "T a.cpp:12 NOTICE m\n") ∷ []; syslogs = [] },
      ok (some (codes "T a.cpp:12 NOTICE m")),
    ))
    × (log to_stream nothing (codes "T ") file 12 7 (codes "m") ≡ (nothing, ok none))
    × ((fcet {A = ℕ} (set_maxlevel to_stream level_none) nothing [] file 1 false runtime_error []).1
        ≡ null_pointer)
    × ((fcet {A = ℕ} create nothing [] file 1 false runtime_error []).1 ≡ thrown logic_error [])
    × ((fet {A = ℕ} (syslog to_stream (codes "p") 40).0 nothing [] file 1 runtime_error []).1
        ≡ thrown out_of_range [])
    × ((fcir {A = ℕ} to_stream nothing [] file 1 false 9 []).1 ≡ returned 9)
    × ((fcwr {A = ℕ} to_stream nothing [] file 1 true 9 []).1 ≡ ended)
    × ((fcer {A = ℕ} to_stream nothing [] file 1 false 9 []).1 ≡ returned 9)
    × ((say {A = ℕ} to_stream nothing [] file 1 level_notice []).1 ≡ ended)
    × ((say_unless {A = ℕ} create nothing [] file 1 level_notice false []).1
        ≡ thrown logic_error [])
    × ((act_unless {A = ℕ} to_stream nothing [] file 1 level_notice false (returned 5) []).1
        ≡ returned 5)
    × ((stderror create 3).0.stream_ ≡ some 2)
    × ((stream to_stream none 3).1 ≡ err invalid_argument)
unfolding log fcet fet fcir fcwr fcer say say_unless act_unless stderror stream syslog set_maxlevel
    create brenlib.Prelude.Text.to_string
runs = (refl, refl, refl, refl, refl, refl, refl, refl, refl, refl, refl, refl, refl)

fcet-raised_example :
    fate_of {A = ℕ} (fcet create nothing [] file 1 false runtime_error []).1
    ≡ raised create file runtime_error
fcet-raised_example = fcet-raised ℕ create nothing [] file 1 runtime_error []
