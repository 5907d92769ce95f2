-- ===== src/Child/Tests.antt =====
-- Runs of a child process.
use brenlib.Prelude.{
  ℕ, suc, Bool, true, false, [], ◌∷◌, none, some, map, ok, err, invalid_argument, logic_error,
  out_of_range, runtime_error, ◌≡◌, ◌≢◌, refl, arith, inl,
}
use brenlib.Prelude.Text.{Text, codes}
use brenlib.Prelude.Maps.{lookup, text_key}
use brenlib.Child.{
  Env, Child, System, create, contains, add_env, capture, command, parse_line, read_lines, read_env,
  exec_args, exec_env, read_output, until_nul, wait, run,
}
use brenlib.Child.Environment.{export_line, first_of, read_env-export}
use brenlib.Child.Output.{AreChunks, IsPrepared, run-output, run_not_forked}

abbrev listing : Child
listing = record {
  args_ = codes "-l" ∷ [];
  cap_stderr_ = false;
  cap_stdout_ = true;
  cmd_ = codes "/bin/ls";
  env_ = (codes "A", codes "1") ∷ [];
  tried_env_ = true;
  output = [];
}

abbrev answers : System
answers = record {
  pipe_made = true;
  forked = some 7;
  reads = some (codes "ab") ∷ some (codes "c") ∷ some [] ∷ [];
  waited = some 7;
  exit_status = some 3;
}

abbrev anything : Text → Bool
anything path = true

runs :
    ((add_env listing (codes "A") (codes "2")).1 ≡ true)
    × (command anything anything create [] [] ≡ err invalid_argument)
    × (command anything anything (capture create true false) (codes "/bin/ls") (codes "-l" ∷ [])
        ≡ ok (record listing { env_ = []; tried_env_ = false }))
    × (exec_args listing ≡ codes "/bin/ls" ∷ codes "-l" ∷ [])
    × (exec_env listing ≡ codes "A=1" ∷ [])
    × (parse_line (codes "# export A='1'") ≡ ok none)
    × (parse_line (codes "export PATH=") ≡ err out_of_range)
    × (parse_line (codes "export LC='x'") ≡ ok (some (codes "LC", codes "x")))
    × ((run answers none create).1 ≡ err logic_error)
    × ((run (record answers { waited = some 8 }) none listing).1 ≡ err runtime_error)
    × (run answers none listing ≡ (record listing { output = codes "abc" }, ok 3))
unfolding add_env command create capture exec_args exec_env parse_line run contains lookup
runs = (refl, refl, refl, refl, refl, refl, refl, refl, refl, refl, refl)

abbrev fresh : Child
fresh = record listing { tried_env_ = false }

abbrev exported : Env
exported = (codes "A", codes "9") ∷ (codes "LANG", codes "C") ∷ []

read_env-export_example :
    (env : Env) × (read_env (some (map (export_line b'"') exported)) fresh
      ≡ (record fresh { tried_env_ = true; env_ = env }, ok tt))
    × ((k : Text) → lookup k env ≡ first_of (lookup k fresh.env_) (lookup k exported))
read_env-export_example = read_env-export b'"' exported fresh (refl, (refl, tt)) refl

not_empty : (n : ℕ) → suc n ≢ 0
not_empty n e = omega arith

no_file : read_env none fresh ≡ (listing, ok tt)
unfolding read_env
no_file = refl

prepared : IsPrepared answers none fresh listing
prepared = record {
  command_set = not_empty 6;
  environment_read = no_file;
  capturing = refl;
  pipe_made = refl;
}

run-output_example : run answers none fresh ≡ (record listing { output = codes "abc" }, ok 3)
unfolding brenlib.Child.Output.joined
run-output_example =
    run-output answers none fresh listing (codes "ab" ∷ codes "c" ∷ []) [] (codes "abc") [] prepared
      refl (not_empty 1, (not_empty 0, tt)) refl (inl refl)
