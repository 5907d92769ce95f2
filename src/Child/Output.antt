-- ===== src/Child/Output.antt =====
-- What `run` of src/Child.cpp gives.
use brenlib.Prelude.{
  true, false, ◌||◌, List, [], ◌∷◌, ◌++◌, Option, none, some, length, map, ok, ◌≡◌, ◌≢◌, ◌⊎◌, refl,
  arith, All, ap, ◌∙◌, inl, inr,
}
use brenlib.Prelude.Text.{Text, elem}
use brenlib.Child.{Child, System, read_env, read_output, until_nul, wait, after_env, run}

unfoldable pub joined : List Text → Text
joined [] = []
joined (c ∷ cs) = c ++ joined cs

abbrev pub AreChunks : List Text → Type 0
AreChunks = All λ c. length c ≢ 0

read_output-chunks :
    (chunks : List Text) (left : List (Option Text))
    → AreChunks chunks
    → read_output (map some chunks ++ some [] ∷ left) ≡ joined chunks
unfolding read_output joined
read_output-chunks [] left h = refl
read_output-chunks ([] ∷ cs) left h = absurd (h.0 refl)
read_output-chunks ((b ∷ bs) ∷ cs) left h = ap (λ t. (b ∷ bs) ++ t) (read_output-chunks cs left h.1)

until_nul-append :
    (text behind : Text) → elem 0 text ≡ false → until_nul (text ++ 0 ∷ behind) ≡ text
unfolding until_nul
until_nul-append [] behind h = refl
until_nul-append (b ∷ bs) behind h = ground (arith, until_nul-append bs behind)

until_nul_whole : (text : Text) → elem 0 text ≡ false → until_nul text ≡ text
unfolding until_nul
until_nul_whole [] h = refl
until_nul_whole (b ∷ bs) h = ground (arith, until_nul_whole bs)

until_nul-joined :
    (text behind t : Text)
    → elem 0 text ≡ false
    → (t ≡ text) ⊎ (t ≡ text ++ 0 ∷ behind)
    → until_nul t ≡ text
until_nul-joined text behind t z (inl e) = ap until_nul e ∙ until_nul_whole text z
until_nul-joined text behind t z (inr e) = ap until_nul e ∙ until_nul-append text behind z

-- A child whose command is set, whose environment could be read, which leaves it as `c'`, and whose
-- output is captured.
pub record IsPrepared (os : System) (profile : Option (List Text)) (c c' : Child) : Type 0 where
  pub command_set : length c.cmd_ ≢ 0
  pub environment_read : read_env profile c ≡ (c', ok tt)
  pub capturing : (c'.cap_stdout_ || c'.cap_stderr_) ≡ true
  pub pipe_made : os.pipe_made ≡ true

captured_by :
    (os : System) (c : Child)
    → (c.cap_stdout_ || c.cap_stderr_) ≡ true
    → os.pipe_made ≡ true
    → after_env os (c, ok tt) ≡ (record c { output = until_nul (read_output os.reads) }, wait os)
captured_by os c h m = ground arith

run-after_env :
    (os : System) (profile : Option (List Text)) (c : Child)
    → length c.cmd_ ≢ 0
    → run os profile c ≡ after_env os (read_env profile c)
unfolding run
run-after_env os profile c h = ground arith

run_captured :
    (os : System) (profile : Option (List Text)) (c c' : Child)
    → IsPrepared os profile c c'
    → run os profile c ≡ (record c' { output = until_nul (read_output os.reads) }, wait os)
run_captured os profile c c' p =
    run-after_env os profile c p.command_set
    ∙ (ap (after_env os) p.environment_read ∙ captured_by os c' p.capturing p.pipe_made)

-- The output of a child that is captured is all that it wrote up to its first byte 0, however the
-- reads cut it into pieces, and `run` answers as the wait for the child does.
pub run-output :
    (os : System) (profile : Option (List Text)) (c c' : Child) (chunks : List Text)
    (left : List (Option Text)) (text behind : Text)
    → IsPrepared os profile c c'
    → os.reads ≡ map some chunks ++ some [] ∷ left
    → AreChunks chunks
    → elem 0 text ≡ false
    → (joined chunks ≡ text) ⊎ (joined chunks ≡ text ++ 0 ∷ behind)
    → run os profile c ≡ (record c' { output = text }, wait os)
run-output os profile c c' chunks left text behind p e a z j =
    let read = ap read_output e ∙ read_output-chunks chunks left a in
    let kept = ap until_nul read ∙ until_nul-joined text behind (joined chunks) z j in
    run_captured os profile c c' p ∙ ap (λ t. (record c' { output = t }, wait os)) kept

-- Where `fork` fails and there is no other child to wait for, `run` answers the exit status 0, as
-- `waitpid` returns the -1 that it was called with, and leaves the status as it was set before.
pub run_not_forked :
    (os : System) (profile : Option (List Text)) (c : Child)
    → length c.cmd_ ≢ 0
    → c.tried_env_ ≡ true
    → (c.cap_stdout_ || c.cap_stderr_) ≡ false
    → os.forked ≡ none
    → os.waited ≡ none
    → os.exit_status ≡ some 0
    → run os profile c ≡ (c, ok 0)
unfolding run read_env
run_not_forked os profile c h t k f w x = ground arith
