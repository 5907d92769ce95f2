-- ===== src/Child.antt =====
-- src/Child.cpp and hdr/bren/Child.hpp: `run` is what the parent process does, `in_child` what the
-- child does. What the operating system answers to a call of `run` is the record `System`; what the
-- file /etc/profile.env holds, if it can be opened, is a list of lines.
pub mod Environment
pub mod Output
mod Tests
use brenlib.Prelude.{
  ℕ, zero, suc, ◌+◌, ◌-◌, ◌%◌, Bool, true, false, not, ◌&&◌, ◌||◌, ltb, ◌==◌, if◌then◌else◌, List,
  [], ◌∷◌, ◌++◌, Option, none, some, length, take, drop, map, Result, ok, err, Error,
  invalid_argument, logic_error, out_of_range, runtime_error, ◌>>=◌, ◌>>◌, fcet,
}
use brenlib.Prelude.Text.{Text, text_eq, codes}
use brenlib.Prelude.Maps.{lookup, insert, text_key}

-- env_
abbrev pub Env : Type 0
Env = List (Text × Text)

pub record Child : Type 0 where
  pub args_ : List Text
  pub cap_stderr_ : Bool
  pub cap_stdout_ : Bool
  pub cmd_ : Text
  pub env_ : Env
  pub tried_env_ : Bool
  pub output : Text

pub create : Child
create = record {
  args_ = [];
  cap_stderr_ = false;
  cap_stdout_ = false;
  cmd_ = [];
  env_ = [];
  tried_env_ = false;
  output = [];
}

-- env_.contains(variable)
pub contains : Text → Env → Bool
contains variable env = elim (lookup variable env) [ none ↦ false | some v ↦ true ]

-- `addEnv`: whether a variable was overwritten.
pub add_env : Child → Text → Text → Child × Bool
unfolding contains
add_env c variable value =
    (record c { env_ = insert variable value c.env_ }, contains variable c.env_)

-- `capture`
pub capture : Child → Bool → Bool → Child
capture c capout caperr = record c { cap_stderr_ = caperr; cap_stdout_ = capout }

-- `command`; `exists` and `is_regular` are the answers of std::filesystem about the path.
pub command : (exists is_regular : Text → Bool) → Child → Text → List Text → Result Child
command exists is_regular c executable arguments = do
  fcet (not (length executable == 0)) invalid_argument
  fcet (exists executable) invalid_argument
  fcet (is_regular executable) invalid_argument
  ok (record c { cmd_ = executable; args_ = arguments })

-- line.find('='): what stands before the first equal sign, and what behind it.
pub split_equal : Text → Option (Text × Text)
split_equal [] = none
split_equal (c ∷ cs) =
    let later = split_equal cs in
    if c == b'=' then some ([], cs) else elim later [ none ↦ none | some p ↦ some (c ∷ p.0, p.1) ]

-- line.substr(pos + 2, line.size() - pos - 3), on what stands behind the equal sign. The first
-- position is past the end if that is nothing; the count wraps, and so takes all, if it is one byte.
abbrev pub unquoted : Text → Result Text
unquoted [] = err out_of_range
unquoted (q ∷ rest) = ok (take (length rest - 1) rest)

abbrev variable_of : Option (Text × Text) → Result (Option (Text × Text))
variable_of none = ok none
variable_of (some (envvar, behind)) = unquoted behind >>= λ val. ok (some (envvar, val))

abbrev is_comment : Text → Bool
is_comment [] = false
is_comment (c ∷ cs) = c == b'#'

-- What a line of the file exports, if anything.
pub parse_line : Text → Result (Option (Text × Text))
unfolding split_equal
parse_line line =
    if (length line == 0) || is_comment line
    then ok none
    else if ltb (length line) 10
    then ok none
    else if text_eq (take 7 line) (codes "export ")
    then variable_of (split_equal (drop 7 line))
    else ok none

-- A variable that is there already is kept.
abbrev pub add_new : Option (Text × Text) → Env → Env
add_new none env = env
add_new (some (envvar, val)) env = if contains envvar env then env else insert envvar val env

-- The loop over the lines: the environment as it is left, and whether a line threw.
pub read_lines : List Text → Env → Env × Result (Unit {0})
read_lines [] env = (env, ok tt)
read_lines (line ∷ lines) env = elim (parse_line line) [
  | err e ↦ (env, err e)
  | ok found ↦ read_lines lines (add_new found env)
]

-- `readEnv_`
pub read_env : Option (List Text) → Child → Child × Result (Unit {0})
unfolding read_lines
read_env profile c = if c.tried_env_ then (c, ok tt) else (elim profile [
  | none ↦ (record c { tried_env_ = true }, ok tt)
  | some lines ↦
      let (env, r) = read_lines lines c.env_ in (record c { tried_env_ = true; env_ = env }, r)
])

-- What the operating system answers: whether `pipe` succeeds; the process that `fork` makes, none
-- for -1; what each `read` gives, none for -1 and no byte at the end of the file; the process that
-- `waitpid` returns, none for -1; and the status, if the process exited.
pub record System : Type 0 where
  pub pipe_made : Bool
  pub forked : Option ℕ
  pub reads : List (Option Text)
  pub waited : Option ℕ
  pub exit_status : Option ℕ

-- A C string as a std::string: the bytes before the first 0.
unfoldable pub until_nul : Text → Text
until_nul [] = []
until_nul (b ∷ bs) = let rest = until_nul bs in if b == 0 then [] else b ∷ rest

-- The arguments and the environment that the child gives to `execve`, as C strings.
pub exec_args : Child → List Text
unfolding until_nul
exec_args c = until_nul c.cmd_ ∷ map until_nul c.args_

pub exec_env : Child → List Text
unfolding until_nul
exec_env c = map (λ p. until_nul (p.0 ++ b'=' ∷ p.1)) c.env_

-- What the child does up to `execve`: `out_duplicated` and `err_duplicated` are whether `dup2` succeeds.
pub in_child : (out_duplicated err_duplicated : Bool) → Child → Result (List Text × List Text)
unfolding exec_args exec_env
in_child out_duplicated err_duplicated c = do
  fcet (not c.cap_stdout_ || out_duplicated) runtime_error
  fcet (not c.cap_stderr_ || err_duplicated) runtime_error
  ok (exec_args c, exec_env c)

-- How the child goes on: as another program; to its end with an exit status; or with an exception,
-- which leaves `run` in the child.
pub data Fate : Type 0 where
  executes : List Text → List Text → Fate
  exits : ℕ → Fate
  throws : Error → Fate

abbrev executed : (List Text → List Text → Bool) → Result (List Text × List Text) → Fate
executed succeeds (ok (args, env)) = if succeeds args env then executes args env else exits 1
executed succeeds (err e) = throws e

-- What becomes of the child; `succeeds` is whether `execve` does.
pub child_fate :
    (out_duplicated err_duplicated : Bool) (succeeds : List Text → List Text → Bool) → Child → Fate
unfolding in_child
child_fate out_duplicated err_duplicated succeeds c =
    executed succeeds (in_child out_duplicated err_duplicated c)

-- The loop that reads the output.
pub read_output : List (Option Text) → Text
read_output [] = []
read_output (none ∷ rs) = []
read_output (some [] ∷ rs) = []
read_output (some (b ∷ bs) ∷ rs) = (b ∷ bs) ++ read_output rs

abbrev pub same_process : Option ℕ → Option ℕ → Bool
same_process none none = true
same_process none (some p) = false
same_process (some p) none = false
same_process (some p) (some q) = p == q

abbrev pub status_of : Option ℕ → Result ℕ
status_of none = err runtime_error
status_of (some n) = ok (n % 256)

-- The end of `run`.
abbrev pub wait : System → Result ℕ
wait os = fcet (same_process os.waited os.forked) runtime_error >> status_of os.exit_status

abbrev captures : Child → Bool
captures c = c.cap_stdout_ || c.cap_stderr_

-- What the parent does after `readEnv_`.
abbrev pub fork_and_wait : System → Child → Child × Result ℕ
fork_and_wait os c =
    if not (captures c)
    then (c, wait os)
    else if os.pipe_made
    then (record c { output = until_nul (read_output os.reads) }, wait os)
    else (c, err runtime_error)

abbrev pub after_env : System → Child × Result (Unit {0}) → Child × Result ℕ
after_env os (c, err e) = (c, err e)
after_env os (c, ok u) = fork_and_wait os c

-- `run`
pub run : System → Option (List Text) → Child → Child × Result ℕ
unfolding read_env read_output until_nul
run os profile c =
    if length c.cmd_ == 0 then (c, err logic_error) else after_env os (read_env profile c)
