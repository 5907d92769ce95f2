-- ===== src/Child/Environment.antt =====
-- The environment that src/Child.cpp reads from /etc/profile.env.
use brenlib.Prelude.{
  ℕ, zero, suc, ◌-◌, ◌≤◌, true, false, if◌then◌else◌, List, [], ◌∷◌, ◌++◌, Option, none, some,
  length, take, map, ok, err, out_of_range, ◌≡◌, refl, arith, All, length-append, ap, ◌∙◌,
}
use brenlib.Prelude.Text.{Text, text_eq, codes, elem}
use brenlib.Prelude.Maps.{lookup, text_key, lookup-insert, text_eq_iff}
use brenlib.Child.{Env, Child, contains, split_equal, parse_line, add_new, read_lines, read_env}

-- A line that exports a variable, with its value in quotes of any kind.
abbrev pub export_line : ℕ → Text × Text → Text
export_line q (name, value) = codes "export " ++ (name ++ b'=' ∷ q ∷ (value ++ q ∷ []))

split_equal-append :
    (name rest : Text)
    → elem b'=' name ≡ false
    → split_equal (name ++ b'=' ∷ rest) ≡ some (name, rest)
unfolding split_equal
split_equal-append [] rest h = refl
split_equal-append (c ∷ cs) rest h = ground (arith, split_equal-append cs rest)

take-append : (n : ℕ) (xs ys : Text) → n ≡ length xs → take n (xs ++ ys) ≡ xs
take-append zero [] ys h = refl
take-append zero (x ∷ xs) ys h = cc
take-append (suc n) [] ys h = cc
take-append (suc n) (x ∷ xs) ys h = ap (λ t. x ∷ t) (take-append n xs ys (omega arith))

take_front : (value : Text) (q : ℕ) → take (length (value ++ q ∷ []) - 1) (value ++ q ∷ []) ≡ value
take_front value q =
    take-append (length (value ++ q ∷ []) - 1) value (q ∷ [])
      (omega (arith, length-append value (q ∷ [])))

parse_line-export :
    (q : ℕ) (name value : Text)
    → elem b'=' name ≡ false
    → parse_line (export_line q (name, value)) ≡ ok (some (name, value))
unfolding parse_line
parse_line-export q name value h = ground (
  arith,
  split_equal-append name (q ∷ (value ++ q ∷ [])),
  take_front value q,
  length-append name (b'=' ∷ q ∷ (value ++ q ∷ [])),
  length-append value (q ∷ []),
)

-- A line with nothing behind its equal sign throws, unless the name has one byte only.
pub parse_line_bare :
    (name : Text)
    → elem b'=' name ≡ false
    → 2 ≤ length name
    → parse_line (codes "export " ++ (name ++ b'=' ∷ [])) ≡ err out_of_range
unfolding parse_line
parse_line_bare name h l =
    ground (arith, split_equal-append name [], length-append name (b'=' ∷ []))

-- The names of the variables have no equal sign.
abbrev pub AreNames : Env → Type 0
AreNames = All λ p. elem b'=' p.0 ≡ false

abbrev pub first_of : Option Text → Option Text → Option Text
first_of none o = o
first_of (some v) o = some v

lookup-add_new :
    (k name value : Text) (env : Env)
    → lookup k (add_new (some (name, value)) env)
      ≡ first_of (lookup k env) (if text_eq name k then some value else none)
unfolding contains
lookup-add_new k name value env = ground (arith, lookup-insert name k value env, text_eq_iff name k)

read_lines-cons :
    (line : Text) (lines : List Text) (env : Env) (found : Option (Text × Text))
    → parse_line line ≡ ok found
    → read_lines (line ∷ lines) env ≡ read_lines lines (add_new found env)
unfolding read_lines
read_lines-cons line lines env found h = rw (h, read_lines) refl

read_lines-export :
    (q : ℕ) (vars env : Env)
    → AreNames vars
    → (r : Env) × (read_lines (map (export_line q) vars) env ≡ (r, ok tt))
      × ((k : Text) → lookup k r ≡ first_of (lookup k env) (lookup k vars))
unfolding read_lines lookup
read_lines-export q [] env h = (env, refl, λ k. ground arith)
read_lines-export q ((name, value) ∷ vars) env h =
    let (r, e, l) = read_lines-export q vars (add_new (some (name, value)) env) h.1 in
    (
      r,
      read_lines-cons (export_line q (name, value)) (map (export_line q) vars) env
            (some (name, value)) (parse_line-export q name value h.0)
          ∙ e,
      λ k. ground (arith, l k, lookup-add_new k name value env),
    )

-- A file of quoted exports gives each variable the value of its first line, unless the variable was
-- there before: then it keeps its value.
pub read_env-export :
    (q : ℕ) (vars : Env) (c : Child)
    → AreNames vars
    → c.tried_env_ ≡ false
    → (env : Env) × (read_env (some (map (export_line q) vars)) c
        ≡ (record c { tried_env_ = true; env_ = env }, ok tt))
      × ((k : Text) → lookup k env ≡ first_of (lookup k c.env_) (lookup k vars))
unfolding read_env
read_env-export q vars c h t =
    let (r, e, l) = read_lines-export q vars c.env_ h in (r, rw (t, read_env) (rw e refl), l)
