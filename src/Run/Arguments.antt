-- ===== src/Run/Arguments.antt =====
-- The loop of src/run.cpp that copies the arguments in the child.
use mathlib.Core.List.{append_assoc, append-nil}
use brenlib.Prelude.{
  ℕ, zero, suc, ◌+◌, ◌%◌, ◌<◌, ◌≤◌, Bool, if◌then◌else◌, ok, err, runtime_error, List, [], ◌∷◌,
  ◌++◌, Option, none, some, length, map, replicate, set, get_elem?, ◌≡◌, ◌≢◌, refl, ap,
  Option-cases, inl, inr, ◌∙◌, sym, subst, arith, length-append,
}
use brenlib.Prelude.Text.{Text}
use brenlib.Child.{until_nul}
use brenlib.Run.{copy_args, in_child}

module _ {A : Type 0} where
  get_elem?-append :
      (xs : List A) (y : A) (ys : List A) → get_elem? (xs ++ y ∷ ys) (length xs) ≡ some y
  get_elem?-append [] y ys = refl
  get_elem?-append (x ∷ xs) y ys = get_elem?-append xs y ys

  get_elem?_past : (xs : List A) → get_elem? xs (length xs) ≡ none
  get_elem?_past [] = refl
  get_elem?_past (x ∷ xs) = get_elem?_past xs

  get_elem?_some : (xs : List A) (i : ℕ) → i < length xs → get_elem? xs i ≢ none
  get_elem?_some [] i h = absurd (omega arith)
  get_elem?_some (x ∷ xs) zero h = cc
  get_elem?_some (x ∷ xs) (suc i) h = get_elem?_some xs i (omega arith)

  set-append :
      (xs : List A) (y z : A) (ys : List A) → set (xs ++ y ∷ ys) (length xs) z ≡ xs ++ z ∷ ys
  set-append [] y z ys = refl
  set-append (x ∷ xs) y z ys = ap (λ t. x ∷ t) (set-append xs y z ys)

-- The cells of `argv` for arguments that were copied.
abbrev pub cells : List Text → List (Option Text)
cells = map (λ a. some (until_nul a))

length-cells : (done : List Text) → length (cells done) ≡ length done
length-cells [] = refl
length-cells (a ∷ done) = ap suc (length-cells done)

cells-append : (done todo : List Text) → cells (done ++ todo) ≡ cells done ++ cells todo
cells-append [] todo = refl
cells-append (a ∷ done) todo = ap (λ t. some (until_nul a) ∷ t) (cells-append done todo)

-- The cells that are not written yet, and the last one.
unwritten : List Text → List (Option Text)
unwritten todo = none ∷ replicate (length todo) none

copy_args_last :
    (rounds i : ℕ) (args : List Text) (argv : List (Option Text))
    → get_elem? args i ≡ none
    → copy_args (suc rounds) i args argv ≡ some (set argv i none)
unfolding copy_args
copy_args_last rounds i args argv e = rw (copy_args, e) refl

copy_args_next :
    (rounds i : ℕ) (args : List Text) (argv : List (Option Text)) (a : Text)
    → get_elem? args i ≡ some a
    → copy_args (suc rounds) i args argv
      ≡ copy_args rounds ((i + 1) % 65536) args (set argv i (some (until_nul a)))
unfolding copy_args
copy_args_next rounds i args argv a e = rw (copy_args, e) refl

-- The cell of the next argument is written.
written :
    (done todo : List Text) (a : Text)
    → set (cells done ++ unwritten (a ∷ todo)) (length done) (some (until_nul a))
      ≡ cells (done ++ a ∷ []) ++ unwritten todo
unfolding unwritten
written done todo a =
    subst
      (λ n.
        set (cells done ++ none ∷ unwritten todo) n (some (until_nul a))
        ≡ cells (done ++ a ∷ []) ++ unwritten todo)
      (length-cells done)
      (set-append (cells done) none (some (until_nul a)) (unwritten todo)
        ∙ (sym (append_assoc (cells done) (some (until_nul a) ∷ []) (unwritten todo))
            ∙ ap (λ t. t ++ unwritten todo) (sym (cells-append done (a ∷ [])))))

last_written :
    (done : List Text)
    → set (cells done ++ unwritten []) (length done) none ≡ cells done ++ none ∷ []
unfolding unwritten
last_written done =
    subst (λ n. set (cells done ++ none ∷ []) n none ≡ cells done ++ none ∷ []) (length-cells done)
      (set-append (cells done) none none [])

next_index :
    (done todo : List Text) (a : Text)
    → length (done ++ a ∷ todo) < 65536
    → length (done ++ a ∷ []) ≡ (length done + 1) % 65536
next_index done todo a h =
    omega (arith, h, length-append done (a ∷ todo), length-append done (a ∷ []))

copied_from :
    (todo done args : List Text) (rounds : ℕ)
    → args ≡ done ++ todo
    → length todo < rounds
    → length args < 65536
    → copy_args rounds (length done) args (cells done ++ unwritten todo)
      ≡ some (cells args ++ none ∷ [])
copied_from todo done args zero e h b = absurd (omega (arith, h))
copied_from [] done args (suc rounds) e h b =
    let whole : args ≡ done = e ∙ append-nil done in
    copy_args_last rounds (length done) args (cells done ++ unwritten [])
      (rw whole (get_elem?_past done))
    ∙ rw whole (ap some (last_written done))
copied_from (a ∷ todo) done args (suc rounds) e h b =
    let more : args ≡ (done ++ a ∷ []) ++ todo = e ∙ sym (append_assoc done (a ∷ []) todo) in
    let place : length (done ++ a ∷ []) ≡ (length done + 1) % 65536 =
      next_index done todo a (subst (λ t. length t < 65536) e b) in
    copy_args_next rounds (length done) args (cells done ++ unwritten (a ∷ todo)) a
      (rw e (get_elem?-append done a todo))
    ∙ rw (written done todo a)
        (rw (← place) (copied_from todo (done ++ a ∷ []) args rounds more (omega (arith, h)) b))

-- The arguments are copied up to their first byte 0, and behind them stands null, in as many rounds as
-- there are arguments and one more.
pub copy_args-cells :
    (args : List Text)
    → length args < 65536
    → copy_args (suc (length args)) 0 args (replicate (suc (length args)) none)
      ≡ some (cells args ++ none ∷ [])
unfolding unwritten
copy_args-cells args h = copied_from args [] args (suc (length args)) refl (omega arith) h

-- With fewer than 2 ^ 16 arguments the child comes to `execv`, which gets each argument up to its
-- first byte 0 and null behind them; it throws in the child exactly if `execv` fails.
pub in_child-cells :
    (succeeds : Text → List (Option Text) → Bool) (command : Text) (args : List Text)
    → length args < 65536
    → in_child succeeds command args
      ≡ some (
          if succeeds command (cells args ++ none ∷ [])
          then ok (cells args ++ none ∷ [])
          else err runtime_error)
unfolding in_child
in_child-cells succeeds command args h = ground (arith, copy_args-cells args h)

copy_args-none :
    (i : ℕ) (args : List Text) (argv : List (Option Text)) → copy_args 0 i args argv ≡ none
unfolding copy_args
copy_args-none i args argv = refl

-- With 2 ^ 16 arguments or more the index never reaches their number: the loop does not end.
pub copy_args_endless :
    (rounds i : ℕ) (args : List Text) (argv : List (Option Text))
    → i < 65536
    → 65536 ≤ length args
    → copy_args rounds i args argv ≡ none
copy_args_endless zero i args argv h l = copy_args-none i args argv
copy_args_endless (suc rounds) i args argv h l = elim (Option-cases (get_elem? args i)) [
  | inl e ↦ absurd (get_elem?_some args i (omega arith) e)
  | inr (a, e) ↦
      copy_args_next rounds i args argv a e
      ∙ copy_args_endless rounds ((i + 1) % 65536) args (set argv i (some (until_nul a)))
          (omega arith) l
]
