-- ===== src/StateMachine/Registry.antt =====
-- Registering transitions and names, in hdr/bren/StateMachine.hpp.
use brenlib.Prelude.{
  ℕ, true, false, ◌&&◌, ◌==◌, if◌then◌else◌, List, [], ◌∷◌, Option, none, some, ok, err,
  invalid_argument, ◌≡◌, ◌≢◌, refl, arith, Option-cases, inl, inr, ==_iff, All,
}
use brenlib.Prelude.Text.{Text, elem}
use brenlib.Prelude.Maps.{lookup, insert, nat_key, lookup-insert, text_eq_iff, text_key}
use brenlib.StateMachine.{
  Machine, Target, EventMap, after_colon, shorten, used_by_other, register_name, entry, transition,
}

-- The transition registered for a state and an event.
abbrev pub registered : {W : Type 0} → Machine W → ℕ → ℕ → Option (Target W)
registered m from ev = lookup ev (entry from m.trans_)

entry-insert :
    {W : Type 0} (k j : ℕ) (v : EventMap W) (trans : List (ℕ × EventMap W))
    → entry j (insert k v trans) ≡ (if k == j then v else entry j trans)
unfolding entry
entry-insert k j v trans = ground (arith, lookup-insert k j v trans)

lookup_added :
    {W : Type 0} (from ev s e : ℕ) (tgt : Target W) (trans : List (ℕ × EventMap W))
    → lookup e (entry s (insert from (insert ev tgt (entry from trans)) trans))
      ≡ (if (from == s) && (ev == e) then some tgt else lookup e (entry s trans))
lookup_added from ev s e tgt trans = ground (
  arith,
  entry-insert from s (insert ev tgt (entry from trans)) trans,
  lookup-insert ev e tgt (entry from trans),
  ==_iff from s,
)

-- A transition that is accepted was not registered before, and is the only change to the table.
pub transition-registered :
    {W : Type 0} (m m' : Machine W) (from ev s e : ℕ) (tgt : Target W)
    → transition m from ev tgt ≡ ok m'
    → (registered m from ev ≡ none)
      × (registered m' s e ≡ (if (from == s) && (ev == e) then some tgt else registered m s e))
unfolding transition
transition-registered m m' from ev s e tgt h = ground (arith, lookup_added from ev s e tgt m.trans_)

-- A second transition for the same state and event is refused, whatever its target.
pub transition_twice :
    {W : Type 0} (m m' : Machine W) (from ev : ℕ) (tgt tgt' : Target W)
    → transition m from ev tgt ≡ ok m'
    → transition m' from ev tgt' ≡ err invalid_argument
unfolding transition
transition_twice m m' from ev tgt tgt' h = ground (arith, lookup_added from ev from ev tgt m.trans_)

-- In the end state no transition is accepted.
pub transition_end :
    {W : Type 0} (m m' : Machine W) (from ev : ℕ) (tgt : Target W)
    → m.state_ ≡ m.end_
    → transition m from ev tgt ≢ ok m'
unfolding transition
transition_end m m' from ev tgt e h = ground arith

-- A transition from a state to itself is accepted wherever the same one to another state is.
pub transition_loop :
    {W : Type 0} (m m' : Machine W) (from ev : ℕ) (tgt loop : Target W)
    → loop.target ≡ from
    → transition m from ev tgt ≡ ok m'
    → (m'' : Machine W) × (transition m from ev loop ≡ ok m'')
      × (registered m'' from ev ≡ some loop)
unfolding transition
transition_loop m m' from ev tgt loop l h = (
  record m { trans_ = insert from (insert ev loop (entry from m.trans_)) m.trans_ },
  ground arith,
  ground (arith, lookup_added from ev from ev loop m.trans_),
)

after_colon-elem : (s : Text) → (elem b':' s ≡ false) → after_colon s ≡ none
unfolding after_colon
after_colon-elem [] h = refl
after_colon-elem (c ∷ cs) h = ground (arith, after_colon-elem cs)

after_colon-none : (s : Text) → after_colon s ≡ none → elem b':' s ≡ false
unfolding after_colon
after_colon-none [] h = refl
after_colon-none (c ∷ cs) h = ground (arith, after_colon-none cs)

after_colon-some : (s t : Text) → after_colon s ≡ some t → elem b':' t ≡ false
unfolding after_colon
after_colon-some [] t h = cc
after_colon-some (c ∷ cs) t h = elim (Option-cases (after_colon cs)) [
  | inl e ↦ ground (arith, after_colon-none cs e)
  | inr (u, e) ↦ ground (arith, after_colon-some cs u e)
]

-- A short name has no colon.
pub shorten-elem : (s : Text) → elem b':' (shorten s) ≡ false
unfolding shorten
shorten-elem s = elim (Option-cases (after_colon s)) [
  | inl e ↦ rw (e, shorten) (after_colon-none s e)
  | inr (t, e) ↦ rw (e, shorten) (after_colon-some s t e)
]

-- The stored names have no colon.
abbrev pub AllShort : List (ℕ × Text) → Type 0
AllShort = All λ p. elem b':' p.1 ≡ false

used_by_other-colon :
    (k : ℕ) (n : Text) (names : List (ℕ × Text))
    → AllShort names
    → elem b':' n ≡ true
    → used_by_other k n names ≡ false
unfolding used_by_other
used_by_other-colon k n [] s h = refl
used_by_other-colon k n ((j, t) ∷ names) s h =
    ground (arith, used_by_other-colon k n names s.1 h, text_eq_iff n t)

insert-AllShort :
    (k : ℕ) (t : Text) (names : List (ℕ × Text))
    → AllShort names
    → elem b':' t ≡ false
    → AllShort (insert k t names)
unfolding insert
insert-AllShort k t [] s h = (h, tt)
insert-AllShort k t ((j, u) ∷ names) s h = ground (arith, insert-AllShort k t names s.1 h)

-- A name with a colon, such as a qualified enumerator, is never refused, also where another key
-- has the same short name. The stored names stay free of colons.
pub register_name_qualified :
    (k : ℕ) (n : Text) (names : List (ℕ × Text))
    → AllShort names
    → elem b':' n ≡ true
    → (register_name k n names ≡ ok (insert k (shorten n) names))
      × AllShort (insert k (shorten n) names)
unfolding register_name
register_name_qualified k n names s h =
    (rw (used_by_other-colon k n names s h), insert-AllShort k (shorten n) names s (shorten-elem n))

used_by_other-lookup :
    (k j : ℕ) (n : Text) (names : List (ℕ × Text))
    → lookup j names ≡ some n
    → j ≢ k
    → used_by_other k n names ≡ true
unfolding used_by_other lookup
used_by_other-lookup k j n [] h d = cc
used_by_other-lookup k j n ((i, t) ∷ names) h d =
    ground (arith, used_by_other-lookup k j n names, text_eq_iff n t, ==_iff i j, ==_iff i k)

-- A name that is accepted is stored short, for its key alone.
pub register_name-lookup :
    (k j : ℕ) (n : Text) (names names' : List (ℕ × Text))
    → register_name k n names ≡ ok names'
    → lookup j names' ≡ (if k == j then some (shorten n) else lookup j names)
unfolding register_name
register_name-lookup k j n names names' h = ground (arith, lookup-insert k j (shorten n) names)

-- A name that another key is registered under is refused.
pub register_name_taken :
    (k j : ℕ) (n : Text) (names : List (ℕ × Text))
    → lookup j names ≡ some n
    → j ≢ k
    → register_name k n names ≡ err invalid_argument
unfolding register_name
register_name_taken k j n names e d = rw (used_by_other-lookup k j n names e d) refl
