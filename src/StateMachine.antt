-- ===== src/StateMachine.antt =====
-- hdr/bren/StateMachine.hpp: the data of a machine and the operations that register things.
-- STATE and EVENT are their underlying numbers. `world` is all that handlers and observers can
-- read and write, the handler object included; they do not call the machine back.
pub mod Running
pub mod Registry
use brenlib.Prelude.{
  ℕ, Bool, true, false, not, ◌==◌, if◌then◌else◌, List, [], ◌∷◌, ◌++◌, Option, none, some, Result,
  ok, err, Error, invalid_argument, logic_error, runtime_error, ◌>>=◌, ◌>>◌, fcet,
}
use brenlib.Prelude.Text.{Text, text_eq, to_string, codes}
use brenlib.Prelude.Maps.{lookup, insert, nat_key}

-- transfunc and statefunc: the handler changes the world, and may throw.
abbrev pub TransFunc : Type 0 → Type 0
TransFunc W = W → W × Result Bool

abbrev pub StateFunc : Type 0 → Type 0
StateFunc W = W → W × Result (Unit {0})

-- callbackfunc_t: whether the observer wants to be called again.
abbrev pub Callback : Type 0 → Type 0
Callback W = ℕ → Text → W → W × Result Bool

-- transTarget; a function may be the null one.
pub record Target (W : Type 0) : Type 0 where
  pub target : ℕ
  pub on_trans : Option (TransFunc W)
  pub in_state : Option (StateFunc W)

abbrev pub EventMap : Type 0 → Type 0
EventMap W = List (ℕ × Target W)

pub record Machine (W : Type 0) : Type 0 where
  pub active_ : Bool
  pub callbacks_ : List (Callback W)
  pub end_ : ℕ
  pub events_ : List (ℕ × Text)
  pub states_ : List (ℕ × Text)
  -- whether the shared pointer `obj_` is set
  pub obj_ : Bool
  pub start_ : ℕ
  pub state_ : ℕ
  pub trans_ : List (ℕ × EventMap W)
  pub world : W

pub create : {W : Type 0} → ℕ → ℕ → W → Machine W
create start end w = record {
  active_ = false;
  callbacks_ = [];
  end_ = end;
  events_ = [];
  states_ = [];
  obj_ = false;
  start_ = start;
  state_ = start;
  trans_ = [];
  world = w;
}

-- `name_`: the registered name, or the number.
pub name_of : List (ℕ × Text) → ℕ → Text
name_of names k = elim (lookup k names) [ none ↦ to_string k | some t ↦ t ]

-- What stands behind the last colon, if there is one.
pub after_colon : Text → Option Text
after_colon [] = none
after_colon (c ∷ cs) = elim (after_colon cs) [
  | some t ↦ some t
  | none ↦ if c == b':' then some cs else none
]

-- `shorten_`
pub shorten : Text → Text
unfolding after_colon
shorten s = elim (after_colon s) [ none ↦ s | some t ↦ t ]

-- The loop of `name(key, name_i)`: does another key have this very name?
pub used_by_other : ℕ → Text → List (ℕ × Text) → Bool
used_by_other k n [] = false
used_by_other k n ((j, t) ∷ rest) =
    let later = used_by_other k n rest in
    if j == k then later else if text_eq n t then true else later

-- `name(key, name_i)`, the same for events and states.
pub register_name : ℕ → Text → List (ℕ × Text) → Result (List (ℕ × Text))
unfolding used_by_other shorten
register_name k n names = do
  fcet (not (used_by_other k n names)) invalid_argument
  ok (insert k (shorten n) names)

pub name_event : {W : Type 0} → Machine W → ℕ → Text → Result (Machine W)
name_event m ev n = register_name ev n m.events_ >>= λ names. ok (record m { events_ = names })

pub name_state : {W : Type 0} → Machine W → ℕ → Text → Result (Machine W)
name_state m st n = register_name st n m.states_ >>= λ names. ok (record m { states_ = names })

-- `trans_[from]`: an absent entry is made, and empty.
pub entry : {W : Type 0} → ℕ → List (ℕ × EventMap W) → EventMap W
entry from trans = elim (lookup from trans) [ none ↦ [] | some events ↦ events ]

abbrev pub absent : {A : Type 0} → Option A → Bool
absent none = true
absent (some a) = false

-- `transition`. Where the last test throws, `trans_[from_i]` was there before, and nothing changes.
pub transition : {W : Type 0} → Machine W → ℕ → ℕ → Target W → Result (Machine W)
unfolding entry
transition m from ev tgt = do
  fcet (not m.active_) runtime_error
  fcet (not (from == m.end_)) invalid_argument
  fcet (not (m.state_ == m.end_)) logic_error
  fcet (absent (lookup ev (entry from m.trans_))) invalid_argument
  ok (record m { trans_ = insert from (insert ev tgt (entry from m.trans_)) m.trans_ })

-- `noop`
pub noop : {W : Type 0} → TransFunc W
noop w = (w, ok true)

-- `obj`: set the handler object.
pub set_obj : {W : Type 0} → Machine W → Machine W
set_obj m = record m { obj_ = true }

abbrev observed :
    {W : Type 0} → Machine W → Callback W → W × Result Bool → Machine W × Result (Unit {0})
observed m f (w, ok true) = (record m { callbacks_ = m.callbacks_ ++ f ∷ []; world = w }, ok tt)
observed m f (w, ok false) = (record m { world = w }, ok tt)
observed m f (w, err e) = (record m { world = w }, err e)

-- `observe`: call the observer at once, and keep it if it says so.
pub observe : {W : Type 0} → Machine W → Callback W → Machine W × Result (Unit {0})
observe m f = observed m f (f m.state_ (name_of m.states_ m.state_) m.world)

-- The lines of `digraph` for the transitions, in the order of the maps.
pub digraph_events : {W : Type 0} → Machine W → ℕ → EventMap W → Text
digraph_events m from [] = []
digraph_events m from ((ev, tgt) ∷ events) =
    codes "\t\""
    ++ (name_of m.states_ from
        ++ (codes "\" -> \""
            ++ (name_of m.states_ tgt.target
                ++ (codes "\" [ label=\""
                    ++ (name_of m.events_ ev
                        ++ (codes "\" ];\n" ++ digraph_events m from events))))))

pub digraph_states : {W : Type 0} → Machine W → List (ℕ × EventMap W) → Text
unfolding digraph_events
digraph_states m [] = []
digraph_states m ((from, events) ∷ trans) = digraph_events m from events ++ digraph_states m trans

-- `digraph`
pub digraph : {W : Type 0} → Machine W → Text
unfolding digraph_states
digraph m =
    codes "digraph {\n\t\"__start__\" [style=\"filled\", label=\"\", fillcolor=\"black\", "
    ++ (codes "shape=\"circle\", fixedsize=true, width=0.2];\n\t\""
        ++ (name_of m.states_ m.end_
            ++ (codes "\" [peripheries=2];\n\t\"__start__\" -> \""
                ++ (name_of m.states_ m.start_
                    ++ (codes "\";\n" ++ (digraph_states m m.trans_ ++ codes "}\n"))))))
