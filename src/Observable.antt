-- ===== src/Observable.antt =====
-- hdr/bren/Observable.hpp. An observer is a number, and a weak pointer to it is that number; the
-- world says which observers are alive. Observers do not call the observable back,
-- and no other thread does while they are told.
pub mod Delivery
mod Checks
mod Tests
use brenlib.Prelude.{
  ℕ, Bool, true, false, not, ◌||◌, ◌==◌, if◌then◌else◌, List, [], ◌∷◌, ◌++◌, Option, none, some,
}

-- What the observable uses of its surroundings: `lock` on a weak pointer, `observableChanged`, and
-- the value's `operator==`.
pub record Surroundings (W T : Type 0) : Type 0 where
  pub alive : W → ℕ → Bool
  pub observable_changed : ℕ → T → W → W
  pub same : T → T → Bool

pub record Observable (T : Type 0) : Type 0 where
  pub observers_ : List ℕ
  pub value_ : T

pub create : {T : Type 0} → T → Observable T
create v = record { observers_ = []; value_ = v }

-- The loop of `addObserver`: expired pointers go until the observer is found, if it is.
pub scan_add : (ℕ → Bool) → ℕ → List ℕ → List ℕ × Bool
scan_add alive o [] = ([], false)
scan_add alive o (p ∷ ps) =
    let (kept, found) = scan_add alive o ps in
    if not (alive p) then (kept, found) else if p == o then (p ∷ ps, true) else (p ∷ kept, found)

-- The loop of `removeObserver`.
pub scan_remove : (ℕ → Bool) → ℕ → List ℕ → List ℕ × Bool
scan_remove alive o [] = ([], false)
scan_remove alive o (p ∷ ps) =
    let (kept, found) = scan_remove alive o ps in
    if not (alive p) then (kept, found) else if p == o then (ps, true) else (p ∷ kept, found)

-- `remove_if` expired
pub drop_expired : (ℕ → Bool) → List ℕ → List ℕ
drop_expired live [] = []
drop_expired live (o ∷ os) = let rest = drop_expired live os in if live o then o ∷ rest else rest

module _ {W T : Type 0} (env : Surroundings W T) where
  open env use {alive, observable_changed, same}

  -- `addObserver(std::weak_ptr)`
  pub add_observer : W → Observable T → ℕ → Observable T × Bool
  add_observer w s o =
      let (kept, found) = scan_add (alive w) o s.observers_ in
      if not (alive w o)
      then (s, false)
      else if found
      then (record s { observers_ = kept }, false)
      else (record s { observers_ = kept ++ o ∷ [] }, true)

  -- `addObserver(Observer *)`
  pub add_pointer : W → Observable T → Option ℕ → Observable T × Bool
  unfolding add_observer
  add_pointer w s none = (s, false)
  add_pointer w s (some o) = add_observer w s o

  -- `removeObserver(std::weak_ptr)`
  pub remove_observer : W → Observable T → ℕ → Observable T × Bool
  remove_observer w s o =
      let (kept, found) = scan_remove (alive w) o s.observers_ in
      if not (alive w o) then (s, false) else (record s { observers_ = kept }, found)

  -- `removeObserver(Observer *)`
  pub remove_pointer : W → Observable T → Option ℕ → Observable T × Bool
  unfolding remove_observer
  remove_pointer w s none = (s, false)
  remove_pointer w s (some o) = remove_observer w s o

  -- The loop of `set` over the copied list: the world, and whether one was expired.
  pub notify : T → List ℕ → W → W × Bool
  notify v [] w = (w, false)
  notify v (o ∷ os) w = elim (alive w o) [
    | true ↦ notify v os (observable_changed o v w)
    | false ↦ ((notify v os w).0, true)
  ]

  -- `set`: the observable, the world and the answer.
  pub set_value : W → Observable T → T → Observable T × W × Bool
  set_value w s v =
      let changed : Observable T = record s { value_ = v } in
      if same v s.value_
      then (s, w, false)
      else (let (w', expired) = notify changed.value_ changed.observers_ w in
          let left =
            if expired then drop_expired (alive w') changed.observers_ else changed.observers_ in
          (record changed { observers_ = left }, w', true))
