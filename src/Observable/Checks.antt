-- ===== src/Observable/Checks.antt =====
-- The unit test of hdr/bren/Observable.hpp, chk/observing.cpp. The watcher is the observer 1, and 0 is
-- a number that no observer has, for the empty weak pointer.
use brenlib.Prelude.{
  ℕ, Bool, true, false, not, ◌&&◌, ◌==◌, List, [], ◌∷◌, none, length, Result, ok, ◌>>=◌, ◌>>◌, ◌≡◌,
  refl,
}
use brenlib.Prelude.Asserts.{Check, assert}
use brenlib.Observable.{
  Surroundings, Observable, create, add_observer, add_pointer, remove_observer, remove_pointer,
  set_value,
}

-- `Watcher`, and whether it is in scope.
pub record Watcher : Type 0 where
  pub in_scope : Bool
  pub updated : Bool
  pub value : Bool

abbrev begins_with : ℕ → List ℕ → Bool
begins_with o [] = false
begins_with o (p ∷ ps) = o == p

abbrev same_bool : Bool → Bool → Bool
same_bool true b = b
same_bool false b = not b

-- `observableChanged` of the watcher
pub changed : ℕ → Bool → Watcher → Watcher
changed o v w = record w { updated = true; value = v }

abbrev is_alive : Watcher → ℕ → Bool
is_alive w o = (o == 1) && w.in_scope

abbrev watching : Surroundings Watcher Bool
unfolding changed
watching = record { alive = is_alive; observable_changed = changed; same = same_bool }

abbrev new_watcher : Watcher
new_watcher = record { in_scope = true; updated = false; value = true }

abbrev no_watcher : Watcher
no_watcher = record new_watcher { in_scope = false }

abbrev Scene : Type 0
Scene = Watcher × Observable Bool

-- `set`, and the assertion of its answer.
pub sets : Bool → Bool → Scene → Result Scene
sets v answer (w, t) = do
  let r = set_value watching w t v
  assert (same_bool answer r.2)
  ok (r.1, r.0)

-- A call that answers and may change the list of observers, and the assertions of its answer and of the
-- length of the list.
abbrev listed : Watcher → Bool → ℕ → Observable Bool × Bool → Result Scene
listed w answer n (t, b) = do
  assert (same_bool answer b)
  assert (length t.observers_ == n)
  ok (w, t)

pub watcher_adds : Scene → Result Scene
watcher_adds (w, t) = do
  a ← listed w true 1 (add_observer watching w t 1)
  assert (begins_with 1 (a.1).observers_)
  b ← listed w false 1 (add_pointer watching w a.1 none)
  c ← listed w false 1 (add_observer watching w b.1 0)
  d ← listed w false 1 (add_observer watching w c.1 1)
  e ← listed w false 1 (add_observer watching w d.1 1)
  assert (not (e.0).updated)
  ok e

pub watcher_told : Scene → Result Scene
watcher_told scene = do
  same ← sets true false scene
  assert (not (same.0).updated)
  other ← sets false true same
  assert (same_bool true (other.0).updated)
  assert (not (other.0).value)
  ok (record (other.0) { updated = false }, other.1)

pub watcher_removes : Scene → Result Scene
watcher_removes (w, t) = do
  a ← listed w false 1 (remove_pointer watching w t none)
  b ← listed w false 1 (remove_observer watching w a.1 0)
  c ← listed w true 0 (remove_observer watching w b.1 1)
  d ← sets true true c
  assert (not (d.0).updated)
  listed d.0 true 1 (add_observer watching d.0 d.1 1)

-- The watcher leaves its scope.
pub watcher_gone : Scene → Check
watcher_gone (w, t) = do
  let gone = record w { in_scope = false }
  assert (length t.observers_ == 1)
  a ← sets true false (gone, t)
  assert (length (a.1).observers_ == 1)
  b ← sets false true a
  assert (length (b.1).observers_ == 0)

pub check_all : Check
check_all = do
  let t = create false
  assert (not t.value_)
  assert (same_bool true (create true).value_)
  assert (length t.observers_ == 0)
  a ← sets false false (no_watcher, t)
  b ← sets true true a
  c ← sets true false b
  added ← watcher_adds (new_watcher, c.1)
  told ← watcher_told added
  removed ← watcher_removes told
  watcher_gone removed

check_all_passes : check_all ≡ ok tt
unfolding check_all create sets set_value watching watcher_adds add_observer
    brenlib.Observable.scan_add brenlib.Observable.notify add_pointer watcher_told watcher_removes
    remove_pointer brenlib.Observable.scan_remove watcher_gone brenlib.Observable.drop_expired
check_all_passes = refl
