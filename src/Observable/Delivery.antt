-- ===== src/Observable/Delivery.antt =====
-- Who is registered and who is told, in hdr/bren/Observable.hpp.
use brenlib.Prelude.{
  ℕ, Bool, true, false, not, ◌||◌, ◌==◌, if◌then◌else◌, List, [], ◌∷◌, ◌++◌, ◌≡◌, refl, arith,
  ==_refl, ap, ◌∙◌, ==_iff, Bool-cases, inl, inr, sym,
}
use brenlib.Prelude.Text.{elem}
use brenlib.Observable.{
  Surroundings, Observable, scan_add, scan_remove, add_observer, remove_observer, notify,
  drop_expired, set_value,
}

-- The observers that are alive.
abbrev pub living : (ℕ → Bool) → List ℕ → List ℕ
living live [] = []
living live (o ∷ os) = if live o then o ∷ living live os else living live os

drop_expired-living : (live : ℕ → Bool) (os : List ℕ) → drop_expired live os ≡ living live os
unfolding drop_expired
drop_expired-living live [] = refl
drop_expired-living live (o ∷ os) = ground (arith, drop_expired-living live os)

abbrev any_expired : (ℕ → Bool) → List ℕ → Bool
any_expired live [] = false
any_expired live (o ∷ os) = not (live o) || any_expired live os

living-all : (live : ℕ → Bool) (os : List ℕ) → any_expired live os ≡ false → living live os ≡ os
living-all live [] h = refl
living-all live (o ∷ os) h = ground (arith, living-all live os)

-- No observer is registered twice.
abbrev pub Distinct : List ℕ → Type 0
Distinct [] = Unit
Distinct (o ∷ os) = (elem o os ≡ false) × Distinct os

scan_add-absent :
    (alive : ℕ → Bool) (o p : ℕ) (ps : List ℕ)
    → elem p ps ≡ false
    → elem p (scan_add alive o ps).0 ≡ false
unfolding scan_add
scan_add-absent alive o p [] h = refl
scan_add-absent alive o p (q ∷ qs) h = ground (arith, scan_add-absent alive o p qs)

scan_add-Distinct :
    (alive : ℕ → Bool) (o : ℕ) (ps : List ℕ) → Distinct ps → Distinct (scan_add alive o ps).0
unfolding scan_add
scan_add-Distinct alive o [] h = tt
scan_add-Distinct alive o (p ∷ ps) h =
    ground (arith, scan_add-Distinct alive o ps h.1, scan_add-absent alive o p ps h.0)

-- Looking for a living observer finds it just if it is registered.
scan_add-found :
    (alive : ℕ → Bool) (o : ℕ) (ps : List ℕ) → alive o ≡ true → (scan_add alive o ps).1 ≡ elem o ps
unfolding scan_add
scan_add-found alive o [] h = refl
scan_add-found alive o (p ∷ ps) h = ground (arith, scan_add-found alive o ps h)

scan_add-missing :
    (alive : ℕ → Bool) (o : ℕ) (ps : List ℕ)
    → (scan_add alive o ps).1 ≡ false
    → elem o (scan_add alive o ps).0 ≡ false
unfolding scan_add
scan_add-missing alive o [] h = refl
scan_add-missing alive o (p ∷ ps) h = ground (arith, scan_add-missing alive o ps)

scan_add-kept :
    (alive : ℕ → Bool) (o : ℕ) (ps : List ℕ)
    → (scan_add alive o ps).1 ≡ true
    → elem o (scan_add alive o ps).0 ≡ true
unfolding scan_add
scan_add-kept alive o [] h = cc
scan_add-kept alive o (p ∷ ps) h = ground (arith, scan_add-kept alive o ps)

elem-snoc : (o p : ℕ) (ps : List ℕ) → elem o (ps ++ p ∷ []) ≡ (elem o ps || (o == p))
elem-snoc o p [] = ground arith
elem-snoc o p (q ∷ qs) = ground (arith, elem-snoc o p qs)

Distinct-snoc : (o : ℕ) (ps : List ℕ) → Distinct ps → elem o ps ≡ false → Distinct (ps ++ o ∷ [])
Distinct-snoc o [] d h = (refl, tt)
Distinct-snoc o (p ∷ ps) d h = ground (arith, Distinct-snoc o ps d.1, elem-snoc p o ps)

remove-absent :
    (alive : ℕ → Bool) (o p : ℕ) (ps : List ℕ)
    → elem p ps ≡ false
    → elem p (scan_remove alive o ps).0 ≡ false
unfolding scan_remove
remove-absent alive o p [] h = refl
remove-absent alive o p (q ∷ qs) h = ground (arith, remove-absent alive o p qs)

remove-Distinct :
    (alive : ℕ → Bool) (o : ℕ) (ps : List ℕ) → Distinct ps → Distinct (scan_remove alive o ps).0
unfolding scan_remove
remove-Distinct alive o [] h = tt
remove-Distinct alive o (p ∷ ps) h =
    ground (arith, remove-Distinct alive o ps h.1, remove-absent alive o p ps h.0)

remove-gone :
    (alive : ℕ → Bool) (o : ℕ) (ps : List ℕ)
    → Distinct ps
    → alive o ≡ true
    → ((scan_remove alive o ps).1 ≡ elem o ps) × (elem o (scan_remove alive o ps).0 ≡ false)
unfolding scan_remove
remove-gone alive o [] d h = (refl, refl)
remove-gone alive o (p ∷ ps) d h = ground (arith, remove-gone alive o ps d.1 h, ==_iff p o)

drop-absent :
    (live : ℕ → Bool) (p : ℕ) (ps : List ℕ)
    → elem p ps ≡ false
    → elem p (drop_expired live ps) ≡ false
unfolding drop_expired
drop-absent live p [] h = refl
drop-absent live p (q ∷ qs) h = ground (arith, drop-absent live p qs)

drop-Distinct : (live : ℕ → Bool) (ps : List ℕ) → Distinct ps → Distinct (drop_expired live ps)
unfolding drop_expired
drop-Distinct live [] h = tt
drop-Distinct live (p ∷ ps) h = ground (arith, drop-Distinct live ps h.1, drop-absent live p ps h.0)

module _ {W T : Type 0} (env : Surroundings W T) where
  open env use {alive, observable_changed, same}

  -- No operation registers an observer twice, whatever observers do while they are told.
  pub operations-Distinct :
      (w : W) (s : Observable T) (o : ℕ) (v : T)
      → Distinct s.observers_
      → Distinct (add_observer env w s o).0.observers_
        × Distinct (remove_observer env w s o).0.observers_
        × Distinct (set_value env w s v).0.observers_
  unfolding add_observer remove_observer set_value
  operations-Distinct w s o v d =
      let kept = scan_add-Distinct (alive w) o s.observers_ d in
      (
        ground (
          arith,
          kept,
          scan_add-missing (alive w) o s.observers_,
          Distinct-snoc o (scan_add (alive w) o s.observers_).0 kept,
        ),
        ground (arith, remove-Distinct (alive w) o s.observers_ d),
        ground (arith, drop-Distinct (alive (notify env v s.observers_ w).0) s.observers_ d),
      )

  -- An observer that is alive is added just if it was not registered, and is registered afterwards.
  pub add_observer-elem :
      (w : W) (s : Observable T) (o : ℕ)
      → alive w o ≡ true
      → ((add_observer env w s o).1 ≡ not (elem o s.observers_))
        × (elem o (add_observer env w s o).0.observers_ ≡ true)
  unfolding add_observer
  add_observer-elem w s o h = ground (
    arith,
    scan_add-found (alive w) o s.observers_ h,
    scan_add-kept (alive w) o s.observers_,
    elem-snoc o o (scan_add (alive w) o s.observers_).0,
    ==_refl o,
  )

  -- It is removed just if it was registered, and is not registered afterwards.
  pub remove_observer-elem :
      (w : W) (s : Observable T) (o : ℕ)
      → Distinct s.observers_
      → alive w o ≡ true
      → ((remove_observer env w s o).1 ≡ elem o s.observers_)
        × (elem o (remove_observer env w s o).0.observers_ ≡ false)
  unfolding remove_observer
  remove_observer-elem w s o d h = ground (arith, remove-gone (alive w) o s.observers_ d h)

  -- The observers are told in turn.
  abbrev pub tell : T → List ℕ → W → W
  tell v [] w = w
  tell v (o ∷ os) w = tell v os (observable_changed o v w)

  notify-tell :
      (v : T) (os : List ℕ) (w : W) (live : ℕ → Bool)
      → ((w' : W) (o : ℕ) → alive (observable_changed o v w') ≡ alive w')
      → alive w ≡ live
      → ((notify env v os w).0 ≡ tell v (living live os) w)
        × (alive (notify env v os w).0 ≡ live)
        × ((notify env v os w).1 ≡ any_expired live os)
  unfolding notify
  notify-tell v [] w live keeps e = (refl, e, refl)
  notify-tell v (o ∷ os) w live keeps e =
      let now = ap (λ (f : ℕ → Bool). f o) e in
      elim (Bool-cases (live o)) [
        | inl l ↦
            let (told, after, expired) =
              notify-tell v os (observable_changed o v w) live keeps (keeps w o ∙ e) in
            rw (now ∙ l, notify) (rw l (told, after, expired))
        | inr l ↦
            let (told, after, expired) = notify-tell v os w live keeps e in
            rw (now ∙ l, notify) (rw l (told, after, refl))
      ]

  left-living :
      (live : ℕ → Bool) (os : List ℕ)
      → (if any_expired live os then drop_expired live os else os) ≡ living live os
  left-living live os = elim (Bool-cases (any_expired live os)) [
    | inl e ↦ rw e (drop_expired-living live os)
    | inr e ↦ rw e (sym (living-all live os e))
  ]

  -- If no observer dies or is born and nobody else uses the observable meanwhile, setting a new value
  -- stores it, tells it to each living observer in the order of registration, through
  -- `observableChanged`, and to nobody else, unregisters those that are gone, and answers true; the
  -- value that is there already changes nothing.
  pub set_value-tell :
      (w : W) (s : Observable T) (v : T)
      → ((w' : W) (o : ℕ) → alive (observable_changed o v w') ≡ alive w')
      → set_value env w s v ≡ (
          if same v s.value_ then (s, w, false) else (
            record { observers_ = living (alive w) s.observers_; value_ = v },
            tell v (living (alive w) s.observers_) w,
            true,
          ))
  unfolding set_value
  set_value-tell w s v keeps =
      let (told, after, expired) = notify-tell v s.observers_ w (alive w) keeps refl in
      elim (Bool-cases (same v s.value_)) [
        | inl e ↦ rw e refl
        | inr e ↦ rw e (rw (after, expired, left-living (alive w) s.observers_, told) refl)
      ]
