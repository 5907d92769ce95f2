-- ===== src/Observable/Tests.antt =====
-- An observable number with the observers 1, 2 and 3, of which 2 is gone. The world counts calls.
use brenlib.Prelude.{ℕ, ◌+◌, Bool, true, false, not, ◌==◌, [], ◌∷◌, none, some, ◌≡◌, refl}
use brenlib.Observable.{
  Surroundings, Observable, create, drop_expired, add_observer, add_pointer, remove_observer,
  remove_pointer, set_value,
}
use brenlib.Observable.Delivery.{Distinct, operations-Distinct, set_value-tell}

abbrev counting : Surroundings ℕ ℕ
counting = record {
  alive = λ w o. not (o == 2);
  observable_changed = λ o v w. w + 1;
  same = λ a b. a == b;
}

abbrev three : Observable ℕ
three = record { observers_ = 1 ∷ 2 ∷ 3 ∷ []; value_ = 8 }

runs :
    (set_value counting 0 three 9 ≡ (record { observers_ = 1 ∷ 3 ∷ []; value_ = 9 }, 2, true))
    × ((add_pointer counting 0 (create 8) (some 4)).1 ≡ true)
    × ((remove_pointer counting 0 three none).1 ≡ false)
unfolding set_value add_pointer remove_pointer create brenlib.Observable.notify drop_expired
    brenlib.Observable.scan_add
runs = (refl, refl, refl)

three-Distinct : Distinct three.observers_
three-Distinct = (refl, (refl, (refl, tt)))

operations-Distinct_example :
    Distinct (add_observer counting 0 three 4).0.observers_
    × Distinct (remove_observer counting 0 three 4).0.observers_
    × Distinct (set_value counting 0 three 9).0.observers_
operations-Distinct_example = operations-Distinct counting 0 three 4 9 three-Distinct

keeps_alive : (w : ℕ) (o : ℕ) → Path (ℕ → Bool) (λ p. not (p == 2)) (λ p. not (p == 2))
keeps_alive w o = refl

set_value-tell_example :
    set_value counting 0 three 9 ≡ (record { observers_ = 1 ∷ 3 ∷ []; value_ = 9 }, 2, true)
set_value-tell_example = set_value-tell counting 0 three 9 keeps_alive
