-- ===== src/Singleton/Tests.antt =====
-- Runs of a singleton.
use brenlib.Prelude.{false, List, [], ◌∷◌, some, ◌≡◌, refl}
use brenlib.Singleton.{initial, get_instance, close, is_constructed}
use brenlib.Singleton.Alive.{Request, instance_call, close_call, run, IsSingle, run-IsSingle}

abbrev calls : List Request
calls = instance_call ∷ instance_call ∷ close_call ∷ instance_call ∷ []

runs :
    (run calls initial ≡ record { instance_a = some 1; made = 2; deleted = 0 ∷ []; at_exit = 2 })
    × (is_constructed (close (run calls initial)) ≡ false)
unfolding run get_instance close is_constructed
runs = (refl, refl)

run-IsSingle_example : IsSingle (run calls initial)
run-IsSingle_example = run-IsSingle calls
