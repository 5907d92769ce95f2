-- ===== src/IoctxtWrapper/Tests.antt =====
-- A context that counts what waits in it.
use brenlib.Prelude.{ℕ, Bool, true, false, if◌then◌else◌, [], ◌∷◌, replicate, ◌≡◌, refl}
use brenlib.IoctxtWrapper.{
  IoContext, Wrapper, stop_when_idle, set_stop_when_idle, stop, run_here, run_threads,
}
use brenlib.IoctxtWrapper.Stopped.{run_idle}

pub record Queue : Type 0 where
  pub waiting : ℕ
  pub halted : Bool

abbrev run_queue : Queue → Queue × ℕ
run_queue q = if q.halted then (q, 0) else (record q { waiting = 0 }, q.waiting)

run_queue_halted : (q : Queue) → q.halted ≡ true → run_queue q ≡ (q, 0)
run_queue_halted q h = rw h refl

abbrev counting : IoContext
counting = record {
  Context = Queue;
  stopped = λ q. q.halted;
  stop = λ q. record q { halted = true };
  run = run_queue;
  guard_work = λ q. q;
  reset_work = λ q. q;
  stopped-stop = λ q. refl;
  stopped-guard_work = λ q h. h;
  stopped-reset_work = λ q h. h;
  run_stopped = run_queue_halted;
}

abbrev busy : Wrapper counting
busy = record { ioctxt_ = record { waiting = 5; halted = false }; threads_ = 2; work_ = true }

runs :
    ((run_here counting busy).0 ≡ stop counting busy)
    × ((run_threads counting busy 2).1 ≡ 0 ∷ 0 ∷ [])
    × (stop_when_idle counting (set_stop_when_idle counting busy true) ≡ true)
unfolding run_here run_threads stop_when_idle set_stop_when_idle
runs = (refl, refl, refl)

run_idle_example :
    ((run_here counting busy).1 ≡ 0) × ((run_threads counting busy 3).1 ≡ replicate 3 0)
run_idle_example = run_idle counting busy 3
