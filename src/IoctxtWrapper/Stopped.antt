-- ===== src/IoctxtWrapper/Stopped.antt =====
-- What is left of the I/O context after `stop` of src/IOctxtWrapper.cpp.
use brenlib.Prelude.{
  ℕ, zero, suc, Bool, true, false, ◌==◌, if◌then◌else◌, List, [], replicate, ◌≡◌, refl, arith, ap,
  subst, sym, ==_iff, Bool-cases, inl, inr,
}
use brenlib.IoctxtWrapper.{
  IoContext, Wrapper, stop_when_idle, set_stop_when_idle, stop, run_here, run_each, run_threads,
}

module _ (io : IoContext) where
  stopped_context : (c : io.Context) → io.stopped (if io.stopped c then c else io.stop c) ≡ true
  stopped_context c = elim (Bool-cases (io.stopped c)) [
    | inl e ↦ rw e e
    | inr e ↦ rw e (io.stopped-stop c)
  ]

  pub stopped-set_stop_when_idle :
      (w : Wrapper io) (b : Bool)
      → io.stopped w.ioctxt_ ≡ true
      → io.stopped (set_stop_when_idle io w b).ioctxt_ ≡ true
  unfolding set_stop_when_idle
  stopped-set_stop_when_idle w true h = ground (arith, io.stopped-reset_work w.ioctxt_ h)
  stopped-set_stop_when_idle w false h = ground (arith, io.stopped-guard_work w.ioctxt_ h)

  -- After `stop` the context is stopped and no thread is left; whether it is to stop when it is idle
  -- is as it was.
  pub stop-stopped :
      (w : Wrapper io)
      → (io.stopped (stop io w).ioctxt_ ≡ true)
        × ((stop io w).threads_ ≡ 0)
        × (stop_when_idle io (stop io w) ≡ stop_when_idle io w)
  unfolding stop stop_when_idle set_stop_when_idle
  stop-stopped w = (stopped-set_stop_when_idle _ _ (stopped_context _), ground arith, ground arith)

  run_each_stopped :
      (n : ℕ) (c : io.Context) → io.stopped c ≡ true → run_each io n c ≡ (c, replicate n 0)
  unfolding run_each
  run_each_stopped zero c h = refl
  run_each_stopped (suc n) c h = rw (io.run_stopped c h) (rw (run_each_stopped n c h) refl)

  -- Neither `runHere` nor a thread of `runThreads` calls a handler, whatever waits in the context:
  -- both stop the context first, and nothing restarts it.
  pub run_idle :
      (w : Wrapper io) (n : ℕ) → ((run_here io w).1 ≡ 0) × ((run_threads io w n).1 ≡ replicate n 0)
  unfolding run_here run_threads
  run_idle w n =
      let s = (stop-stopped w).0 in
      (
        ap (λ r. r.1) (io.run_stopped (stop io w).ioctxt_ s),
        elim (Bool-cases (n == 0)) [
          | inl e ↦
              rw e (subst (λ m. ◌≡◌ {A = List ℕ} [] (replicate m 0)) (sym ((==_iff n 0).0 e)) refl)
          | inr e ↦ rw e (ap (λ r. r.1) (run_each_stopped n (stop io w).ioctxt_ s))
        ],
      )
