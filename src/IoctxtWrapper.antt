-- ===== src/IoctxtWrapper.antt =====
-- src/IOctxtWrapper.cpp and hdr/bren/IOctxtWrapper.hpp. The context of Boost is a parameter; the
-- threads of `runThreads` run one after the other, each the whole of `ioctxt_.run()`. The mutex is
-- recursive, and each method holds it from its beginning to its end.
pub mod Stopped
mod Tests
use brenlib.Prelude.{ℕ, zero, suc, Bool, true, false, not, ◌==◌, if◌then◌else◌, List, [], ◌∷◌, ◌≡◌}

-- What the class uses of boost::asio::io_context, and what its documentation says of it: a context
-- that is stopped stays so while work is guarded or no longer guarded, and `run` returns at once.
pub record IoContext : Type 1 where
  pub Context : Type 0
  pub stopped : Context → Bool
  pub stop : Context → Context
  -- `run`: the context afterwards, and how many handlers were called
  pub run : Context → Context × ℕ
  -- a work guard is made, and reset
  pub guard_work : Context → Context
  pub reset_work : Context → Context
  pub stopped-stop : (c : Context) → stopped (stop c) ≡ true
  pub stopped-guard_work : (c : Context) → stopped c ≡ true → stopped (guard_work c) ≡ true
  pub stopped-reset_work : (c : Context) → stopped c ≡ true → stopped (reset_work c) ≡ true
  pub run_stopped : (c : Context) → stopped c ≡ true → run c ≡ (c, 0)

module _ (io : IoContext) where
  pub record Wrapper : Type 0 where
    pub ioctxt_ : io.Context
    -- how many threads are in `threads_`
    pub threads_ : ℕ
    -- whether `work_` holds a guard
    pub work_ : Bool

  -- `stopWhenIdle()`
  pub stop_when_idle : Wrapper → Bool
  stop_when_idle w = not w.work_

  -- `stopWhenIdle(stopWhenIdle_i)`
  pub set_stop_when_idle : Wrapper → Bool → Wrapper
  set_stop_when_idle w true =
      if w.work_ then record w { work_ = false; ioctxt_ = io.reset_work w.ioctxt_ } else w
  set_stop_when_idle w false =
      if w.work_ then w else record w { work_ = true; ioctxt_ = io.guard_work w.ioctxt_ }

  -- The middle of `stop`: the context is stopped and the threads are joined.
  abbrev pub stop_context : Wrapper → Wrapper
  stop_context w = record w {
    ioctxt_ = if io.stopped w.ioctxt_ then w.ioctxt_ else io.stop w.ioctxt_;
    threads_ = 0;
  }

  -- `stop`
  pub stop : Wrapper → Wrapper
  unfolding stop_when_idle set_stop_when_idle
  stop w =
      set_stop_when_idle (stop_context (if stop_when_idle w then w else set_stop_when_idle w true))
        (stop_when_idle w)

  -- `runHere`: how many handlers were called.
  pub run_here : Wrapper → Wrapper × ℕ
  unfolding stop
  run_here w =
      let stopped = stop w in
      let (context, handlers) = io.run stopped.ioctxt_ in
      (record stopped { ioctxt_ = context }, handlers)

  -- What each of the threads calls.
  pub run_each : ℕ → io.Context → io.Context × List ℕ
  run_each zero c = (c, [])
  run_each (suc n) c =
      let (c', handlers) = io.run c in let (c'', rest) = run_each n c' in (c'', handlers ∷ rest)

  -- `runThreads`: how many handlers each thread called.
  pub run_threads : Wrapper → ℕ → Wrapper × List ℕ
  unfolding stop run_each
  run_threads w n =
      let stopped = stop w in
      let (context, handlers) = run_each n stopped.ioctxt_ in
      if n == 0
      then (stopped, [])
      else (record stopped { ioctxt_ = context; threads_ = n }, handlers)
