-- ===== src/Threads/Restored.antt =====
-- The reachable states of MultiThreadTimedExecutor in priority_executor.cpp: nothing is left behind.
use mathlib.Core.Path.{subst}
use deadline_driven_enhancem.Base.{
  ℕ, ◌≡◌, ap, sym, ◌∙◌, Bool, true, false, some, arith, some_eq, >>=-eq-some,
}
use deadline_driven_enhancem.PriorityQueue.{PriorityQueue}
use deadline_driven_enhancem.Graph.{Graph, AnyExecutable, empty_executable}
use deadline_driven_enhancem.Strategy.Handles.{WaitableSizes, contains}
use deadline_driven_enhancem.Executor.{
  Executor, Rcl, Outcome, waited, clear_failed, resize_failed, fill_failed, wait_failed, is_found,
  wait_for_work,
}
use deadline_driven_enhancem.Executor.Waiting.{wait_for_work-flags}
use deadline_driven_enhancem.Executor.Taking.{in_use}
use deadline_driven_enhancem.Threads.{
  idle, Pool, start, after_wait, take_work, Step, take, execute, return, destroy, Reaches, here,
  further, get_next_ready_executable,
}
use deadline_driven_enhancem.Threads.Leaks.{
  Distinct, NoLeak, schedule-NoLeak, finish_execution-NoLeak, release_timer-NoLeak, discard-NoLeak,
}
use deadline_driven_enhancem.Threads.Safety.{IsInitial, ready_inv}

module _ (mutually_exclusive : ℕ → Bool) where
  same_phases-NoLeak :
      (p : Pool) (x : Executor)
      → ((group : ℕ)
          → x.can_be_taken_from group ≡ false
          → p.executor.can_be_taken_from group ≡ false)
      → NoLeak mutually_exclusive p
      → NoLeak mutually_exclusive (record p { executor = x })
  same_phases-NoLeak p x h v = record {
    marked = λ group k. v.marked group (h group k);
    scheduled = v.scheduled;
    distinct = v.distinct;
  }

  module _ (pq : PriorityQueue) (g : Graph) (p p' : Pool) (rcl : Rcl) (z : WaitableSizes)
      (millis t : ℕ) (v : NoLeak mutually_exclusive p) (ready : p.phase t ≡ idle) where
    start-NoLeak :
        (any : AnyExecutable) (x' : Executor)
        → x'.can_be_taken_from ≡ in_use mutually_exclusive p.executor.can_be_taken_from any
        → (b : Bool) → is_found any ≡ b
        → NoLeak mutually_exclusive (start t p (x', any, b))
    unfolding start
    start-NoLeak any x' flags true found =
        schedule-NoLeak mutually_exclusive p t any x' v ready flags
    start-NoLeak any x' flags false found =
        same_phases-NoLeak p x' (λ group h. ground (arith, ap (λ f. f group) flags, found)) v

    after_wait-NoLeak :
        (x : Executor) (o : Outcome)
        → x.can_be_taken_from ≡ p.executor.can_be_taken_from
        → after_wait pq g mutually_exclusive millis t p (x, o) ≡ some (p', waited)
        → NoLeak mutually_exclusive p'
    unfolding after_wait
    after_wait-NoLeak x waited same h =
        let (r, found, done) =
          >>=-eq-some (get_next_ready_executable pq g mutually_exclusive millis x empty_executable)
            (λ r. some (start t p r, waited)) h in
        let (free, flags, success) = ready_inv mutually_exclusive pq g millis x r found in
        subst (λ q. NoLeak mutually_exclusive q) (ap (λ q. q.0) (some_eq done))
          (start-NoLeak r.1 r.0 (flags ∙ ap (λ f. in_use mutually_exclusive f r.1) same) r.2
            success)
    after_wait-NoLeak x clear_failed same h = cc
    after_wait-NoLeak x resize_failed same h = cc
    after_wait-NoLeak x fill_failed same h = cc
    after_wait-NoLeak x wait_failed same h = cc

    take_work-NoLeak :
        take_work pq g mutually_exclusive rcl z millis t p ≡ some (p', waited)
        → NoLeak mutually_exclusive p'
    unfolding take_work
    take_work-NoLeak h =
        let ((x, o), wait, rest) =
          >>=-eq-some (wait_for_work rcl z p.executor)
            (after_wait pq g mutually_exclusive millis t p) h in
        after_wait-NoLeak x o (wait_for_work-flags rcl z p.executor x o wait) rest

  Step-NoLeak :
      (pq : PriorityQueue) (g : Graph) (p p' : Pool)
      → Step pq g mutually_exclusive p p'
      → NoLeak mutually_exclusive p
      → NoLeak mutually_exclusive p'
  Step-NoLeak pq g p p' (take rcl z millis t _ ready h) v =
      take_work-NoLeak pq g p p' rcl z millis t v ready h
  Step-NoLeak pq g p _ (execute t any at) v =
      finish_execution-NoLeak mutually_exclusive p t any at v
  Step-NoLeak pq g p _ (return t any at) v = release_timer-NoLeak mutually_exclusive p t any at v
  Step-NoLeak pq g p _ (destroy t any at) v = discard-NoLeak mutually_exclusive p t any at v

  IsInitial-NoLeak :
      (p : Pool)
      → IsInitial mutually_exclusive p
      → ((group : ℕ) → p.executor.can_be_taken_from group ≡ true)
      → NoLeak mutually_exclusive p
  unfolding contains
  IsInitial-NoLeak p i free = record {
    marked = λ group h. absurd (cc (h, free group));
    scheduled = λ timer h. absurd (cc (i.timers, h));
    distinct = subst Distinct (sym i.timers) tt;
  }

  -- From a pool in which no thread has started and no group is in use, in every order of the threads'
  -- steps, with any replies of rcl and any clock readings: a group that may not be taken from has a
  -- thread that executes a callback of it, a timer in scheduled_timers_ has a thread that holds it,
  -- and no timer is there twice.
  pub reachable-NoLeak :
      (pq : PriorityQueue) (g : Graph) (p p' : Pool)
      → IsInitial mutually_exclusive p
      → ((group : ℕ) → p.executor.can_be_taken_from group ≡ true)
      → Reaches pq g mutually_exclusive p p'
      → NoLeak mutually_exclusive p'
  reachable-NoLeak pq g p _ i free here = IsInitial-NoLeak p i free
  reachable-NoLeak pq g p _ i free (further q r reach step) =
      Step-NoLeak pq g q r step (reachable-NoLeak pq g p q i free reach)
