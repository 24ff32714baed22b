-- ===== src/Threads/Progress.antt =====
-- The threads of MultiThreadTimedExecutor in priority_executor.cpp can always go on, and can always
-- come to rest with every group free.
use mathlib.Core.Path.{subst}
use deadline_driven_enhancem.Base.{
  ℕ, ◌≡◌, refl, ap, sym, ◌∙◌, inl, inr, Bool, true, false, some, length, Bool-cases, Option-cases,
  some_eq,
}
use deadline_driven_enhancem.PriorityQueue.{PriorityQueue}
use deadline_driven_enhancem.Graph.{Graph, AnyExecutable, empty_executable}
use deadline_driven_enhancem.Strategy.Handles.{WaitableSizes, contains}
use deadline_driven_enhancem.Executor.{
  Executor, Rcl, Outcome, waited, clear_failed, resize_failed, fill_failed, wait_failed, is_found,
}
use deadline_driven_enhancem.Executor.Taking.{next_by_priority-some, marked}
use deadline_driven_enhancem.Executor.Serving.{IsServing, wait_for_work-IsServing}
use deadline_driven_enhancem.Threads.Serving.{reset_group-IsServing}
use deadline_driven_enhancem.Threads.{
  Pool, schedule, start, finish_execution, release_timer, after_wait, take_work, Step, take,
  execute, return, destroy, discard, Reaches, here, further, get_next_ready_executable,
}

schedule-IsServing :
    (t : ℕ) (any : AnyExecutable) (p : Pool)
    → IsServing p.executor
    → IsServing (schedule t any p).executor
unfolding schedule
schedule-IsServing t any p v = elim (Option-cases any.timer) [
  | inl h ↦ rw (h, schedule) v
  | inr (timer, h) ↦ elim (Bool-cases (contains timer p.scheduled_timers)) [
    | inl twice ↦ rw (h, schedule, twice) (reset_group-IsServing any p.executor v)
    | inr new ↦ rw (h, schedule, new) v
  ]
]

start-IsServing :
    (t : ℕ) (p : Pool) (x : Executor) (any : AnyExecutable) (b : Bool)
    → IsServing x
    → IsServing (start t p (x, any, b)).executor
unfolding start
start-IsServing t p x any true v = schedule-IsServing t any (record p { executor = x }) v
start-IsServing t p x any false v = v

release_timer-executor :
    (t : ℕ) (any : AnyExecutable) (p : Pool) → (release_timer t any p).executor ≡ p.executor
unfolding release_timer
release_timer-executor t any p = elim (Option-cases any.timer) [
  | inl h ↦ rw (h, release_timer) refl
  | inr (timer, h) ↦ rw (h, release_timer) refl
]

module _ (pq : PriorityQueue) (g : Graph) (mutually_exclusive : ℕ → Bool) where
  -- The threads take turns.
  abbrev pub Turns : Pool → Pool → Type 0
  Turns p q = Reaches pq g mutually_exclusive p q

  get_next_ready_executable-IsServing :
      (millis : ℕ) (x : Executor)
      → IsServing x
      → (r : Executor × AnyExecutable × Bool) × (get_next_ready_executable pq g mutually_exclusive
            millis x empty_executable
          ≡ some r)
        × IsServing r.0
  unfolding get_next_ready_executable
  get_next_ready_executable-IsServing millis x v =
      let (y, any, next, c) = next_by_priority-some pq g mutually_exclusive millis x v.set_up in
      let (x', done, r) = marked pq g mutually_exclusive x y any c v.set_up in
      (
        (x', any, is_found any),
        rw (next, done) refl,
        record {
          set_up = r.set_up;
          in_step = ap length r.nodes ∙ v.in_step ∙ ap length (sym r.conditions);
        },
      )

  after_wait-IsServing :
      (millis t : ℕ) (p : Pool) (x : Executor) (o : Outcome)
      → IsServing x
      → (p' : Pool) × (after_wait pq g mutually_exclusive millis t p (x, o) ≡ some (p', o))
        × IsServing p'.executor
  unfolding after_wait
  after_wait-IsServing millis t p x waited v =
      let (r, found, w) = get_next_ready_executable-IsServing millis x v in
      (start t p r, rw found refl, start-IsServing t p r.0 r.1 r.2 w)
  after_wait-IsServing millis t p x clear_failed v = (_, refl, v)
  after_wait-IsServing millis t p x resize_failed v = (_, refl, v)
  after_wait-IsServing millis t p x fill_failed v = (_, refl, v)
  after_wait-IsServing millis t p x wait_failed v = (_, refl, v)

  take_work-IsServing :
      (rcl : Rcl) (z : WaitableSizes) (millis t : ℕ) (p : Pool)
      → IsServing p.executor
      → (p' : Pool) × (o : Outcome) × (take_work pq g mutually_exclusive rcl z millis t p
          ≡ some (p', o))
        × IsServing p'.executor
  unfolding take_work
  take_work-IsServing rcl z millis t p v =
      let (x, o, waits, _, w) = wait_for_work-IsServing rcl z p.executor v in
      let (p', done, w') = after_wait-IsServing millis t p x o w in
      (p', o, rw (waits, done) refl, w')

  Step-IsServing :
      (p p' : Pool)
      → Step pq g mutually_exclusive p p'
      → IsServing p.executor
      → IsServing p'.executor
  unfolding finish_execution discard
  Step-IsServing p p' (take rcl z millis t _ _ h) v =
      let (q, o, done, w) = take_work-IsServing rcl z millis t p v in
      subst (λ r. IsServing r.0.executor) (some_eq (sym done ∙ h)) w
  Step-IsServing p _ (execute t any at) v = reset_group-IsServing any p.executor v
  Step-IsServing p _ (destroy t any at) v = reset_group-IsServing any p.executor v
  Step-IsServing p _ (return t any at) v = subst IsServing (sym (release_timer-executor t any p)) v

  reachable-IsServing : (p p' : Pool) → Turns p p' → IsServing p.executor → IsServing p'.executor
  reachable-IsServing p _ here v = v
  reachable-IsServing p _ (further q r reach step) v =
      Step-IsServing q r step (reachable-IsServing p q reach v)

  -- In every pool that is reached from one whose executor has a strategy that is set up and a guard
  -- condition for each weak node, the part of a round under the wait mutex does not fault, for any
  -- thread, any replies of rcl and any clock: the thread goes on, or an exception of
  -- wait_for_work ends it.
  pub reachable-take_work :
      (p p' : Pool)
      → Turns p p'
      → IsServing p.executor
      → (rcl : Rcl) (z : WaitableSizes) (millis t : ℕ)
      → (q : Pool) × (o : Outcome) × (take_work pq g mutually_exclusive rcl z millis t p'
          ≡ some (q, o))
        × IsServing q.executor
  reachable-take_work p p' reach v rcl z millis t =
      take_work-IsServing rcl z millis t p' (reachable-IsServing p p' reach v)
