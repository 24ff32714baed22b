-- ===== src/Spinning/Safety.antt =====
-- TimedExecutor::spin in priority_executor.cpp: no round of the loop faults.
use mathlib.Core.Path.{subst}
use deadline_driven_enhancem.Base.{
  ℕ, ◌≡◌, ◌≢◌, refl, ap, sym, ◌∙◌, Bool, true, Option, some, length, All,
}
use deadline_driven_enhancem.PriorityQueue.{PriorityQueue}
use deadline_driven_enhancem.Graph.{Graph, AnyExecutable, empty_executable}
use deadline_driven_enhancem.Strategy.Handles.{WaitableSizes}
use deadline_driven_enhancem.Executor.{
  Executor, Rcl, Outcome, waited, clear_failed, resize_failed, fill_failed, wait_failed, is_found,
}
use deadline_driven_enhancem.Executor.Free.{IsFree}
use deadline_driven_enhancem.Executor.Taking.{in_use, get_next_ready_executable-Ready}
use deadline_driven_enhancem.Executor.Serving.{IsServing, wait_for_work-IsServing}
use deadline_driven_enhancem.Spinning.{
  Next, next, thrown, Spinner, Ending, already_spinning, after_waiting, get_next_executable,
}

-- What get_next_executable gives for an executor with the flags `before`, and what it leaves.
pub data Served (mutually_exclusive : ℕ → Bool) (before after : ℕ → Bool) : Next → Type 0 where
  served :
      (any : AnyExecutable)
      → IsFree before any
      → after ≡ in_use mutually_exclusive before any
      → Served mutually_exclusive before after (next any (is_found any))
  excepted :
      (o : Outcome)
      → o ≢ waited
      → after ≡ before
      → Served mutually_exclusive before after (thrown o)

abbrev pub AllFree : Executor → Type 0
AllFree x = (group : ℕ) → x.can_be_taken_from group ≡ true

-- Between two rounds of the loop.
pub record IsCalm (s : Spinner) : Type 0 where
  pub serving : IsServing s.executor
  pub free : AllFree s.executor
  pub found : All (λ any. is_found any ≡ true) s.executed

module _ (pq : PriorityQueue) (g : Graph) (mutually_exclusive : ℕ → Bool) where
  after_waiting-Served :
      (millis : ℕ) (x : Executor) (o : Outcome)
      → IsServing x
      → (x' : Executor) × (n : Next) × (after_waiting pq g mutually_exclusive millis
            empty_executable
            (x, o)
          ≡ some (x', n))
        × IsServing x'
        × Served mutually_exclusive x.can_be_taken_from x'.can_be_taken_from n
  unfolding after_waiting
  after_waiting-Served millis x waited v =
      let (x', any, success, done, r) =
        get_next_ready_executable-Ready pq g mutually_exclusive millis x v.set_up in
      (
        x',
        next any success,
        rw done refl,
        record {
          set_up = r.set_up;
          in_step = ap length r.nodes ∙ v.in_step ∙ ap length (sym r.conditions);
        },
        subst (λ b. Served mutually_exclusive x.can_be_taken_from x'.can_be_taken_from (next any b))
            (sym r.found) (served any r.free r.flags),
      )
  after_waiting-Served millis x clear_failed v =
      (x, thrown clear_failed, refl, v, excepted clear_failed (λ h. cc) refl)
  after_waiting-Served millis x resize_failed v =
      (x, thrown resize_failed, refl, v, excepted resize_failed (λ h. cc) refl)
  after_waiting-Served millis x fill_failed v =
      (x, thrown fill_failed, refl, v, excepted fill_failed (λ h. cc) refl)
  after_waiting-Served millis x wait_failed v =
      (x, thrown wait_failed, refl, v, excepted wait_failed (λ h. cc) refl)

  -- For an executor whose strategy is set up, with a guard condition for each weak node, one round of
  -- get_next_executable does not fault, and leaves the executor so. It gives an AnyExecutable, in a
  -- group that may be taken from and that is marked if it is mutually exclusive, and success just
  -- where something is in it, or an exception of wait_for_work and the flags as they were.
  pub get_next_executable-Served :
      (rcl : Rcl) (z : WaitableSizes) (millis : ℕ) (x : Executor)
      → IsServing x
      → (x' : Executor) × (n : Next) × (get_next_executable pq g mutually_exclusive rcl z millis x
            empty_executable
          ≡ some (x', n))
        × IsServing x'
        × Served mutually_exclusive x.can_be_taken_from x'.can_be_taken_from n
  unfolding get_next_executable
  get_next_executable-Served rcl z millis x v =
      let (y, o, waits, same, w) = wait_for_work-IsServing rcl z x v in
      let (x', n, done, v', s) = after_waiting-Served millis y o w in
      (
        x',
        n,
        rw (waits, done) refl,
        v',
        subst (λ f. Served mutually_exclusive f x'.can_be_taken_from n) same s,
      )

  -- How a loop ends.
  record Ends (r : Option (Spinner × Ending)) : Type 0 where
    pub last : Spinner
    pub ending : Ending
    pub done : r ≡ some (last, ending)
    pub calm : IsCalm last
    pub own : ending ≢ already_spinning
