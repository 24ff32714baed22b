-- ===== src/Experiment/Shared/Running.antt =====
-- main of multi_test.cpp and arb_test.cpp from the first node to spin, for F1TENTH: the executor is
-- ready to run, and runs without a fault.
use mathlib.Core.Path.{subst}
use deadline_driven_enhancem.Base.{
  ℕ, ◌+◌, ◌<◌, ◌≡◌, ◌≢◌, refl, ap, sym, ◌∙◌, Bool, true, false, some, List, length, All, arith,
  some_eq, ◌^◌,
}
use deadline_driven_enhancem.PriorityQueue.{PriorityQueue}
use deadline_driven_enhancem.Graph.{Graph}
use deadline_driven_enhancem.Strategy.Settings.{IsUnique}
use deadline_driven_enhancem.Strategy.Handles.{WaitableSizes}
use deadline_driven_enhancem.Executor.{Executor, Rcl, Outcome}
use deadline_driven_enhancem.Executor.Serving.{IsServing}
use deadline_driven_enhancem.Threads.{Pool, start_threads, take_work, Reaches}
use deadline_driven_enhancem.Threads.Leaks.{NoLeak}
use deadline_driven_enhancem.Experiment.{ChainConfig, Objects, configure}
use deadline_driven_enhancem.Experiment.Settings.{AddsNode}
use deadline_driven_enhancem.Experiment.Chains.{IsTimed}
use deadline_driven_enhancem.Experiment.Released.{HasRelease}
use deadline_driven_enhancem.Experiment.Running.{IsNew, serving-take_work}
use deadline_driven_enhancem.Experiment.Shared.{shared_timers, set_f1tenth, f1tenth_set_up}
use deadline_driven_enhancem.Experiment.Shared.Placed.{AllPlaced}
use deadline_driven_enhancem.Experiment.Shared.AllChains.{AllShare, shared_deadline_chains-MakesAll}
use deadline_driven_enhancem.Experiment.Shared.Releasing.{release_chains-Steps, released-IsSetUp}

pub new-AllPlaced :
    (o : Objects) (shared : ℕ) (x : Executor)
    → IsNew x
    → AllPlaced (shared_timers o) shared 0 (set_f1tenth x).strategy
unfolding set_f1tenth
new-AllPlaced o shared x new = record {
  queue = new.queue;
  f1tenth = refl;
  unique = subst IsUnique (sym new.settings) tt;
  all = subst (All _) (sym new.settings) tt;
}

module _ (o : Objects) (chains : List ChainConfig) (shared : ℕ) (millis trigger : ℕ → ℕ)
    (x : Executor) (fresh : (c d : ℕ) → c ≢ d → o.vector c ≢ o.vector d) (adds : AddsNode o)
    (timed : All IsTimed chains) (shares : AllShare shared 0 chains) (new : IsNew x)
    (fits : (c : ℕ) → millis c + trigger c < 2 ^ 31) where
  -- For chains with a publisher and positive periods and deadlines, of which chain 1 has at least
  -- as many instances in a deadline as chain 0, vectors of deques at addresses of their own,
  -- add_node as rclcpp documents it, an executor with a new strategy, and release times below 2 ^
  -- 31: the set-up in which the strategy is for F1TENTH and chain 1 takes the publisher of chain 0
  -- does not fault. Then the strategy is set up, so that a release of chain 0 can push its deadline
  -- for chain 1 as well; there is a guard condition for each weak node, no group is in use that was
  -- not before, and the timer of each chain has a release time.
  pub f1tenth_set_up-IsServing :
      (x' : Executor) × (f1tenth_set_up o chains millis trigger x ≡ some x')
      × IsServing x'
      × (x'.can_be_taken_from ≡ x.can_be_taken_from)
      × ((d : ℕ) → d < length chains → HasRelease x'.strategy ((shared_timers o).timer_handle d))
  unfolding f1tenth_set_up configure set_f1tenth
  f1tenth_set_up-IsServing =
      let (y, made, m) =
        shared_deadline_chains-MakesAll o adds fresh shared (λ c. false) 0 0 chains (set_f1tenth x)
          timed shares (λ h. absurd (omega (arith, h))) (λ h. absurd (omega (arith, h)))
          (new-AllPlaced o shared x new) in
      let (s, done, step, released) =
        release_chains-Steps o shared (0 + length chains) 0 chains millis trigger y.strategy timed
          m.placed m.laid_out fits in
      (
        record y { strategy = s },
        rw (made, done) refl,
        record {
          set_up =
              released-IsSetUp o shared (0 + length chains) s step.placed
                (λ d below. released d (omega arith) below);
          in_step = m.keeps.in_step new.in_step;
        },
        m.keeps.flags,
        λ d below. released d (omega arith) (omega (arith, below)),
      )

  -- Where the chains, objects, executor and release times are as f1tenth_set_up-IsServing requires
  -- them, and every group is free: when main has set up the chains and the
  -- threads of spin have started on its executor, then in every state that they reach, in any order
  -- and with any replies of rcl and any clock, each group in use and each scheduled timer has its
  -- thread, no timer is scheduled twice, and the part of a round under the wait mutex does not
  -- fault, for any thread; so no deadline is pushed for chain 1 past the end of its vector.
  pub f1tenth-take_work :
      ((group : ℕ) → x.can_be_taken_from group ≡ true)
      → (pq : PriorityQueue) (g : Graph) (mutually_exclusive : ℕ → Bool) (x' : Executor) (p : Pool)
      → f1tenth_set_up o chains millis trigger x ≡ some x'
      → Reaches pq g mutually_exclusive (start_threads x') p
      → (rcl : Rcl) (z : WaitableSizes) (now t : ℕ)
      → NoLeak mutually_exclusive p
        × (q : Pool) × (outcome : Outcome) × (take_work pq g mutually_exclusive rcl z now t p
            ≡ some (q, outcome))
  f1tenth-take_work free pq g mutually_exclusive x' p start reach rcl z now t =
      let (y, done, serving, flags, _) = f1tenth_set_up-IsServing in
      let same : y ≡ x' = some_eq (sym done ∙ start) in
      serving-take_work x' (subst IsServing same serving)
        (λ group.
          ap (λ z. z.can_be_taken_from group) (sym same) ∙ ap (λ f. f group) flags ∙ free group)
        pq g mutually_exclusive p reach rcl z now t
