-- ===== src/Experiment/Running.antt =====
-- main of dy_2.cpp from the first node to spin: the executor is ready to run, and runs without a
-- fault.
use mathlib.Core.Path.{subst}
use deadline_driven_enhancem.Base.{
  ap, true, ℕ, ◌≡◌, refl, sym, ◌∙◌, Bool, false, some, List, [], length, All, some_eq, arith, ◌+◌,
  ◌^◌, ◌<◌,
}
use deadline_driven_enhancem.PriorityQueue.{PriorityQueue}
use deadline_driven_enhancem.Graph.{Graph}
use deadline_driven_enhancem.Strategy.{get_priority_settings, lookup}
use deadline_driven_enhancem.Strategy.Handles.{WaitableSizes}
use deadline_driven_enhancem.Executor.{Executor, Rcl, Outcome}
use deadline_driven_enhancem.Executor.Serving.{IsServing}
use deadline_driven_enhancem.Threads.{Pool, start_threads, take_work, Reaches}
use deadline_driven_enhancem.Threads.Safety.{IsInitial}
use deadline_driven_enhancem.Threads.Leaks.{NoLeak}
use deadline_driven_enhancem.Threads.Restored.{reachable-NoLeak}
use deadline_driven_enhancem.Threads.Progress.{reachable-take_work}
use deadline_driven_enhancem.Experiment.{ChainConfig, Objects, configure, set_up}
use deadline_driven_enhancem.Experiment.Settings.{AddsNode}
use deadline_driven_enhancem.Experiment.Chains.{IsFresh, IsTimed, IsConfigured}
use deadline_driven_enhancem.Experiment.Making.{make_chains-MadeChains}
use deadline_driven_enhancem.Experiment.Released.{
  AllReleased, release_chains-Releases, configured-IsSetUp,
}

-- An executor with a new strategy, as the constructors make it.
pub record IsNew (x : Executor) : Type 0 where
  pub settings : x.strategy.priority_map ≡ []
  pub queue : x.strategy.all_executables ≡ []
  pub in_step : length x.weak_nodes ≡ length x.guard_conditions

IsNew-IsConfigured :
    (o : Objects) (x : Executor)
    → IsNew x
    → x.strategy.is_f1tenth ≡ false
    → IsConfigured o 0 x.strategy
unfolding get_priority_settings lookup
IsNew-IsConfigured o x v plain = record {
  plain = plain;
  queue = v.queue;
  entries = λ k e h. absurd (cc (v.settings, h));
}

-- For chains with a publisher and positive periods and deadlines, objects at addresses of their own,
-- add_node as rclcpp documents it, an executor with a new strategy
-- that is not for F1TENTH, and release times below 2 ^ 31: main's set-up does not
-- fault. Then the strategy is set up,
-- there is a guard condition for each weak node, no group is in use that was not before; the timer of
-- each chain has the chain's deadline settings, the release time that the clock and the timer gave,
-- and the chain's vector of deques; the first of these holds the one deadline of that release.
pub set_up-IsServing :
    (o : Objects) (chains : List ChainConfig) (millis trigger : ℕ → ℕ) (x : Executor)
    → IsFresh o
    → AddsNode o
    → All IsTimed chains
    → IsNew x
    → x.strategy.is_f1tenth ≡ false
    → ((c : ℕ) → millis c + trigger c < 2 ^ 31)
    → (x' : Executor) × (set_up o chains millis trigger x ≡ some x')
      × IsServing x'
      × (x'.can_be_taken_from ≡ x.can_be_taken_from)
      × AllReleased o 0 chains millis trigger x'.strategy
unfolding set_up configure
set_up-IsServing o chains millis trigger x fresh adds timed new plain fits =
    let (y, made, m) =
      make_chains-MadeChains o fresh adds 0 chains x timed (IsNew-IsConfigured o x new plain) in
    let (s, done, r) =
      release_chains-Releases o fresh 0 (length chains) chains millis trigger y.strategy timed
        (subst (λ n. IsConfigured o n y.strategy) (omega arith) m.configured) m.made fits in
    (
      record y { strategy = s },
      rw (made, done) refl,
      record {
        set_up = configured-IsSetUp o chains millis trigger s r.configured r.all;
        in_step = m.keeps.in_step new.in_step;
      },
      m.keeps.flags,
      r.all,
    )

start_threads-IsInitial :
    (mutually_exclusive : ℕ → Bool) (x : Executor) → IsInitial mutually_exclusive (start_threads x)
unfolding start_threads
start_threads-IsInitial mutually_exclusive x = record { idle = λ t. refl; timers = refl }

start_threads-executor : (x : Executor) → (start_threads x).executor ≡ x
unfolding start_threads
start_threads-executor x = refl

-- The threads of spin on an executor that is ready to run, with every group free.
pub serving-take_work :
    (x : Executor)
    → IsServing x
    → ((group : ℕ) → x.can_be_taken_from group ≡ true)
    → (pq : PriorityQueue) (g : Graph) (mutually_exclusive : ℕ → Bool) (p : Pool)
    → Reaches pq g mutually_exclusive (start_threads x) p
    → (rcl : Rcl) (z : WaitableSizes) (now t : ℕ)
    → NoLeak mutually_exclusive p
      × (q : Pool) × (outcome : Outcome) × (take_work pq g mutually_exclusive rcl z now t p
          ≡ some (q, outcome))
serving-take_work x serving free pq g mutually_exclusive p reach rcl z now t =
    let initial = start_threads-IsInitial mutually_exclusive x in
    let at : x ≡ (start_threads x).executor = sym (start_threads-executor x) in
    let (q, outcome, works, _) =
      reachable-take_work pq g mutually_exclusive (start_threads x) p reach
        (subst IsServing at serving) rcl z now t in
    (
      reachable-NoLeak mutually_exclusive pq g (start_threads x) p initial
          (λ group. ap (λ y. y.can_be_taken_from group) (sym at) ∙ free group) reach,
      q,
      outcome,
      works,
    )

-- For chains with a publisher and positive periods and deadlines, objects at addresses of their
-- own, add_node as rclcpp documents it, an executor with a new strategy that is not for F1TENTH and
-- every group free, and release times below 2 ^ 31: when main has set up the chains and the threads
-- of spin have started on its executor, then in every state that they reach, in any order and with
-- any replies of rcl and any clock, each group in use and each scheduled timer has its thread, no
-- timer is scheduled twice, and the part of a round under the wait mutex does not fault, for any
-- thread.
pub experiment-take_work :
    (o : Objects) (chains : List ChainConfig) (millis trigger : ℕ → ℕ) (x : Executor)
    → IsFresh o
    → AddsNode o
    → All IsTimed chains
    → IsNew x
    → x.strategy.is_f1tenth ≡ false
    → ((c : ℕ) → millis c + trigger c < 2 ^ 31)
    → ((group : ℕ) → x.can_be_taken_from group ≡ true)
    → (pq : PriorityQueue) (g : Graph) (mutually_exclusive : ℕ → Bool) (x' : Executor) (p : Pool)
    → set_up o chains millis trigger x ≡ some x'
    → Reaches pq g mutually_exclusive (start_threads x') p
    → (rcl : Rcl) (z : WaitableSizes) (now t : ℕ)
    → NoLeak mutually_exclusive p
      × (q : Pool) × (outcome : Outcome) × (take_work pq g mutually_exclusive rcl z now t p
          ≡ some (q, outcome))
experiment-take_work o chains millis trigger x fresh adds timed new plain fits free pq g
      mutually_exclusive x' p start reach rcl z now t =
    let (y, done, serving, flags, _) =
      set_up-IsServing o chains millis trigger x fresh adds timed new plain fits in
    let same : y ≡ x' = some_eq (sym done ∙ start) in
    serving-take_work x' (subst IsServing same serving)
      (λ group.
        ap (λ z. z.can_be_taken_from group) (sym same) ∙ ap (λ f. f group) flags ∙ free group)
      pq g mutually_exclusive p reach rcl z now t
