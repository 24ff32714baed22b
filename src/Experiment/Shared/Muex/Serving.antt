-- ===== src/Experiment/Shared/Muex/Serving.antt =====
-- main of muex_test.cpp from the first node to spin: the executor is ready to run.
use mathlib.Core.Path.{subst}
use deadline_driven_enhancem.Base.{
  ℕ, ◌<◌, ◌≡◌, ◌≢◌, refl, ap, sym, ◌∙◌, some, List, arith, length, All, ◌^◌, ◌+◌,
}
use deadline_driven_enhancem.Strategy.{Strategy}
use deadline_driven_enhancem.Strategy.Settings.{IsUnique}
use deadline_driven_enhancem.Executor.{Executor}
use deadline_driven_enhancem.Executor.Serving.{IsServing}
use deadline_driven_enhancem.Experiment.{ChainConfig, Objects, configure}
use deadline_driven_enhancem.Experiment.Settings.{AddsNode, AddsNode-at, body}
use deadline_driven_enhancem.Experiment.Chains.{IsTimed}
use deadline_driven_enhancem.Experiment.Released.{HasRelease}
use deadline_driven_enhancem.Experiment.Running.{IsNew}
use deadline_driven_enhancem.Experiment.Static.Shared.{muex_chain}
use deadline_driven_enhancem.Experiment.Shared.{shared_timers, set_f1tenth}
use deadline_driven_enhancem.Experiment.Shared.Placed.{IsPlaced, AllPlaced}
use deadline_driven_enhancem.Experiment.Shared.AllChains.{
  AllLaidOut, AllLaidOut-kept, AllShare, shared_deadline_chains-MakesAll,
}
use deadline_driven_enhancem.Experiment.Shared.Releasing.{release_chains-Steps, released-IsSetUp}
use deadline_driven_enhancem.Experiment.Shared.Running.{new-AllPlaced}
use deadline_driven_enhancem.Experiment.Shared.Muex.Placed.{
  at-IsTimed, at-IsLaidOut, at_below, still_known, written-AllPlaced, body-IsPlaced,
}
use deadline_driven_enhancem.Experiment.Shared.Muex.{deadline_members, muex_set_up}
use deadline_driven_enhancem.Experiment.Shared.Muex.Written.{
  IsMuEx, muex_deadlines-AllWritten, chain,
}

-- main up to the release: the loops keep what is set up, and so do the MuExWorker's settings.
module _ (o : Objects) (chains : List ChainConfig) (shared : ℕ) (x : Executor)
    (fresh : (c d : ℕ) → c ≢ d → o.vector c ≢ o.vector d) (adds : AddsNode o)
    (timed : All IsTimed chains) (shares : AllShare shared 0 chains) (new : IsNew x)
    (ch3 ch4 : ChainConfig) (muex : IsMuEx o chains ch3 ch4) where
  members-IsPlaced :
      (s : Strategy)
      → AllLaidOut o 0 chains s
      → All
          (λ (m : ℕ × ℕ).
            IsPlaced
              (shared_timers o)
              shared
              (length chains)
              s.memory.vector
              (o.subscription_handle m.0 m.1)
              (body o m.0 (chain o chains ch3 ch4 m.0) m.1))
          deadline_members
  unfolding shared_timers
  members-IsPlaced s v =
      let low = at_below chains 4 ch4 muex.chain4 in
      let three = λ (i : ℕ).
        body-IsPlaced o shared (length chains) 3 i ch3 s (omega arith) (omega (arith, low))
          (at-IsTimed chains 3 ch3 timed muex.chain3)
          (at-IsLaidOut o chains 0 3 ch3 s v muex.chain3) in
      let four = λ (i : ℕ).
        body-IsPlaced o shared (length chains) 4 i ch4 s (omega arith) low
          (at-IsTimed chains 4 ch4 timed muex.chain4)
          (at-IsLaidOut o chains 0 4 ch4 s v muex.chain4) in
      (three 1, (three 2, (four 1, (four 2, (four 3, tt)))))

  added-AllPlaced :
      (c i : ℕ) (z : Executor)
      → AllPlaced (shared_timers o) shared (length chains) z.strategy
      → AllPlaced (shared_timers o) shared (length chains) (o.add_node c i z).strategy
  added-AllPlaced c i z v = record {
    queue = adds.queue c i z ∙ v.queue;
    f1tenth = adds.plain c i z ∙ v.f1tenth;
    unique = subst IsUnique (sym (adds.map c i z)) v.unique;
    all =
        subst
          (λ m.
            All (λ p. IsPlaced (shared_timers o) shared (length chains) m.vector p.0 p.1)
              (o.add_node c i z).strategy.priority_map)
          (sym (adds.memory c i z)) (subst (All _) (sym (adds.map c i z)) v.all);
  }

  -- For chains with a publisher and positive periods and deadlines, of which chain 1 has at least
  -- as many instances in a deadline as chain 0, chain 3 three callbacks and chain 4 four, vectors
  -- of deques and the MuExWorker's subscriptions at addresses of their own, add_node as rclcpp
  -- documents it, an executor with a new strategy, and release times below 2 ^ 31: the set-up in
  -- which the strategy is for F1TENTH, chain 1 takes the publisher of chain 0, and one MuExWorker
  -- the callbacks of the chains 3 and 4, does not fault. Then the strategy is set up, so that the
  -- worker's deadlines are pushed and popped without a fault; there is a guard condition for each
  -- weak node, no group is in use that was not before, and the timer of each chain has a release
  -- time.
  pub muex_set_up-IsServing :
      (millis trigger : ℕ → ℕ)
      → ((c : ℕ) → millis c + trigger c < 2 ^ 31)
      → (x' : Executor) × (muex_set_up o chains millis trigger x ≡ some x')
        × IsServing x'
        × (x'.can_be_taken_from ≡ x.can_be_taken_from)
        × ((d : ℕ) → d < length chains → HasRelease x'.strategy ((shared_timers o).timer_handle d))
  unfolding muex_set_up configure set_f1tenth
  muex_set_up-IsServing millis trigger fits =
      let (y, made, m) =
        shared_deadline_chains-MakesAll o adds fresh shared muex_chain 0 0 chains (set_f1tenth x)
          timed shares (λ h. absurd (omega (arith, h))) (λ h. absurd (omega (arith, h)))
          (new-AllPlaced o shared x new) in
      let (s, set, w) = muex_deadlines-AllWritten o chains ch3 ch4 y.strategy muex in
      let n = length chains in
      let at_first : AllPlaced (shared_timers o) shared n y.strategy =
        subst (λ k. AllPlaced (shared_timers o) shared k y.strategy) (omega arith) m.placed in
      let placed =
        written-AllPlaced o shared n _ deadline_members y.strategy s at_first w
          (members-IsPlaced y.strategy m.laid_out) in
      let z : Executor = record y { strategy = s } in
      let u = o.add_node 3 1 z in
      let laid_out =
        AllLaidOut-kept o 0 chains y.strategy u.strategy
          (λ j has gone.
            still_known o _ deadline_members y.strategy s w j has
              (sym (AddsNode-at o 3 1 z j adds) ∙ gone))
          (ap (λ m. m.vector) (adds.memory 3 1 z ∙ w.memory)) m.laid_out in
      let (t, done, step, released) =
        release_chains-Steps o shared n 0 chains millis trigger u.strategy timed
          (added-AllPlaced 3 1 z placed) laid_out fits in
      (
        record u { strategy = t },
        rw (made, set, done) refl,
        record {
          set_up =
              released-IsSetUp o shared n t step.placed
                (λ d below. released d (omega arith) (omega (arith, below)));
          in_step = adds.in_step 3 1 z (m.keeps.in_step new.in_step);
        },
        adds.flags 3 1 z ∙ m.keeps.flags,
        λ d below. released d (omega arith) (omega (arith, below)),
      )
