-- ===== src/Experiment/Static/Shared/Muex.antt =====
-- The MuExWorker of muex_static1.cpp: each of its subscriptions gets its own settings.
use mathlib.Core.Path.{subst}
use deadline_driven_enhancem.Base.{
  ℕ, ◌<◌, ◌≡◌, ◌≢◌, refl, sym, ◌∙◌, some, List, [], ◌∷◌, arith, All, get_elem?,
}
use deadline_driven_enhancem.Executable.{
  PriorityExecutable, subscription, chain_aware_priority, executable,
}
use deadline_driven_enhancem.Strategy.{
  Strategy, get_priority_settings, in_chain, set_chain_priority,
}
use deadline_driven_enhancem.Executor.{Executor}
use deadline_driven_enhancem.Executor.Serving.{IsServing}
use deadline_driven_enhancem.Experiment.{Objects, configure}
use deadline_driven_enhancem.Experiment.Settings.{Writes, AddsNode, AddsNode-at}
use deadline_driven_enhancem.Experiment.Running.{IsNew}
use deadline_driven_enhancem.Experiment.Static.{StaticChain}
use deadline_driven_enhancem.Experiment.Static.Serving.{
  IsStaticEntry, IsStatic, Writes-IsStatic, priority-Writes, Stepped, IsNew-IsStatic,
  static_entries,
}
use deadline_driven_enhancem.Experiment.Static.Shared.Serving.{
  HasAll, Stepped-IsServing, chains-Steps,
}
use deadline_driven_enhancem.Experiment.Static.Shared.{
  muex_chain, muex_priority, muex_priorities, muex_static,
}

-- A callback that chain_priorities has a priority for.
abbrev pub HasNumber : List StaticChain → ℕ × ℕ → Type 0
HasNumber chains (c, i) =
    (ch : StaticChain) × (p : ℕ) × (get_elem? chains c ≡ some ch)
    × (get_elem? ch.priorities i ≡ some p)

-- The callbacks of the MuExWorker, the last that is set first.
abbrev pub muex_members : List (ℕ × ℕ)
muex_members = (4, 3) ∷ (4, 2) ∷ (4, 1) ∷ (3, 2) ∷ (3, 1) ∷ []

module _ (o : Objects) (chains : List StaticChain) where
  -- The settings of callback `i` of chain `c`: its own priority, and the number of its chain.
  pub record HasPriority (s : Strategy) (m : ℕ × ℕ) : Type 0 where
    pub number : HasNumber chains m
    pub at :
        let h = o.subscription_handle m.0 m.1 in
        get_priority_settings s h
        ≡ some (in_chain m.0 (executable h number.1 subscription chain_aware_priority))

  record AllSet (members : List (ℕ × ℕ)) (s : Strategy) : Type 0 where
    pub static : IsStatic s
    pub each : All (HasPriority s) members

  abbrev Other : ℕ × ℕ → ℕ × ℕ → Type 0
  Other m n = o.subscription_handle m.0 m.1 ≢ o.subscription_handle n.0 n.1

  kept :
      (m : ℕ × ℕ) (e : PriorityExecutable) (s s' : Strategy) (members : List (ℕ × ℕ))
      → Writes s (o.subscription_handle m.0 m.1) e s'
      → All (Other m) members
      → All (HasPriority s) members
      → All (HasPriority s') members
  kept m e s s' [] w other v = tt
  kept m e s s' (n ∷ members) w (ne, other) (v, all) = (
    record {
      number = v.number;
      at = ground (arith, w.at (o.subscription_handle n.0 n.1), v.at, ne);
    },
    kept m e s s' members w other all,
  )

  muex_priority-AllSet :
      (c i : ℕ) (members : List (ℕ × ℕ)) (s : Strategy)
      → HasNumber chains (c, i)
      → All (Other (c, i)) members
      → AllSet members s
      → (s' : Strategy) × (muex_priority o chains c i s ≡ some s') × AllSet ((c, i) ∷ members) s'
  unfolding muex_priority executable
  muex_priority-AllSet c i members s (ch, p, at, has) other v =
      let h = o.subscription_handle c i in
      let e = in_chain c (executable h p subscription chain_aware_priority) in
      let s' = set_chain_priority s h p subscription chain_aware_priority c in
      let w = priority-Writes s h p c subscription in
      (
        s',
        rw (at, has) refl,
        record {
          static = Writes-IsStatic h e s s' w (record { own = refl; aware = refl }) v.static;
          each = (
            record { number = (ch, p, at, has); at = ground (arith, w.at h) },
            kept (c, i) e s s' members w other v.each,
          );
        },
      )

  muex_priorities-AllSet :
      (s : Strategy)
      → ((c d i j : ℕ)
          → i < 4
          → j < 4
          → o.subscription_handle c i ≡ o.subscription_handle d j
          → (c ≡ d) × (i ≡ j))
      → All (HasNumber chains) muex_members
      → IsStatic s
      → (s' : Strategy) × (muex_priorities o chains s ≡ some s') × AllSet muex_members s'
  unfolding muex_priorities
  muex_priorities-AllSet s own (n43, (n42, (n41, (n32, (n31, _))))) v =
      let other : (c d i j : ℕ) → i < 4 → j < 4 → ((c ≡ d) × (i ≡ j) → ⊥) → Other (c, i) (d, j) =
        λ c d i j hi hj ne eq. ne (own c d i j hi hj eq) in
      let (s1, h1, v1) = muex_priority-AllSet 3 1 [] s n31 tt (record { static = v; each = tt }) in
      let (s2, h2, v2) =
        muex_priority-AllSet 3 2 ((3, 1) ∷ []) s1 n32
          (other 3 3 2 1 (omega arith) (omega arith) (λ e. omega (arith, e.1)), tt) v1 in
      let (s3, h3, v3) =
        muex_priority-AllSet 4 1 ((3, 2) ∷ (3, 1) ∷ []) s2 n41
          (
            other 4 3 1 2 (omega arith) (omega arith) (λ e. omega (arith, e.0)),
            (other 4 3 1 1 (omega arith) (omega arith) (λ e. omega (arith, e.0)), tt),
          )
          v2 in
      let (s4, h4, v4) =
        muex_priority-AllSet 4 2 ((4, 1) ∷ (3, 2) ∷ (3, 1) ∷ []) s3 n42
          (
            other 4 4 2 1 (omega arith) (omega arith) (λ e. omega (arith, e.1)),
            (
              other 4 3 2 2 (omega arith) (omega arith) (λ e. omega (arith, e.0)),
              (other 4 3 2 1 (omega arith) (omega arith) (λ e. omega (arith, e.0)), tt),
            ),
          )
          v3 in
      let (s5, h5, v5) =
        muex_priority-AllSet 4 3 ((4, 2) ∷ (4, 1) ∷ (3, 2) ∷ (3, 1) ∷ []) s4 n43
          (
            other 4 4 3 2 (omega arith) (omega arith) (λ e. omega (arith, e.1)),
            (
              other 4 4 3 1 (omega arith) (omega arith) (λ e. omega (arith, e.1)),
              (
                other 4 3 3 2 (omega arith) (omega arith) (λ e. omega (arith, e.0)),
                (other 4 3 3 1 (omega arith) (omega arith) (λ e. omega (arith, e.0)), tt),
              ),
            ),
          )
          v4 in
      (s5, rw (h1, h2, h3, h4, h5) refl, v5)

added-HasPriority :
    (o : Objects) (adds : AddsNode o) (chains : List StaticChain) (c i : ℕ) (x : Executor)
    (members : List (ℕ × ℕ))
    → All (HasPriority o chains x.strategy) members
    → All (HasPriority o chains (o.add_node c i x).strategy) members
added-HasPriority o adds chains c i x [] v = tt
added-HasPriority o adds chains c i x (m ∷ members) (v, all) = (
  record {
    number = v.number;
    at = AddsNode-at o c i x (o.subscription_handle m.0 m.1) adds ∙ v.at;
  },
  added-HasPriority o adds chains c i x members all,
)

-- For chains with a publisher and a priority for each callback, of which the chains 3 and 4 have the
-- callbacks of the MuExWorker, with subscriptions at addresses of their own, and an executor with a
-- new strategy, for F1TENTH or not: the set-up of muex_static1 does not fault. Then the strategy is set
-- up, there is a guard condition for each weak node, no group is in use that was not before, all
-- settings stand under their own handle with a priority that is aware of the chain, and each of the
-- five subscriptions of the MuExWorker has the chain and the priority of its callback.
pub muex_static-IsServing :
    (o : Objects) (chains : List StaticChain) (x : Executor)
    → AddsNode o
    → ((c d i j : ℕ)
        → i < 4
        → j < 4
        → o.subscription_handle c i ≡ o.subscription_handle d j
        → (c ≡ d) × (i ≡ j))
    → HasAll chains
    → All (HasNumber chains) muex_members
    → IsNew x
    → (x' : Executor) × (muex_static o chains x ≡ some x')
      × IsServing x'
      × (x'.can_be_taken_from ≡ x.can_be_taken_from)
      × ((k : ℕ) (e : PriorityExecutable)
          → get_priority_settings x'.strategy k ≡ some e
          → IsStaticEntry k e)
      × All (HasPriority o chains x'.strategy) muex_members
unfolding muex_static configure
muex_static-IsServing o chains x adds own long members new =
    let (y, made, step) =
      chains-Steps o adds muex_chain 0 0 chains x long (λ h. absurd (omega (arith, h)))
        (IsNew-IsStatic x new) in
    let (s, set, v) = muex_priorities-AllSet o chains y.strategy own members step.static in
    let z : Executor = record y { strategy = s } in
    let x' = o.add_node 3 1 z in
    let static : IsStatic x'.strategy =
      (subst (All _) (sym (adds.map 3 1 z)) v.static.0, adds.queue 3 1 z ∙ v.static.1) in
    let all : Stepped x x' = record {
      static = static;
      keeps = record {
        in_step = λ h. adds.in_step 3 1 z (step.keeps.in_step h);
        flags = adds.flags 3 1 z ∙ step.keeps.flags;
      };
    } in
    (
      x',
      rw (made, set) refl,
      Stepped-IsServing x x' new all,
      all.keeps.flags,
      λ k e. static_entries x'.strategy k e static,
      added-HasPriority o adds chains 3 1 z muex_members v.each,
    )
