-- ===== src/Experiment/Shared/Muex/Placed.antt =====
-- The settings of the MuExWorker in muex_test.cpp are placed like those of other workers.
use mathlib.Core.Path.{subst}
use deadline_driven_enhancem.Base.{
  ℕ, zero, suc, ◌+◌, ◌<◌, ◌≤◌, ◌≡◌, ◌≢◌, ◌⊎◌, sym, ◌∙◌, inl, inr, Bool-cases, none, some, List, [],
  ◌∷◌, arith, ◌==◌, length, All, get_elem?,
}
use deadline_driven_enhancem.Executable.{PriorityExecutable}
use deadline_driven_enhancem.Strategy.{Strategy, get_priority_settings}
use deadline_driven_enhancem.Strategy.Settings.{found-All, All-lookup}
use deadline_driven_enhancem.Experiment.{ChainConfig, Objects}
use deadline_driven_enhancem.Experiment.Settings.{body}
use deadline_driven_enhancem.Experiment.Chains.{IsTimed, IsEntry, body-IsEntry}
use deadline_driven_enhancem.Experiment.Shared.{shared_timers}
use deadline_driven_enhancem.Experiment.Shared.Placed.{IsPlaced, AllPlaced, body-Shares}
use deadline_driven_enhancem.Experiment.Shared.Making.{IsLaidOut}
use deadline_driven_enhancem.Experiment.Shared.AllChains.{AllLaidOut}
use deadline_driven_enhancem.Experiment.Shared.Muex.Calls.{at, AllWritten}

pub at-IsTimed :
    (chains : List ChainConfig) (c : ℕ) (ch : ChainConfig)
    → All IsTimed chains
    → get_elem? chains c ≡ some ch
    → IsTimed ch
at-IsTimed [] c ch v h = absurd (ground arith)
at-IsTimed (d ∷ chains) zero ch (here, v) h = subst IsTimed (ground arith) here
at-IsTimed (d ∷ chains) (suc c) ch (here, v) h = at-IsTimed chains c ch v h

pub at-IsLaidOut :
    (o : Objects) (chains : List ChainConfig) (b c : ℕ) (ch : ChainConfig) (s : Strategy)
    → AllLaidOut o b chains s
    → get_elem? chains c ≡ some ch
    → IsLaidOut o (b + c) ch s
at-IsLaidOut o [] b c ch s v h = absurd (ground arith)
at-IsLaidOut o (d ∷ chains) b zero ch s (here, v) h =
    let first : IsLaidOut o b ch s = subst (λ d. IsLaidOut o b d s) (ground arith) here in
    subst (λ i. IsLaidOut o i ch s) (omega arith) first
at-IsLaidOut o (d ∷ chains) b (suc c) ch s (here, v) h =
    subst (λ i. IsLaidOut o i ch s) (omega arith) (at-IsLaidOut o chains (b + 1) c ch s v h)

pub at_below :
    (chains : List ChainConfig) (c : ℕ) (ch : ChainConfig)
    → get_elem? chains c ≡ some ch
    → c < length chains
at_below [] c ch h = absurd (ground arith)
at_below (d ∷ chains) zero ch h = omega arith
at_below (d ∷ chains) (suc c) ch h = omega (arith, at_below chains c ch h)

wider-IsEntry :
    (o : Objects) (m n : ℕ) (vector : ℕ → List ℕ) (k : ℕ) (e : PriorityExecutable)
    → m ≤ n
    → IsEntry o m vector k e
    → IsEntry o n vector k e
wider-IsEntry o m n vector k e le v =
    let (vec, at, size, d, below, is) = v.queues in
    record {
      own = v.own;
      timed = v.timed;
      within = v.within;
      queues = (vec, at, size, d, omega (arith, below, le), is);
      first = λ f. let (b, under, at) = v.first f in (b, omega (arith, under, le), at);
    }

module _ (o : Objects) where
  -- What is found under a key was written for one of the callbacks, or the key is none of theirs.
  found :
      (P : ℕ → PriorityExecutable → Type 0) (after : ℕ × ℕ → PriorityExecutable)
      (members : List (ℕ × ℕ)) (s : Strategy) (k : ℕ) (e : PriorityExecutable)
      → All (λ (m : ℕ × ℕ). at o s m ≡ some (after m)) members
      → All (λ (m : ℕ × ℕ). P (o.subscription_handle m.0 m.1) (after m)) members
      → get_priority_settings s k ≡ some e
      → P k e ⊎ All (λ (m : ℕ × ℕ). o.subscription_handle m.0 m.1 ≢ k) members
  found P after [] s k e v w h = inr tt
  found P after ((c, i) ∷ members) s k e (here, v) (p, w) h =
      elim (Bool-cases (o.subscription_handle c i == k)) [
        | inl hit ↦
            let key : o.subscription_handle c i ≡ k = ground arith in
            let same : after (c, i) ≡ e = ground (arith, here, h, key) in
            inl (subst (P k) same (subst (λ j. P j (after (c, i))) key p))
        | inr miss ↦ elim (found P after members s k e v w h) [
          | inl p ↦ inl p
          | inr none_of ↦ inr (ground (arith, miss), none_of)
        ]
      ]

  not_theirs :
      (after : ℕ × ℕ → PriorityExecutable) (members : List (ℕ × ℕ)) (s : Strategy) (k : ℕ)
      → All (λ (m : ℕ × ℕ). at o s m ≡ some (after m)) members
      → get_priority_settings s k ≡ none
      → All (λ (m : ℕ × ℕ). o.subscription_handle m.0 m.1 ≢ k) members
  not_theirs after [] s k v gone = tt
  not_theirs after ((c, i) ∷ members) s k (here, v) gone =
      (λ same. ground (arith, here, gone, same), not_theirs after members s k v gone)

  -- A key with settings keeps some.
  pub still_known :
      (after : ℕ × ℕ → PriorityExecutable) (members : List (ℕ × ℕ)) (s s' : Strategy)
      → AllWritten o members after s s'
      → (k : ℕ) → get_priority_settings s k ≢ none
      → get_priority_settings s' k ≢ none
  still_known after members s s' w k has gone =
      has (sym (w.frame k (not_theirs after members s' k w.each gone)) ∙ gone)

  module _ (shared n : ℕ) where
    pub written-AllPlaced :
        (after : ℕ × ℕ → PriorityExecutable) (members : List (ℕ × ℕ)) (s s' : Strategy)
        → AllPlaced (shared_timers o) shared n s
        → AllWritten o members after s s'
        → All
            (λ (m : ℕ × ℕ).
              IsPlaced
                (shared_timers o)
                shared
                n
                s.memory.vector
                (o.subscription_handle m.0 m.1)
                (after m))
            members
        → AllPlaced (shared_timers o) shared n s'
    unfolding get_priority_settings
    written-AllPlaced after members s s' v w placed =
        let P = IsPlaced (shared_timers o) shared n s.memory.vector in
        record {
          queue = w.queue ∙ v.queue;
          f1tenth = w.plain ∙ v.f1tenth;
          unique = w.unique v.unique;
          all =
              subst
                (λ m.
                  All (λ p. IsPlaced (shared_timers o) shared n m.vector p.0 p.1) s'.priority_map)
                (sym w.memory)
                (found-All P s'.priority_map (w.unique v.unique) (λ k e h.
                  elim (found P after members s' k e w.each placed h) [
                    | inl p ↦ p
                    | inr other ↦ All-lookup P k e s.priority_map v.all (sym (w.frame k other) ∙ h)
                  ]));
        }

    -- The settings of a worker's subscription.
    pub body-IsPlaced :
        (c i : ℕ) (ch : ChainConfig) (s : Strategy)
        → 1 < c
        → c < n
        → IsTimed ch
        → IsLaidOut o c ch s
        → IsPlaced
            (shared_timers o)
            shared
            n
            s.memory.vector
            (o.subscription_handle c i)
            (body (shared_timers o) c ch i)
    unfolding shared_timers
    body-IsPlaced c i ch s late below timed here = record {
      entry =
          wider-IsEntry (shared_timers o) (c + 1) n s.memory.vector (o.subscription_handle c i)
            (body (shared_timers o) c ch i) (omega (arith, below))
            (body-IsEntry (shared_timers o) c ch timed s.memory.vector here.vector i);
      shares =
          body-Shares (shared_timers o) shared c ch
            (λ e. absurd (omega (arith, e, late)), λ e. absurd (omega (arith, e, late))) i;
    }
