-- ===== src/Experiment/Shared/Muex/Calls.antt =====
-- Calls for several subscriptions in turn, each of which writes the settings of its subscription.
use mathlib.Core.Path.{subst}
use deadline_driven_enhancem.Base.{
  ℕ, ◌≡◌, ◌≢◌, refl, sym, ◌∙◌, Option, some, List, [], ◌∷◌, arith, All,
}
use deadline_driven_enhancem.Executable.{PriorityExecutable}
use deadline_driven_enhancem.Strategy.{Strategy, get_priority_settings, store}
use deadline_driven_enhancem.Strategy.Settings.{get-store, IsUnique, put-IsUnique}
use deadline_driven_enhancem.Experiment.{Objects}
use deadline_driven_enhancem.Experiment.Settings.{Writes, written}
use deadline_driven_enhancem.Experiment.Shared.Muex.{for_members}

pub store-Writes : (s : Strategy) (k : ℕ) (f : PriorityExecutable) → Writes s k f (store k f s)
unfolding store
store-Writes s k f = record {
  at = λ j. get-store s k j f;
  map = refl;
  memory = refl;
  queue = refl;
  plain = refl;
}

module _ (o : Objects) where
  abbrev pub at : Strategy → ℕ × ℕ → Option PriorityExecutable
  at s (c, i) = get_priority_settings s (o.subscription_handle c i)

  abbrev pub Other : ℕ × ℕ → ℕ × ℕ → Type 0
  Other m n = o.subscription_handle m.0 m.1 ≢ o.subscription_handle n.0 n.1

  abbrev pub Apart : List (ℕ × ℕ) → Type 0
  Apart [] = Unit
  Apart (m ∷ members) = All (Other m) members × Apart members

  -- A call that writes `after` for a callback, where `Pre` holds of what stands there.
  abbrev pub Acts :
      (ℕ → ℕ → Strategy → Option Strategy)
      → (ℕ × ℕ → Option PriorityExecutable → Type 0)
      → (ℕ × ℕ → PriorityExecutable)
      → ℕ × ℕ
      → Type 0
  Acts call Pre after (c, i) =
      (s : Strategy)
      → Pre (c, i) (at s (c, i))
      → (s' : Strategy) × (call c i s ≡ some s')
        × Writes s (o.subscription_handle c i) (after (c, i)) s'

  -- What such calls leave.
  pub record AllWritten (members : List (ℕ × ℕ)) (after : ℕ × ℕ → PriorityExecutable)
      (s s' : Strategy) : Type 0 where
    pub each : All (λ (m : ℕ × ℕ). at s' m ≡ some (after m)) members
    pub frame :
        (k : ℕ)
        → All (λ (m : ℕ × ℕ). o.subscription_handle m.0 m.1 ≢ k) members
        → get_priority_settings s' k ≡ get_priority_settings s k
    pub memory : s'.memory ≡ s.memory
    pub unique : IsUnique s.priority_map → IsUnique s'.priority_map
    pub queue : s'.all_executables ≡ s.all_executables
    pub plain : s'.is_f1tenth ≡ s.is_f1tenth

  still :
      (m : ℕ × ℕ) (e : PriorityExecutable) (s s' : Strategy)
      (Pre : ℕ × ℕ → Option PriorityExecutable → Type 0) (members : List (ℕ × ℕ))
      → Writes s (o.subscription_handle m.0 m.1) e s'
      → All (Other m) members
      → All (λ (n : ℕ × ℕ). Pre n (at s n)) members
      → All (λ (n : ℕ × ℕ). Pre n (at s' n)) members
  still m e s s' Pre [] w other v = tt
  still m e s s' Pre (n ∷ members) w (ne, other) (v, all) =
      let same : at s' n ≡ at s n = ground (arith, w.at (o.subscription_handle n.0 n.1), ne) in
      (rw same v, still m e s s' Pre members w other all)

  flipped :
      (m : ℕ × ℕ) (members : List (ℕ × ℕ))
      → All (Other m) members
      → All (λ (n : ℕ × ℕ). o.subscription_handle n.0 n.1 ≢ o.subscription_handle m.0 m.1) members
  flipped m [] v = tt
  flipped m (n ∷ members) (ne, all) = (λ eq. ne (sym eq), flipped m members all)

  pub for_members-AllWritten :
      (call : ℕ → ℕ → Strategy → Option Strategy) (Pre : ℕ × ℕ → Option PriorityExecutable → Type 0)
      (after : ℕ × ℕ → PriorityExecutable) (members : List (ℕ × ℕ)) (s : Strategy)
      → Apart members
      → All (Acts call Pre after) members
      → All (λ (m : ℕ × ℕ). Pre m (at s m)) members
      → (s' : Strategy) × (for_members call members s ≡ some s') × AllWritten members after s s'
  unfolding for_members
  for_members-AllWritten call Pre after [] s apart acts pre = (
    s,
    refl,
    record {
      each = tt;
      frame = λ k h. refl;
      memory = refl;
      unique = λ u. u;
      queue = refl;
      plain = refl;
    },
  )
  for_members-AllWritten call Pre after ((c, i) ∷ members) s (other, apart) (act, acts)
        (pre, rest) =
      let (y, done, w) = act s pre in
      let (s', all, v) =
        for_members-AllWritten call Pre after members y apart acts
          (still (c, i) (after (c, i)) s y Pre members w other rest) in
      let k = o.subscription_handle c i in
      (
        s',
        rw (done, all) refl,
        record {
          each =
              (v.frame k (flipped (c, i) members other) ∙ written s k (after (c, i)) y w, v.each);
          frame = λ j h. v.frame j h.1 ∙ ground (arith, w.at j, h.0);
          memory = v.memory ∙ w.memory;
          unique = λ u.
              v.unique
                (subst IsUnique (sym w.map) (put-IsUnique k (after (c, i)) s.priority_map u));
          queue = v.queue ∙ w.queue;
          plain = v.plain ∙ w.plain;
        },
      )
