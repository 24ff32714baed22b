-- ===== src/Selection/Totality.antt =====
-- get_next_executable of priority_memory_strategy.hpp never faults in a strategy that is set up as
-- the programs do it, however often it is called.
use mathlib.Core.Path.{subst}
use deadline_driven_enhancem.Base.{
  ℕ, ◌≡◌, ◌≢◌, refl, sym, ◌∙◌, inl, inr, true, Option, none, some, List, [], ◌∷◌, arith, ◌==◌, All,
  All-map, All-perm, Bool-cases, Option-cases,
}
use deadline_driven_enhancem.Executable.{PriorityExecutable}
use deadline_driven_enhancem.PriorityQueue.{PriorityQueue}
use deadline_driven_enhancem.Strategy.{Strategy, get_priority_settings}
use deadline_driven_enhancem.Strategy.Settings.{All-put, All-lookup}
use deadline_driven_enhancem.Graph.{Graph, AnyExecutable}
use deadline_driven_enhancem.Selection.{select, key_comparator, get_next_executable, queue_in_range}
use deadline_driven_enhancem.Selection.Accounting.{
  IsSound, IsMirrored, AllMirrored, IsSound-reads_in_range,
}
use deadline_driven_enhancem.Selection.Soundness.{Accounted, account-Accounted}
use deadline_driven_enhancem.Selection.Choice.{select-refused, select-offered, refuses-cases}

-- A strategy in which all settings are sound and each queued handle has settings. In the F1TENTH
-- case the head of chain 0 counts at most `shared` instances, and chain 1 has deques for as many.
pub record IsSetUp (s : Strategy) : Type 0 where
  pub shared : ℕ
  pub mirrored : s.is_f1tenth ≡ true → AllMirrored shared s.memory.vector s.priority_map
  pub sound :
      (k : ℕ) (e : PriorityExecutable)
      → get_priority_settings s k ≡ some e
      → IsSound s.memory.vector k e
  pub known : All (λ k. get_priority_settings s k ≢ none) s.all_executables

Accounted-kept :
    (s s' : Strategy) (k j : ℕ) (e : PriorityExecutable)
    → Accounted s k e s'
    → get_priority_settings s j ≢ none
    → get_priority_settings s' j ≢ none
Accounted-kept s s' k j e acc h gone = ground (arith, acc.at j, h)

Accounted-IsSetUp :
    (s s' : Strategy) (k : ℕ) (e : PriorityExecutable)
    → IsSetUp s
    → get_priority_settings s k ≡ some e
    → Accounted s k e s'
    → IsSetUp s'
unfolding get_priority_settings
Accounted-IsSetUp s s' k e0 v found acc = record {
  shared = v.shared;
  mirrored = λ h.
      let all = v.mirrored (sym acc.plain ∙ h) in
      let mine =
        All-lookup (λ _. IsMirrored v.shared s.memory.vector) k e0 s.priority_map all found in
      subst (λ vec. AllMirrored v.shared vec s'.priority_map) (sym acc.vectors)
        (subst (AllMirrored v.shared s.memory.vector) (sym acc.map) (
          All-put (λ _. IsMirrored v.shared s.memory.vector) k acc.settings s.priority_map
            (acc.mirrored v.shared mine) all));
  sound = λ j e at. subst (λ vec. IsSound vec j e) (sym acc.vectors) (sound_at j e at);
  known =
      simp acc.queue (All-map _ s.all_executables (λ j. Accounted-kept s s' k j e0 acc) v.known);
}
  where
    sound_at :
        (j : ℕ) (e : PriorityExecutable)
        → get_priority_settings s' j ≡ some e
        → IsSound s.memory.vector j e
    sound_at j e at = elim (Bool-cases (k == j)) [
      | inl hit ↦
          let here : k ≡ j = ground arith in
          let mine : acc.settings ≡ e = ground (arith, acc.at j) in
          subst (λ i. IsSound s.memory.vector i e) here
            (subst (IsSound s.memory.vector k) mine acc.sound)
      | inr miss ↦ v.sound j e (ground (arith, acc.at j))
    ]

-- Every comparison of executables with sound settings is in range.
pub sound-in_range :
    (s : Strategy) (ks : List ℕ)
    → ((k : ℕ) (e : PriorityExecutable)
        → get_priority_settings s k ≡ some e
        → IsSound s.memory.vector k e)
    → queue_in_range s ks ≡ true
unfolding queue_in_range
sound-in_range s [] sound = refl
sound-in_range s (k ∷ ks) sound = elim (Option-cases (get_priority_settings s k)) [
  | inl gone ↦ rw gone (sound-in_range s ks sound)
  | inr (e, found) ↦
      rw (found, IsSound-reads_in_range s.memory k e (sound k e found)) (sound-in_range s ks sound)
]

module _ (g : Graph) (millis : ℕ) (any : AnyExecutable) where
  abbrev Runs : Option (Strategy × AnyExecutable) → Type 0
  Runs r = (s' : Strategy) × (any' : AnyExecutable) × (r ≡ some (s', any')) × IsSetUp s'

  requeued :
      (s : Strategy) (ks : List ℕ)
      → IsSetUp s
      → All (λ k. get_priority_settings s k ≢ none) ks
      → IsSetUp (record s { all_executables = ks })
  unfolding get_priority_settings
  requeued s ks v h = record {
    shared = v.shared;
    mirrored = v.mirrored;
    sound = v.sound;
    known = h;
  }

  select-Runs :
      (s : Strategy) (ks : List ℕ)
      → IsSetUp s
      → All (λ k. get_priority_settings s k ≢ none) ks
      → Runs (select g millis s any ks)
  unfolding select get_priority_settings
  select-Runs s [] v h = (record s { all_executables = [] }, any, refl, requeued s [] v tt)
  select-Runs s (k ∷ ks) v (has, h) = elim (Option-cases (get_priority_settings s k)) [
    | inl gone ↦ absurd (has gone)
    | inr (e, found) ↦ elim (refuses-cases g millis s any e) [
      | inl r ↦ rw (select-refused g millis s any k ks e found r) (select-Runs s ks v h)
      | inr (any', run, offered) ↦
          let (s', done, acc) =
            account-Accounted millis k (record s { all_executables = ks }) e
              (λ h.
                let all = v.mirrored h in
                (
                  v.shared,
                  All-lookup (λ _. IsMirrored v.shared _) k e s.priority_map all found,
                  all,
                ))
              (v.sound k e found) in
          (
            s',
            any',
            select-offered g millis s any k ks e any' found run offered ∙ simp done,
            Accounted-IsSetUp _ s' k e (requeued s ks v h) found acc,
          )
    ]
  ]

  -- In a strategy that is set up, get_next_executable does not fault, whichever executables can run
  -- and whatever the queue holds, and leaves the strategy set up.
  pub get_next_executable-IsSetUp :
      (pq : PriorityQueue) (s : Strategy)
      → IsSetUp s
      → (s' : Strategy) × (any' : AnyExecutable) × (get_next_executable pq g millis s any
          ≡ some (s', any'))
        × IsSetUp s'
  unfolding get_next_executable
  get_next_executable-IsSetUp pq s v =
      rw (sound-in_range s s.all_executables v.sound) (
        select-Runs s _ v (All-perm _ (pq.drain-perm (key_comparator s) s.all_executables) v.known))
