-- ===== src/Selection/Choice.antt =====
-- Which executable get_next_executable of priority_memory_strategy.hpp chooses.
use mathlib.Core.List.Permᴰ
use deadline_driven_enhancem.Base.{
  ℕ, ◌≡◌, refl, ◌⊎◌, inl, inr, Bool, true, false, Option, some, List, [], ◌∷◌, ◌++◌, Permᴰ, arith,
  if◌then◌else◌, ◌>>=◌, All, All-perm, get_elem?, get_elem?_below, lt→ltb, Bool-cases, Option-cases,
}
use deadline_driven_enhancem.Executable.{PriorityExecutable, deadline}
use deadline_driven_enhancem.Executable.Comparator.{
  runs_after, reads_in_range, front_deadline, slot, Deques, same_type,
}
use deadline_driven_enhancem.Executable.Order.{
  HasDeadline, runs_after_asymmetric, runs_after_transitive,
}
use deadline_driven_enhancem.PriorityQueue.{PriorityQueue, StrictWeakOn, IsOrdered}
use deadline_driven_enhancem.Strategy.{Strategy, get_priority_settings}
use deadline_driven_enhancem.Graph.{Graph, AnyExecutable}
use deadline_driven_enhancem.Selection.{
  Offer, skip, offer, dispatch, account, select, key_comparator, get_next_executable,
  queue_in_range,
}

-- The handle has settings, and a pending deadline if it is a DEADLINE one.
abbrev pub IsComparable : Strategy → ℕ → Type 0
IsComparable s k =
    (e : PriorityExecutable) × (get_priority_settings s k ≡ some e) × HasDeadline s.memory e

pub key_comparator-runs_after :
    (s : Strategy) (j k : ℕ) (a b : PriorityExecutable)
    → get_priority_settings s j ≡ some a
    → get_priority_settings s k ≡ some b
    → key_comparator s j k ≡ runs_after s.memory a b
unfolding key_comparator
key_comparator-runs_after s j k a b ha hb = rw (ha, hb)

HasDeadline-in_range :
    (m : Deques) (e : PriorityExecutable) → HasDeadline m e → reads_in_range m e ≡ true
unfolding reads_in_range front_deadline slot
HasDeadline-in_range m e h = elim (Bool-cases (same_type e.sched_type deadline)) [
  | inr other ↦ ground (arith, other)
  | inl dl ↦ elim (Option-cases e.deadlines) [
    | inl null ↦ rw (dl, null) refl
    | inr (v, at) ↦ elim (Option-cases (get_elem? (m.vector v) e.cur_index)) [
      | inl past ↦ absurd (ground (arith, h (is_deadline-sched e dl), at, past))
      | inr (q, in_vector) ↦
          rw (dl, at) (lt→ltb _ _ (get_elem?_below (m.vector v) e.cur_index q in_vector))
    ]
  ]
]
  where
    is_deadline-sched :
        (e : PriorityExecutable) → same_type e.sched_type deadline ≡ true → e.sched_type ≡ deadline
    is_deadline-sched e h = ground arith

-- Comparable executables are read in range.
comparable-in_range :
    (s : Strategy) (ks : List ℕ) → All (IsComparable s) ks → queue_in_range s ks ≡ true
unfolding queue_in_range
comparable-in_range s [] h = refl
comparable-in_range s (k ∷ ks) ((e, found, has), h) =
    rw (found, HasDeadline-in_range s.memory e has) (comparable-in_range s ks h)

key_comparator-StrictWeak : (s : Strategy) → StrictWeakOn (IsComparable s) (key_comparator s)
key_comparator-StrictWeak s = record {
  asymmetric = λ x y (a, fa, ha) (b, fb, hb) h. ground (
    arith,
    key_comparator-runs_after s x y a b fa fb,
    key_comparator-runs_after s y x b a fb fa,
    runs_after_asymmetric s.memory a b ha hb,
  );
  transitive = λ x y z (a, fa, ha) (b, fb, hb) (c, fc, hc) h k. ground (
    arith,
    key_comparator-runs_after s x y a b fa fb,
    key_comparator-runs_after s y z b c fb fc,
    key_comparator-runs_after s x z a c fa fc,
    runs_after_transitive s.memory a b c ha hb hc,
  );
}

module _ (g : Graph) (millis : ℕ) (s : Strategy) (any : AnyExecutable) where
  -- The loop passes over this handle: it is not to be run, or the switch says `continue`.
  abbrev pub refuses : PriorityExecutable → Bool
  refuses e =
      if e.can_be_run then (elim (dispatch g e any) [ skip ↦ true | offer _ ↦ false ]) else true

  abbrev pub IsRefused : ℕ → Type 0
  IsRefused k = (e : PriorityExecutable) × (get_priority_settings s k ≡ some e) × (refuses e ≡ true)

  -- How the loop over the handles `ks` ends.
  pub data Outcome (ks : List ℕ) : Option (Strategy × AnyExecutable) → Type 0 where
    nothing : All IsRefused ks → Outcome ks (some (record s { all_executables = [] }, any))
    chosen :
        (before : List ℕ) (k : ℕ) (rest : List ℕ) (e : PriorityExecutable) (any' : AnyExecutable)
        → Permᴰ ks (before ++ (k ∷ rest))
        → All IsRefused before
        → get_priority_settings s k ≡ some e
        → e.can_be_run ≡ true
        → dispatch g e any ≡ offer any'
        → All (λ j. key_comparator s k j ≡ false) rest
        → Outcome ks
            (account millis (record s { all_executables = rest }) k e >>= λ s'. some (s', any'))

  Outcome-skip :
      (k : ℕ) (ks : List ℕ) {r : Option (Strategy × AnyExecutable)}
      → IsRefused k
      → Outcome ks r
      → Outcome (k ∷ ks) r
  Outcome-skip k ks h (nothing all) = nothing (h, all)
  Outcome-skip k ks h (chosen before j rest e any' p all found run offered first) =
      chosen (k ∷ before) j rest e any' (Permᴰ.cons refl p) (h, all) found run offered first

  Outcome-perm :
      {js ks : List ℕ} {r : Option (Strategy × AnyExecutable)}
      → Permᴰ js ks
      → Outcome ks r
      → Outcome js r
  Outcome-perm p (nothing all) = nothing (All-perm IsRefused (Permᴰ.symm p) all)
  Outcome-perm p (chosen before j rest e any' q all found run offered first) =
      chosen before j rest e any' (Permᴰ.trans p q) all found run offered first

  -- One round, at a handle with settings `e`.
  pub select-refused :
      (k : ℕ) (ks : List ℕ) (e : PriorityExecutable)
      → get_priority_settings s k ≡ some e
      → refuses e ≡ true
      → select g millis s any (k ∷ ks) ≡ select g millis s any ks
  unfolding select
  select-refused k ks e found h = ground arith

  pub select-offered :
      (k : ℕ) (ks : List ℕ) (e : PriorityExecutable) (any' : AnyExecutable)
      → get_priority_settings s k ≡ some e
      → e.can_be_run ≡ true
      → dispatch g e any ≡ offer any'
      → select g millis s any (k ∷ ks)
        ≡ (account millis (record s { all_executables = ks }) k e >>= λ s'. some (s', any'))
  unfolding select
  select-offered k ks e any' found run offered = simp (found, run, offered)

  pub refuses-cases :
      (e : PriorityExecutable)
      → (refuses e ≡ true)
        ⊎ ((any' : AnyExecutable) × (e.can_be_run ≡ true) × (dispatch g e any ≡ offer any'))
  refuses-cases e = split e.can_be_run (dispatch g e any) refl refl
    where
      split :
          (b : Bool) (o : Offer)
          → e.can_be_run ≡ b
          → dispatch g e any ≡ o
          → (refuses e ≡ true)
            ⊎ ((any' : AnyExecutable) × (e.can_be_run ≡ true) × (dispatch g e any ≡ offer any'))
      split false o h d = inl (rw h)
      split true skip h d = inl (simp (h, d))
      split true (offer any') h d = inr (any', h, d)

  select-Outcome :
      (ks : List ℕ)
      → All (IsComparable s) ks
      → IsOrdered (key_comparator s) ks
      → Outcome ks (select g millis s any ks)
  unfolding select
  select-Outcome [] h o = nothing tt
  select-Outcome (k ∷ ks) ((e, found, _), h) o = elim (refuses-cases e) [
    | inl r ↦
        rw (select-refused k ks e found r)
          (Outcome-skip k ks (e, found, r) (select-Outcome ks h o.1))
    | inr (any', run, offered) ↦
        rw (select-offered k ks e any' found run offered)
          (chosen [] k ks e any' (Permᴰ.refl _) tt found run offered o.0)
  ]

  -- Where each queued handle has settings, and a pending deadline if it is a DEADLINE one,
  -- get_next_executable either refuses all of them and leaves the AnyExecutable as it was, or
  -- chooses one that it does not refuse, having refused those before it, and none of those left runs
  -- before the chosen one; it then does the bookkeeping for the chosen one alone.
  pub get_next_executable-Outcome :
      (pq : PriorityQueue)
      → All (IsComparable s) s.all_executables
      → Outcome s.all_executables (get_next_executable pq g millis s any)
  unfolding get_next_executable
  get_next_executable-Outcome pq h =
      let p = pq.drain-perm (key_comparator s) s.all_executables in
      rw (comparable-in_range s s.all_executables h) (
        Outcome-perm p (
          select-Outcome _ (All-perm (IsComparable s) p h) (
            pq.drain-IsOrdered (IsComparable s) (key_comparator s) s.all_executables
              (key_comparator-StrictWeak s) h)))
