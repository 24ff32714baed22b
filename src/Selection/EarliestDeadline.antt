-- ===== src/Selection/EarliestDeadline.antt =====
-- get_next_executable of priority_memory_strategy.hpp schedules by earliest deadline first.
use mathlib.Core.Path.{subst}
use mathlib.Core.List.Permᴰ
use deadline_driven_enhancem.Base.{
  ℕ, ◌≤◌, ◌≡◌, ◌⊎◌, inl, inr, true, false, Option, some, List, [], ◌∷◌, arith, ◌>>=◌, ◌∙◌, sym,
  some_eq, All, All-append, All-append_right, All-perm,
}
use deadline_driven_enhancem.Executable.{PriorityExecutable, deadline}
use deadline_driven_enhancem.Executable.Comparator.{front_deadline}
use deadline_driven_enhancem.Executable.Order.{HasDeadline, not_after_deadline}
use deadline_driven_enhancem.PriorityQueue.{PriorityQueue}
use deadline_driven_enhancem.Strategy.{Strategy, get_priority_settings}
use deadline_driven_enhancem.Graph.{Graph, AnyExecutable}
use deadline_driven_enhancem.Selection.{
  offer, dispatch, account, key_comparator, get_next_executable,
}
use deadline_driven_enhancem.Selection.Choice.{
  IsComparable, IsRefused, Outcome, nothing, chosen, key_comparator-runs_after,
  get_next_executable-Outcome,
}

-- `e` runs no later than a DEADLINE executable of handle `j`: it is one itself, with a deadline at
-- its front that is no later.
abbrev pub IsNoLater : Strategy → PriorityExecutable → ℕ → Type 0
IsNoLater s e j =
    (f : PriorityExecutable)
    → get_priority_settings s j ≡ some f
    → f.sched_type ≡ deadline
    → (e.sched_type ≡ deadline) × (front_deadline s.memory e ≤ front_deadline s.memory f)

module _ (g : Graph) (millis : ℕ) (s : Strategy) (any : AnyExecutable) where
  pub data Earliest : Option (Strategy × AnyExecutable) → Type 0 where
    none_runs :
        All (IsRefused g millis s any) s.all_executables
        → Earliest (some (record s { all_executables = [] }, any))
    runs :
        (k : ℕ) (e : PriorityExecutable) (any' : AnyExecutable) (rest : List ℕ)
        → get_priority_settings s k ≡ some e
        → e.can_be_run ≡ true
        → dispatch g e any ≡ offer any'
        → All (λ j. IsRefused g millis s any j ⊎ IsNoLater s e j) s.all_executables
        → Earliest
            (account millis (record s { all_executables = rest }) k e >>= λ s'. some (s', any'))

  module _ (k : ℕ) (e : PriorityExecutable) (found : get_priority_settings s k ≡ some e)
      (mine : HasDeadline s.memory e) where
    no_later : (j : ℕ) → IsComparable s j → key_comparator s k j ≡ false → IsNoLater s e j
    no_later j (f, at, h) first f' at' d = ground (
      arith,
      at,
      at',
      key_comparator-runs_after s k j e f found at,
      not_after_deadline s.memory e f mine h,
    )

    rest-IsNoLater :
        (rest : List ℕ)
        → All (IsComparable s) rest
        → All (λ j. key_comparator s k j ≡ false) rest
        → All (λ j. IsRefused g millis s any j ⊎ IsNoLater s e j) rest
    rest-IsNoLater [] h c = tt
    rest-IsNoLater (j ∷ rest) h c = (inr (no_later j h.0 c.0), rest-IsNoLater rest h.1 c.1)

  before-IsRefused :
      (e : PriorityExecutable) (before : List ℕ)
      → All (IsRefused g millis s any) before
      → All (λ j. IsRefused g millis s any j ⊎ IsNoLater s e j) before
  before-IsRefused e [] h = tt
  before-IsRefused e (j ∷ before) h = (inl h.0, before-IsRefused e before h.1)

  Outcome-Earliest :
      {r : Option (Strategy × AnyExecutable)}
      → All (IsComparable s) s.all_executables
      → Outcome g millis s any s.all_executables r
      → Earliest r
  Outcome-Earliest h (nothing all) = none_runs all
  Outcome-Earliest h (chosen before k rest e any' p refused found run offered first) =
      runs k e any' rest found run offered (
        All-perm _ (Permᴰ.symm p) (
          All-append _ before (k ∷ rest) (before-IsRefused e before refused)
            (inr self, rest-IsNoLater k e found mine rest behind.1 first)))
    where
      behind : All (IsComparable s) (k ∷ rest)
      behind = All-append_right (IsComparable s) before (k ∷ rest) (All-perm (IsComparable s) p h)

      same : (f : PriorityExecutable) → get_priority_settings s k ≡ some f → f ≡ e
      same f at = some_eq (sym at ∙ found)

      mine : HasDeadline s.memory e
      mine = subst (HasDeadline s.memory) (same behind.0.0 behind.0.1) behind.0.2

      self : IsNoLater s e k
      self f at d =
          subst
            (λ x.
              (x.sched_type ≡ deadline) × (front_deadline s.memory x ≤ front_deadline s.memory f))
            (same f at) (d, omega arith)

  -- Earliest deadline first: where each queued handle has settings, and a pending deadline if it is
  -- a DEADLINE one, get_next_executable either refuses every queued handle, or does the bookkeeping
  -- of one that may run and is no later than every queued DEADLINE executable that it does not
  -- refuse.
  pub get_next_executable-Earliest :
      (pq : PriorityQueue)
      → All (IsComparable s) s.all_executables
      → Earliest (get_next_executable pq g millis s any)
  get_next_executable-Earliest pq h =
      Outcome-Earliest h (get_next_executable-Outcome g millis s any pq h)
