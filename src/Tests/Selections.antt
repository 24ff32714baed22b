-- ===== src/Tests/Selections.antt =====
-- Tests of the choice of the next executable and of the deadlines of a chain, on the chain of Tests.
use deadline_driven_enhancem.Base.{
  ℕ, ◌≡◌, refl, inl, inr, none, some, [], ◌∷◌, arith, ◌==◌, All, ◌+◌, ◌-◌, ◌≤◌, Bool-cases,
}
use mathlib.Core.Path.{subst}
use deadline_driven_enhancem.Executable.{PriorityExecutable}
use deadline_driven_enhancem.Executable.Comparator.{slot}
use deadline_driven_enhancem.PriorityQueue.Insertion.{insertion_queue}
use deadline_driven_enhancem.Graph.{AnyExecutable, empty_executable}
use deadline_driven_enhancem.Strategy.{Strategy, get_priority_settings}
use deadline_driven_enhancem.Selection.{released, account, get_next_executable}
use deadline_driven_enhancem.Selection.Accounting.{IsSound, pushed, popped}
use deadline_driven_enhancem.Selection.Release.{released_early}
use deadline_driven_enhancem.Selection.Choice.{IsComparable, Outcome, get_next_executable-Outcome}
use deadline_driven_enhancem.Selection.EarliestDeadline.{Earliest, get_next_executable-Earliest}
use deadline_driven_enhancem.Selection.Totality.{IsSetUp, get_next_executable-IsSetUp}
use deadline_driven_enhancem.Selection.Cycle.{ran, chain_instance}
use deadline_driven_enhancem.Tests.{head, tail, deques, chain, graph}
use deadline_driven_enhancem.Tests.Setup.{
  head-HasDeadline, tail-HasDeadline, at_one, at_two, chain-known,
}

head-IsSound : IsSound deques.vector 1 head
head-IsSound = record {
  own = refl;
  timed = λ _. (omega arith, omega arith);
  within = λ _. omega arith;
  queues = λ _. (5, refl, refl);
  timer = λ _ _. (1000, refl);
}

tail-IsSound : IsSound deques.vector 2 tail
tail-IsSound = record {
  own = refl;
  timed = λ _. (omega arith, omega arith);
  within = λ _. omega arith;
  queues = λ _. (5, refl, refl);
  timer = λ _ h. cc;
}

chain-IsSound :
    (k : ℕ) (e : PriorityExecutable)
    → get_priority_settings chain k ≡ some e
    → IsSound deques.vector k e
unfolding get_priority_settings
chain-IsSound k e h = elim (Bool-cases (1 == k)) [
  | inl one ↦
      subst (λ j. IsSound deques.vector j e) (ground arith)
        (subst (IsSound deques.vector 1) (ground arith) head-IsSound)
  | inr other ↦ elim (Bool-cases (2 == k)) [
    | inl two ↦
        subst (λ j. IsSound deques.vector j e) (ground arith)
          (subst (IsSound deques.vector 2) (ground arith) tail-IsSound)
    | inr neither ↦ ground arith
  ]
]

pub chain-IsSetUp : IsSetUp chain
chain-IsSetUp = record {
  shared = 0;
  mirrored = λ h. cc;
  sound = chain-IsSound;
  known = chain-known;
}

chain-IsComparable : All (IsComparable chain) chain.all_executables
chain-IsComparable = ((tail, at_two, tail-HasDeadline), ((head, at_one, head-HasDeadline), tt))

chain_instance_example :
    (r : ℕ) × (current : ℕ) × (next : ℕ) × (s1 : Strategy) × (s2 : Strategy) × (some 1000 ≡ some r)
    × (slot deques (some 5) 0 ≡ some current)
    × (slot deques (some 5) 1 ≡ some next)
    × (account 1005 chain 1 head ≡ some s1)
    × (get_priority_settings s1 2 ≡ some tail)
    × (account 1010 s1 2 tail ≡ some s2)
    × (s2.memory ≡ popped (pushed deques next (released 1005 r 80 + 100)) current)
    × (get_priority_settings s2 1 ≡ some (ran head (some (released 1005 r 80))))
    × (get_priority_settings s2 2 ≡ some (ran tail none))
chain_instance_example =
    chain_instance 1005 1010 1 2 chain head tail refl (λ h. omega (arith, h)) head-IsSound
      tail-IsSound at_two refl refl (refl, refl) (refl, refl) (refl, refl)

get_next_executable-IsSetUp_example :
    (s' : Strategy) × (any' : AnyExecutable) × (get_next_executable insertion_queue graph 1005 chain
        empty_executable
      ≡ some (s', any'))
    × IsSetUp s'
get_next_executable-IsSetUp_example =
    get_next_executable-IsSetUp graph 1005 empty_executable insertion_queue chain chain-IsSetUp

get_next_executable-Outcome_example :
    Outcome graph 1005 chain empty_executable
      (2 ∷ 1 ∷ [])
      (get_next_executable insertion_queue graph 1005 chain empty_executable)
get_next_executable-Outcome_example =
    get_next_executable-Outcome graph 1005 chain empty_executable insertion_queue chain-IsComparable

get_next_executable-Earliest_example :
    Earliest graph 1005 chain empty_executable
      (get_next_executable insertion_queue graph 1005 chain empty_executable)
get_next_executable-Earliest_example =
    get_next_executable-Earliest graph 1005 chain empty_executable insertion_queue
      chain-IsComparable

released_early_example : 1000 + (1000 - 900) ≤ released 900 1000 80
released_early_example = released_early 900 1000 80 (omega arith) (omega arith)
