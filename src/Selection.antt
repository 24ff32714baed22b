-- ===== src/Selection.antt =====
-- get_next_executable of PriorityMemoryStrategy in priority_memory_strategy.hpp: it takes handles
-- off the priority queue until one may run, and does the bookkeeping of chains for that one.
-- The clock reading `millis` is an argument. `none` is undefined behaviour: a null or dangling
-- pointer, an index past the end of a vector, a division by zero.
-- Times and `long` values stay far below 2 ^ 53, where the divisions in `double` under std::ceil
-- are exact enough to give the rounded up quotient, and the conversions to int64_t and int keep the
-- value; the `uint` of a deque wraps around, as written out below.
pub mod Accounting
pub mod Soundness
pub mod Release
pub mod Choice
pub mod EarliestDeadline
pub mod Totality
pub mod Cycle
pub mod Mirror
use deadline_driven_enhancem.Base.{
  ℕ, ◌+◌, ◌-◌, ◌*◌, ◌/◌, ◌%◌, ◌^◌, Bool, true, false, not, ◌&&◌, ◌||◌, Option, none, some, List, [],
  ◌∷◌, ◌++◌, ltb, ◌==◌, if◌then◌else◌, ◌>>=◌, ◌>>◌, require,
}
use deadline_driven_enhancem.Executable.{
  PriorityExecutable, subscription, service, client, timer, waitable, chain_aware_priority,
  deadline, increment_counter,
}
use deadline_driven_enhancem.Executable.Comparator.{
  Deques, slot, same_type, reads_in_range, comparator,
}
use deadline_driven_enhancem.PriorityQueue.{PriorityQueue}
use deadline_driven_enhancem.Strategy.{Strategy, get_priority_settings, store}
use deadline_driven_enhancem.Graph.{Graph, AnyExecutable}

-- What the switch does with an executable: `continue`, or go on with this AnyExecutable.
pub data Offer : Type 0 where
  skip : Offer
  offer : AnyExecutable → Offer

-- A case of the switch: `found` is the entity of the handle, `set` puts it into the AnyExecutable.
-- Where there is no entity, the case ends with the AnyExecutable as it was.
unfoldable pub offer_entity :
    Graph → (ℕ → Option ℕ) → (ℕ → AnyExecutable → AnyExecutable) → AnyExecutable → Option ℕ → Offer
offer_entity g group_of set any none = offer any
offer_entity g group_of set any (some x) = elim (group_of x) [
  | none ↦ skip
  | some group ↦
      if g.can_be_taken_from group
      then offer
          (record (set x any) { callback_group = some group; node_base = g.node_by_group group })
      else skip
]

offer_subscription : Graph → PriorityExecutable → AnyExecutable → Offer
unfolding offer_entity
offer_subscription g e any =
    offer_entity g g.group_by_subscription (λ x a. record a { subscription = some x }) any
      (e.handle >>= g.subscription_by_handle)

offer_service : Graph → PriorityExecutable → AnyExecutable → Offer
unfolding offer_entity
offer_service g e any =
    offer_entity g g.group_by_service (λ x a. record a { service = some x }) any
      (e.handle >>= g.service_by_handle)

offer_client : Graph → PriorityExecutable → AnyExecutable → Offer
unfolding offer_entity
offer_client g e any =
    offer_entity g g.group_by_client (λ x a. record a { client = some x }) any
      (e.handle >>= g.client_by_handle)

offer_timer : Graph → PriorityExecutable → AnyExecutable → Offer
unfolding offer_entity
offer_timer g e any =
    offer_entity g g.group_by_timer (λ x a. record a { timer = some x }) any
      (e.handle >>= g.timer_by_handle)

offer_waitable : Graph → PriorityExecutable → AnyExecutable → Offer
unfolding offer_entity
offer_waitable g e any =
    offer_entity g g.group_by_waitable (λ x a. record a { waitable = some x }) any e.waitable

-- The switch on the type.
unfoldable pub dispatch : Graph → PriorityExecutable → AnyExecutable → Offer
unfolding offer_subscription offer_service offer_client offer_timer offer_waitable
dispatch g e any = elim e.type [
  | subscription ↦ offer_subscription g e any
  | service ↦ offer_service g e any
  | client ↦ offer_client g e any
  | timer ↦ offer_timer g e any
  | waitable ↦ offer_waitable g e any
]

-- `std::ceil(a / (double)b)` for a positive `b`
abbrev pub ceil_div : ℕ → ℕ → ℕ
ceil_div a b = (a + b - 1) / b

-- `time_diff`, made positive
abbrev pub distance : ℕ → ℕ → ℕ
distance a b = if ltb a b then b - a else a - b

abbrev pub is_deadline : PriorityExecutable → Bool
is_deadline e = same_type e.sched_type deadline

unfoldable pub max_chain_num : PriorityExecutable → Option ℕ
max_chain_num e = do require (not (e.period == 0)); some (ceil_div e.deadline e.period)

-- `((*cur_index) + 1) % max_chain_num`
unfoldable pub next_index : PriorityExecutable → Option ℕ
next_index e = do n ← max_chain_num e; require (not (n == 0)); some ((e.cur_index + 1) % n)

-- The new release time of the head of a chain.
unfoldable pub released : ℕ → ℕ → ℕ → ℕ
released millis release_time period =
    let time_diff = distance millis release_time in
    if ltb time_diff period
    then release_time + period
    else release_time + ceil_div time_diff period * period

abbrev pub update : (ℕ → List ℕ) → ℕ → List ℕ → ℕ → List ℕ
update f q ds j = if q == j then ds else f j

-- `(*deadlines)[index]->push_back(value)`, into a deque of `uint`
unfoldable pub push_deadline : Option ℕ → ℕ → ℕ → Deques → Option Deques
push_deadline deadlines index value m = do
  q ← slot m deadlines index
  some (record m { deque = update m.deque q (m.deque q ++ ((value % 2 ^ 32) ∷ [])) })

-- The loop for the F1TENTH case: the first executable of chain 1 gets the deadline too.
unfoldable pub mirror_deadline : List (ℕ × PriorityExecutable) → ℕ → ℕ → Deques → Option Deques
unfolding push_deadline
mirror_deadline [] index value m = some m
mirror_deadline ((k, e) ∷ map) index value m =
    if e.chain_id == 1
    then push_deadline e.deadlines index value m
    else mirror_deadline map index value m

-- The branch for the first executable of a DEADLINE chain.
unfoldable pub release : ℕ → Strategy → PriorityExecutable → Option (PriorityExecutable × Deques)
unfolding mirror_deadline
release millis s e = do
  release_time ← e.release_time
  index ← next_index e
  let r = released millis release_time e.period
  m ← push_deadline e.deadlines index (r + e.deadline) s.memory
  m' ←
      if s.is_f1tenth && e.chain_id == 0
      then mirror_deadline s.priority_map index (r + e.deadline) m
      else some m
  some (record e { release_time = some r }, m')

abbrev pub pop_front : List ℕ → List ℕ
pop_front [] = []
pop_front (d ∷ ds) = ds

-- The branch for the last executable of a DEADLINE chain.
unfoldable pub retire : PriorityExecutable → Deques → Option Deques
retire e m = do
  n ← max_chain_num e
  q ← slot m e.deadlines e.cur_index
  some (record m { deque = update m.deque q (pop_front (m.deque q)) })

unfoldable pub rotate : PriorityExecutable → Option PriorityExecutable
rotate e = do index ← next_index e; some (record e { cur_index = index })

-- `get_priority_settings(next_exec->handle)->increment_counter()`
unfoldable pub count_run : Option ℕ → Strategy → Option Strategy
count_run handle s = do
  h ← handle
  e ← get_priority_settings s h
  some (store h (increment_counter e) s)

abbrev pub is_counted : PriorityExecutable → Bool
is_counted e = same_type e.sched_type chain_aware_priority || is_deadline e

-- All that happens to the chosen executable `e` of key `k`, from the switch to the return.
unfoldable pub account : ℕ → Strategy → ℕ → PriorityExecutable → Option Strategy
account millis s k e0 = do
  let e = record e0 { sum = e0.sum + 1 }
  (e1, m1) ← if e.is_first_in_chain && is_deadline e then release millis s e else some (e, s.memory)
  m2 ← if e1.is_last_in_chain && is_deadline e1 then retire e1 m1 else some m1
  e2 ← if is_deadline e1 then rotate e1 else some e1
  let s' = store k e2 (record s { memory = m2 })
  if is_counted e2 then count_run e2.handle s' else some s'

-- The loop over the handles, in the order in which the queue gives them.
unfoldable pub select :
    Graph → ℕ → Strategy → AnyExecutable → List ℕ → Option (Strategy × AnyExecutable)
select g millis s any [] = some (record s { all_executables = [] }, any)
select g millis s any (k ∷ ks) =
    let rest = select g millis s any ks in
    get_priority_settings s k >>= λ e.
    if e.can_be_run
    then (elim (dispatch g e any) [
      | skip ↦ rest
      | offer any' ↦ do s' ← account millis (record s { all_executables = ks }) k e; some (s', any')
    ])
    else rest

-- The comparator on the pointers in the queue.
unfoldable pub key_comparator : Strategy → ℕ → ℕ → Bool
unfolding comparator
key_comparator s j k = comparator s.memory (get_priority_settings s j) (get_priority_settings s k)

-- Every read that a comparison of two of these handles makes is in range.
unfoldable pub queue_in_range : Strategy → List ℕ → Bool
unfolding reads_in_range
queue_in_range s [] = true
queue_in_range s (k ∷ ks) =
    (elim (get_priority_settings s k) [ none ↦ true | some e ↦ reads_in_range s.memory e ])
    && queue_in_range s ks

-- top() and pop() may compare any two of the handles in the queue.
unfoldable pub get_next_executable :
    PriorityQueue → Graph → ℕ → Strategy → AnyExecutable → Option (Strategy × AnyExecutable)
unfolding select key_comparator queue_in_range
get_next_executable pq g millis s any = do
  require (queue_in_range s s.all_executables)
  select g millis s any (pq.drain (key_comparator s) s.all_executables)
