-- ===== src/Executor/Waiting.antt =====
-- wait_for_work of the executors in priority_executor.cpp: the weak nodes and the guard conditions
-- stay in step, and no iterator runs past their end.
use deadline_driven_enhancem.Base.{
  ℕ, suc, ◌≡◌, refl, ap, sym, ◌∙◌, Bool, true, false, not, Option, none, some, List, [], ◌∷◌, arith,
  length, for_each, if◌then◌else◌, some_eq, >>=-eq-some, require,
}
use deadline_driven_enhancem.Graph.{Node}
use deadline_driven_enhancem.Strategy.{Strategy}
use deadline_driven_enhancem.Strategy.Handles.{
  Ready, WaitableSizes, clear_handles, remove_guard_condition,
}
use deadline_driven_enhancem.Strategy.Handles.WaitSet.{add_handles_to_wait_set}
use deadline_driven_enhancem.Strategy.Collect.{collect_entities}
use deadline_driven_enhancem.Strategy.Collect.Consistency.{some_expired, has_invalid-some_expired}
use deadline_driven_enhancem.Selection.{queue_in_range}
use deadline_driven_enhancem.Executor.{
  Executor, Rcl, Outcome, ok, timeout, empty, failed, clean_up, finish_wait, fill_and_wait,
  wait_for_work, WaitStatus, sizes, clear_failed, resize_failed, fill_failed,
}

-- The weak nodes that have not expired, and the guard conditions of those that have and have not.
abbrev pub alive : List (Option Node) → List (Option Node)
alive [] = []
alive (none ∷ nodes) = alive nodes
alive (some n ∷ nodes) = some n ∷ alive nodes

abbrev pub kept : List (Option Node) → List ℕ → List ℕ
kept [] gcs = gcs
kept (weak ∷ nodes) [] = []
kept (none ∷ nodes) (gc ∷ gcs) = kept nodes gcs
kept (some n ∷ nodes) (gc ∷ gcs) = gc ∷ kept nodes gcs

abbrev pub dropped : List (Option Node) → List ℕ → List ℕ
dropped [] gcs = []
dropped (weak ∷ nodes) [] = []
dropped (none ∷ nodes) (gc ∷ gcs) = gc ∷ dropped nodes gcs
dropped (some n ∷ nodes) (gc ∷ gcs) = dropped nodes gcs

-- With a guard condition for each weak node, the clean up ends without a fault; it leaves the nodes
-- that have not expired, with their guard conditions, and removes those of the expired nodes from
-- the strategy, one after the other.
pub clean_up-alive :
    (nodes : List (Option Node)) (gcs : List ℕ) (s : Strategy)
    → length nodes ≡ length gcs
    → clean_up nodes gcs s
      ≡ some (alive nodes, kept nodes gcs, for_each remove_guard_condition (dropped nodes gcs) s)
unfolding clean_up
clean_up-alive [] gcs s h = refl
clean_up-alive (weak ∷ nodes) [] s h = absurd (omega arith)
clean_up-alive (none ∷ nodes) (gc ∷ gcs) s h = clean_up-alive nodes gcs _ (omega arith)
clean_up-alive (some n ∷ nodes) (gc ∷ gcs) s h = rw (clean_up-alive nodes gcs s (omega arith))

alive-length :
    (nodes : List (Option Node)) (gcs : List ℕ)
    → length nodes ≡ length gcs
    → length (alive nodes) ≡ length (kept nodes gcs)
alive-length [] gcs h = h
alive-length (weak ∷ nodes) [] h = absurd (omega arith)
alive-length (none ∷ nodes) (gc ∷ gcs) h = alive-length nodes gcs (omega arith)
alive-length (some n ∷ nodes) (gc ∷ gcs) h = ap suc (alive-length nodes gcs (omega arith))

alive-all : (nodes : List (Option Node)) → some_expired nodes ≡ false → alive nodes ≡ nodes
alive-all [] h = refl
alive-all (none ∷ nodes) h = cc
alive-all (some n ∷ nodes) h = ap (◌∷◌ (some n)) (alive-all nodes h)

-- What a wait leaves of an executor but for its strategy.
pub record Waited (x x' : Executor) : Type 0 where
  pub nodes : x'.weak_nodes ≡ alive x.weak_nodes
  pub in_step : length x'.weak_nodes ≡ length x'.guard_conditions
  pub flags : x'.can_be_taken_from ≡ x.can_be_taken_from
  pub mode : x'.use_priorities ≡ x.use_priorities

-- All of an executor but its strategy is as it was.
record SameRest (x : Executor) (p : Executor × Outcome) : Type 0 where
  pub nodes : p.0.weak_nodes ≡ x.weak_nodes
  pub conditions : p.0.guard_conditions ≡ x.guard_conditions
  pub flags : p.0.can_be_taken_from ≡ x.can_be_taken_from
  pub mode : p.0.use_priorities ≡ x.use_priorities

SameRest-if :
    (x : Executor) (b : Bool) {p q : Executor × Outcome}
    → SameRest x p
    → SameRest x q
    → SameRest x (if b then p else q)
SameRest-if x true hp hq = hp
SameRest-if x false hp hq = hq

SameRest-refl : (x : Executor) (o : Outcome) → SameRest x (x, o)
SameRest-refl x o = record { nodes = refl; conditions = refl; flags = refl; mode = refl }

finish_wait-SameRest : (x : Executor) (r : WaitStatus × Ready) → SameRest x (finish_wait r x)
unfolding finish_wait
finish_wait-SameRest x (failed, ready) = record {
  nodes = refl;
  conditions = refl;
  flags = refl;
  mode = refl;
}
finish_wait-SameRest x (ok, ready) = record {
  nodes = refl;
  conditions = refl;
  flags = refl;
  mode = refl;
}
finish_wait-SameRest x (timeout, ready) = record {
  nodes = refl;
  conditions = refl;
  flags = refl;
  mode = refl;
}
finish_wait-SameRest x (empty, ready) = record {
  nodes = refl;
  conditions = refl;
  flags = refl;
  mode = refl;
}

fill_and_wait-SameRest :
    (rcl : Rcl) (z : WaitableSizes) (x : Executor) → SameRest x (fill_and_wait rcl z x)
unfolding fill_and_wait
fill_and_wait-SameRest rcl z x =
    SameRest-if x (not rcl.wait_set_clear) (SameRest-refl x clear_failed) (
      SameRest-if x (not (rcl.wait_set_resize (sizes x.strategy z))) (SameRest-refl x resize_failed)
        (let (w, filled) = add_handles_to_wait_set rcl.accepts x.strategy [] in
          SameRest-if x (not filled) (SameRest-refl x fill_failed)
            (finish_wait-SameRest x (rcl.wait w))))

module _ (rcl : Rcl) (z : WaitableSizes) (x : Executor)
    (paired : length x.weak_nodes ≡ length x.guard_conditions) where
  cleaned :
      (s : Strategy) (b : Bool)
      → b ≡ some_expired x.weak_nodes
      → (s' : Strategy) × (gcs : List ℕ) × ((if b
            then clean_up x.weak_nodes x.guard_conditions s
            else some (x.weak_nodes, x.guard_conditions, s))
          ≡ some (alive x.weak_nodes, gcs, s'))
        × (length (alive x.weak_nodes) ≡ length gcs)
  cleaned s true e = (
    _,
    kept x.weak_nodes x.guard_conditions,
    clean_up-alive x.weak_nodes x.guard_conditions s paired,
    alive-length x.weak_nodes x.guard_conditions paired,
  )
  cleaned s false e =
      let same = alive-all x.weak_nodes (sym e) in
      (
        s,
        x.guard_conditions,
        ap (λ nodes. some (nodes, x.guard_conditions, s)) (sym same),
        ap length same ∙ paired,
      )

  -- With a guard condition for each weak node, and the comparisons of the queue in range,
  -- wait_for_work ends without a fault, by a return or an exception of rcl; no expired weak node is
  -- left, each node left has a guard condition, and the flags of the groups are as they were.
  pub wait_for_work-Waited :
      (let s = (collect_entities x.can_be_taken_from (clear_handles x.strategy) x.weak_nodes).0 in
        queue_in_range s s.all_executables ≡ true)
      → (x' : Executor) × (o : Outcome) × (wait_for_work rcl z x ≡ some (x', o)) × Waited x x'
  unfolding wait_for_work
  wait_for_work-Waited in_range =
      let (s, b) = collect_entities x.can_be_taken_from (clear_handles x.strategy) x.weak_nodes in
      let (s', gcs, done, size) = cleaned s b (has_invalid-some_expired _ _ x.weak_nodes) in
      let y : Executor = record x {
        strategy = s';
        weak_nodes = alive x.weak_nodes;
        guard_conditions = gcs;
      } in
      let rest = fill_and_wait-SameRest rcl z y in
      (
        (fill_and_wait rcl z y).0,
        (fill_and_wait rcl z y).1,
        rw (in_range, done) refl,
        record {
          nodes = rest.nodes;
          in_step = ap length rest.nodes ∙ size ∙ ap length (sym rest.conditions);
          flags = rest.flags;
          mode = rest.mode;
        },
      )

-- Whatever the nodes and guard conditions, a wait does not touch the flags of the groups.
pub wait_for_work-flags :
    (rcl : Rcl) (z : WaitableSizes) (x x' : Executor) (o : Outcome)
    → wait_for_work rcl z x ≡ some (x', o)
    → x'.can_be_taken_from ≡ x.can_be_taken_from
unfolding wait_for_work
wait_for_work-flags rcl z x x' o h =
    let (s, b) = collect_entities x.can_be_taken_from (clear_handles x.strategy) x.weak_nodes in
    let cleaned : Option (List (Option Node) × List ℕ × Strategy) =
      if b
      then clean_up x.weak_nodes x.guard_conditions s
      else some (x.weak_nodes, x.guard_conditions, s) in
    let rest : List (Option Node) × List ℕ × Strategy → Executor =
      λ c. record x { strategy = c.2; weak_nodes = c.0; guard_conditions = c.1 } in
    let (_, _, go) = >>=-eq-some (require (queue_in_range s s.all_executables)) _ h in
    let (c, _, done) = >>=-eq-some cleaned (λ c. some (fill_and_wait rcl z (rest c))) go in
    let last : fill_and_wait rcl z (rest c) ≡ (x', o) = some_eq done in
    ap (λ p. p.0.can_be_taken_from) (sym last) ∙ (fill_and_wait-SameRest rcl z (rest c)).flags
