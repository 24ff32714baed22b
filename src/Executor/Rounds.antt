-- ===== src/Executor/Rounds.antt =====
-- A round of the executors in priority_executor.cpp from end to end: wait_for_work, then
-- get_next_ready_executable, in a strategy that is set up.
use mathlib.Core.Path.{subst}
use deadline_driven_enhancem.Base.{
  ℕ, ◌+◌, ◌≡◌, refl, sym, inl, inr, Bool, true, false, not, Option, none, some, List, [], ◌∷◌,
  arith, if◌then◌else◌, All, All-map, Option-cases, some_eq, >>=-eq-some, require,
}
use deadline_driven_enhancem.Executable.{PriorityExecutable, allow_run, dont_run}
use deadline_driven_enhancem.Graph.{Node}
use deadline_driven_enhancem.Strategy.{
  Strategy, get_priority_settings, store, lookup_or_blank, modify,
}
use deadline_driven_enhancem.Strategy.Settings.{All-lookup}
use deadline_driven_enhancem.Strategy.Handles.{
  Ready, WaitableSizes, poll, by_index, remove_null_handles, remove_guard_condition, clear_handles,
}
use deadline_driven_enhancem.Strategy.Handles.WaitSet.{add_handles_to_wait_set}
use deadline_driven_enhancem.Strategy.Collect.{collect_entities}
use deadline_driven_enhancem.Selection.Accounting.{IsSound, IsMirrored, AllMirrored}
use deadline_driven_enhancem.Selection.Totality.{IsSetUp}
use deadline_driven_enhancem.Selection.{queue_in_range}
use deadline_driven_enhancem.Executor.{
  Executor, Rcl, Outcome, WaitStatus, ok, timeout, empty, failed, clean_up, finish_wait,
  fill_and_wait, wait_for_work, sizes, clear_failed, resize_failed, fill_failed,
}
use deadline_driven_enhancem.Executor.Collecting.{
  Known, IsCollected, store-IsSetUp, store-Known, collect_entities-IsCollected,
}

allow_run_lem : (e : PriorityExecutable) → allow_run e ≡ record e { can_be_run = true }
unfolding allow_run
allow_run_lem e = ground arith

-- can_be_run does not matter.
mark_run-IsSound :
    (vector : ℕ → List ℕ) (k : ℕ) (b : Bool) (e : PriorityExecutable)
    → IsSound vector k e
    → IsSound vector k ((if b then allow_run else dont_run) e)
unfolding allow_run dont_run
mark_run-IsSound vector k false e v = record {
  own = v.own;
  timed = v.timed;
  within = v.within;
  queues = v.queues;
  timer = v.timer;
}
mark_run-IsSound vector k true e v =
    subst (IsSound vector k) (sym (allow_run_lem e)) (record {
      own = v.own;
      timed = v.timed;
      within = v.within;
      queues = v.queues;
      timer = v.timer;
    })

mark_run-IsMirrored :
    (n : ℕ) (vector : ℕ → List ℕ) (b : Bool) (e : PriorityExecutable)
    → IsMirrored n vector e
    → IsMirrored n vector ((if b then allow_run else dont_run) e)
unfolding allow_run dont_run
mark_run-IsMirrored n vector false e v = record { head = v.head; copy = v.copy }
mark_run-IsMirrored n vector true e v =
    subst (IsMirrored n vector) (sym (allow_run_lem e)) (record { head = v.head; copy = v.copy })

-- What marking a known handle does to the map.
modify-store :
    (s : Strategy) (f : PriorityExecutable → PriorityExecutable) (k : ℕ) (e : PriorityExecutable)
    → get_priority_settings s k ≡ some e
    → record s { priority_map = modify f k s.priority_map } ≡ store k (f e) s
unfolding modify store lookup_or_blank get_priority_settings
modify-store s f k e found = rw (found, lookup_or_blank) refl

-- The map after a loop over handles that have settings.
module _ (ready : ℕ → ℕ → Bool) where
  abbrev polled : ℕ → List ℕ → Strategy → Strategy
  polled i hs s = record s { priority_map = (poll ready i hs s.priority_map).1 }

  record Polled (s s' : Strategy) : Type 0 where
    pub set_up : IsSetUp s'
    pub known : (j : ℕ) → Known s j → Known s' j

  polled-Polled :
      (i : ℕ) (hs : List ℕ) (s : Strategy) → IsSetUp s → All (Known s) hs → Polled s (polled i hs s)
  unfolding poll get_priority_settings
  polled-Polled i [] s v known = record { set_up = v; known = λ j h. h }
  polled-Polled i (h ∷ hs) s v (has, known) = elim (Option-cases (get_priority_settings s h)) [
    | inl gone ↦ absurd (has gone)
    | inr (e, found) ↦
        let mark = if ready i h then allow_run else dont_run in
        let s1 = store h (mark e) s in
        let sound = mark_run-IsSound s.memory.vector h (ready i h) e (v.sound h e found) in
        let mirrored = λ (n : ℕ) (all : AllMirrored n s.memory.vector s.priority_map).
          mark_run-IsMirrored n s.memory.vector (ready i h) e
            (All-lookup (λ _. IsMirrored n s.memory.vector) h e s.priority_map all found) in
        let rest =
          polled-Polled (i + 1) hs s1 (store-IsSetUp s h (mark e) sound mirrored v)
            (All-map _ hs (λ j. store-Known s h j (mark e)) known) in
        subst (λ z. Polled s (polled (i + 1) hs z)) (sym (modify-store s mark h e found))
          (record {
            set_up = rest.set_up;
            known = λ j k. rest.known j (store-Known s h j (mark e) k);
          })
  ]

-- remove_null_handles after the handles were collected.
remove_null_handles-IsSetUp :
    (s : Strategy) (w : Ready) → IsCollected s → IsSetUp (remove_null_handles s w)
unfolding remove_null_handles get_priority_settings
remove_null_handles-IsSetUp s w v =
    let p1 =
      polled-Polled (by_index w.subscriptions) 0 s.subscription_handles s v.set_up
        v.subscriptions in
    let s1 = polled (by_index w.subscriptions) 0 s.subscription_handles s in
    let p2 =
      polled-Polled (by_index w.services) 0 s.service_handles s1 p1.set_up
        (All-map _ s.service_handles p1.known v.services) in
    let s2 = polled (by_index w.services) 0 s.service_handles s1 in
    let known2 : (j : ℕ) → Known s j → Known s2 j = λ j h. p2.known j (p1.known j h) in
    let p3 =
      polled-Polled (by_index w.clients) 0 s.client_handles s2 p2.set_up
        (All-map _ s.client_handles known2 v.clients) in
    let s3 = polled (by_index w.clients) 0 s.client_handles s2 in
    let known3 : (j : ℕ) → Known s j → Known s3 j = λ j h. p3.known j (known2 j h) in
    let p4 =
      polled-Polled (by_index w.timers) 0 s.timer_handles s3 p3.set_up
        (All-map _ s.timer_handles known3 v.timers) in
    let s4 = polled (by_index w.timers) 0 s.timer_handles s3 in
    let known4 : (j : ℕ) → Known s j → Known s4 j = λ j h. p4.known j (known3 j h) in
    let p5 =
      polled-Polled (λ i h. w.waitable_is_ready h) 0 s.waitable_handles s4 p4.set_up
        (All-map _ s.waitable_handles known4 v.waitables) in
    record {
      shared = p5.set_up.shared;
      mirrored = p5.set_up.mirrored;
      sound = p5.set_up.sound;
      known = p5.set_up.known;
    }

remove_guard_condition-IsCollected :
    (s : Strategy) (gc : ℕ) → IsCollected s → IsCollected (remove_guard_condition s gc)
unfolding remove_guard_condition get_priority_settings
remove_guard_condition-IsCollected s gc v = record {
  set_up = record {
    shared = v.set_up.shared;
    mirrored = v.set_up.mirrored;
    sound = v.set_up.sound;
    known = v.set_up.known;
  };
  subscriptions = v.subscriptions;
  services = v.services;
  clients = v.clients;
  timers = v.timers;
  waitables = v.waitables;
}

clean_up-IsCollected :
    (nodes : List (Option Node)) (gcs : List ℕ) (s : Strategy)
    (c : List (Option Node) × List ℕ × Strategy)
    → clean_up nodes gcs s ≡ some c
    → IsCollected s
    → IsCollected c.2
unfolding clean_up
clean_up-IsCollected [] gcs s c h v = subst (λ c. IsCollected c.2) (some_eq h) v
clean_up-IsCollected (weak ∷ nodes) [] s c h v = cc
clean_up-IsCollected (none ∷ nodes) (gc ∷ gcs) s c h v =
    clean_up-IsCollected nodes gcs _ c h (remove_guard_condition-IsCollected s gc v)
clean_up-IsCollected (some n ∷ nodes) (gc ∷ gcs) s c h v =
    let (c', rest, done) =
      >>=-eq-some (clean_up nodes gcs s) (λ c. some (some n ∷ c.0, gc ∷ c.1, c.2)) h in
    subst (λ c. IsCollected c.2) (some_eq done) (clean_up-IsCollected nodes gcs s c' rest v)

cleaned-IsCollected :
    (b : Bool) (nodes : List (Option Node)) (gcs : List ℕ) (s : Strategy)
    (c : List (Option Node) × List ℕ × Strategy)
    → (if b then clean_up nodes gcs s else some (nodes, gcs, s)) ≡ some c
    → IsCollected s
    → IsCollected c.2
cleaned-IsCollected true nodes gcs s c h v = clean_up-IsCollected nodes gcs s c h v
cleaned-IsCollected false nodes gcs s c h v = subst (λ c. IsCollected c.2) (some_eq h) v

finish_wait-IsSetUp :
    (x : Executor) (r : WaitStatus × Ready)
    → IsCollected x.strategy
    → IsSetUp (finish_wait r x).0.strategy
unfolding finish_wait
finish_wait-IsSetUp x (failed, ready) v = v.set_up
finish_wait-IsSetUp x (ok, ready) v = remove_null_handles-IsSetUp x.strategy ready v
finish_wait-IsSetUp x (timeout, ready) v = remove_null_handles-IsSetUp x.strategy ready v
finish_wait-IsSetUp x (empty, ready) v = remove_null_handles-IsSetUp x.strategy ready v

fill_and_wait-IsSetUp :
    (rcl : Rcl) (z : WaitableSizes) (x : Executor)
    → IsCollected x.strategy
    → IsSetUp (fill_and_wait rcl z x).0.strategy
unfolding fill_and_wait
fill_and_wait-IsSetUp rcl z x v =
    either (not rcl.wait_set_clear) (x, clear_failed) _ v.set_up
      (either (not (rcl.wait_set_resize (sizes x.strategy z))) (x, resize_failed) _ v.set_up
        (let (w, filled) = add_handles_to_wait_set rcl.accepts x.strategy [] in
          either (not filled) (x, fill_failed) _ v.set_up (finish_wait-IsSetUp x (rcl.wait w) v)))
  where
    either :
        (b : Bool) (p q : Executor × Outcome)
        → IsSetUp p.0.strategy
        → IsSetUp q.0.strategy
        → IsSetUp (if b then p else q).0.strategy
    either true p q hp hq = hp
    either false p q hp hq = hq

-- A wait leaves a strategy set up.
pub wait_for_work-IsSetUp :
    (rcl : Rcl) (z : WaitableSizes) (x x' : Executor) (o : Outcome)
    → wait_for_work rcl z x ≡ some (x', o)
    → IsSetUp x.strategy
    → IsSetUp x'.strategy
unfolding wait_for_work
wait_for_work-IsSetUp rcl z x x' o h v =
    let (s, b) = collect_entities x.can_be_taken_from (clear_handles x.strategy) x.weak_nodes in
    let cleaned : Option (List (Option Node) × List ℕ × Strategy) =
      if b
      then clean_up x.weak_nodes x.guard_conditions s
      else some (x.weak_nodes, x.guard_conditions, s) in
    let rest : List (Option Node) × List ℕ × Strategy → Executor =
      λ c. record x { strategy = c.2; weak_nodes = c.0; guard_conditions = c.1 } in
    let (_, _, go) = >>=-eq-some (require (queue_in_range s s.all_executables)) _ h in
    let (c, found, done) = >>=-eq-some cleaned (λ c. some (fill_and_wait rcl z (rest c))) go in
    let collected = collect_entities-IsCollected x.can_be_taken_from x.strategy x.weak_nodes v in
    subst (λ p. IsSetUp p.0.strategy) (some_eq done)
      (fill_and_wait-IsSetUp rcl z (rest c)
        (cleaned-IsCollected b x.weak_nodes x.guard_conditions s c found collected))
