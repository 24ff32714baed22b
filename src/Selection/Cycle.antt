-- ===== src/Selection/Cycle.antt =====
-- The deadlines of a chain over one instance of it, in get_next_executable of
-- priority_memory_strategy.hpp: the first executable pushes the deadline of the next instance, the
-- last one pops that of the instance that it ends.
use mathlib.Core.Path.{subst}
use deadline_driven_enhancem.Base.{
  ℕ, ◌+◌, ◌%◌, ◌≡◌, ◌≢◌, refl, ap, sym, ◌∙◌, true, false, ◌&&◌, Option, some, List, get_elem?,
  arith, if◌then◌else◌, ◌>>=◌, ==_refl, then_branch, else_branch,
}
use deadline_driven_enhancem.Executable.{PriorityExecutable, increment_counter}
use deadline_driven_enhancem.Executable.Comparator.{Deques, slot}
use deadline_driven_enhancem.Strategy.{Strategy, get_priority_settings, store}
use deadline_driven_enhancem.Strategy.Settings.{get-store}
use deadline_driven_enhancem.Selection.{
  ceil_div, is_deadline, is_counted, released, release, retire, rotate, count_run, account,
}
use deadline_driven_enhancem.Selection.Soundness.{account_steps}
use deadline_driven_enhancem.Selection.Accounting.{
  IsSound, after_release, pushed, popped, release_lem, retire_lem, rotate_lem,
}

-- `e` after it ran with the release time `r`: its sum, index and counter went on.
abbrev pub ran : PriorityExecutable → Option ℕ → PriorityExecutable
ran e r = record e {
  sum = e.sum + 1;
  release_time = r;
  cur_index = (e.cur_index + 1) % ceil_div e.deadline e.period;
  counter = e.counter + 1;
}

abbrev with_sum : PriorityExecutable → PriorityExecutable
with_sum e = record e { sum = e.sum + 1 }

with_sum-IsSound :
    (vector : ℕ → List ℕ) (k : ℕ) (e : PriorityExecutable)
    → IsSound vector k e
    → IsSound vector k (with_sum e)
with_sum-IsSound vector k e sound = record {
  own = sound.own;
  timed = sound.timed;
  within = sound.within;
  queues = sound.queues;
  timer = sound.timer;
}

after_release-IsSound :
    (millis r : ℕ) (vector : ℕ → List ℕ) (k : ℕ) (e : PriorityExecutable)
    → IsSound vector k e
    → IsSound vector k (after_release millis r (with_sum e))
after_release-IsSound millis r vector k e sound = record {
  own = sound.own;
  timed = sound.timed;
  within = sound.within;
  queues = sound.queues;
  timer = λ _ _. (_, refl);
}

-- What one run leaves: the memory `m`, the settings `e'` under `k`, all else as it was.
pub record Left (s : Strategy) (k : ℕ) (m : Deques) (e' : PriorityExecutable) (s' : Strategy)
    : Type 0 where
  pub memory : s'.memory ≡ m
  pub own : get_priority_settings s' k ≡ some e'
  pub others : (j : ℕ) → k ≢ j → get_priority_settings s' j ≡ get_priority_settings s j
  pub plain : s'.is_f1tenth ≡ s.is_f1tenth

others-store :
    (s : Strategy) (k j : ℕ) (e : PriorityExecutable)
    → k ≢ j
    → get_priority_settings (store k e s) j ≡ get_priority_settings s j
others-store s k j e ne = ground (arith, get-store s k j e, ne)

is_counted-deadline : (e : PriorityExecutable) → is_deadline e ≡ true → is_counted e ≡ true
is_counted-deadline e dl = ground arith

-- The counter of a DEADLINE executable goes on, in its entry of the map.
count_run-store :
    (k : ℕ) (s : Strategy) (e : PriorityExecutable)
    → e.handle ≡ some k
    → count_run e.handle (store k e s) ≡ some (store k (increment_counter e) (store k e s))
unfolding count_run
count_run-store k s e own = simp (own, get-store s k k e, ==_refl k)

-- What is left of a run from what its three steps on the settings and the memory give.
module _ (millis k : ℕ) (s : Strategy) (e : PriorityExecutable) (m1 m2 : Deques) (r : Option ℕ)
    (dl : is_deadline e ≡ true) (own : e.handle ≡ some k) where
  abbrev turned : PriorityExecutable
  turned = record (with_sum e) {
    release_time = r;
    cur_index = (e.cur_index + 1) % ceil_div e.deadline e.period;
  }

  run-Left :
      (let s2 = store k turned (record s { memory = m2 }) in
        Left s k m2 (ran e r) (store k (increment_counter turned) s2))
  unfolding store increment_counter get_priority_settings
  run-Left =
      let s2 = store k turned (record s { memory = m2 }) in
      record {
        memory = refl;
        own = ground (arith, get-store s2 k k (increment_counter turned));
        others = λ j ne.
            others-store s2 k j (increment_counter turned) ne
            ∙ others-store (record s { memory = m2 }) k j turned ne;
        plain = refl;
      }

  pub run_steps :
      (if e.is_first_in_chain && is_deadline e
          then release millis s (with_sum e)
          else some (with_sum e, s.memory))
        ≡ some (record (with_sum e) { release_time = r }, m1)
      → (if e.is_last_in_chain && is_deadline e
          then retire (record (with_sum e) { release_time = r }) m1
          else some m1)
        ≡ some m2
      → rotate (record (with_sum e) { release_time = r }) ≡ some turned
      → (s' : Strategy) × (account millis s k e ≡ some s') × Left s k m2 (ran e r) s'
  run_steps h1 h2 h3 =
      let s2 = store k turned (record s { memory = m2 }) in
      (
        store k (increment_counter turned) s2,
        account_steps millis k s _ e (record (with_sum e) { release_time = r }) turned m1 m2 h1 h2
            (then_branch _ _ dl h3)
            (then_branch _ _ (is_counted-deadline turned dl)
              (count_run-store k (record s { memory = m2 }) turned own)),
        run-Left,
      )

-- The first executable of a chain.
head_run :
    (millis k : ℕ) (s : Strategy) (e : PriorityExecutable)
    → s.is_f1tenth ≡ false
    → IsSound s.memory.vector k e
    → is_deadline e ≡ true
    → e.is_first_in_chain ≡ true
    → e.is_last_in_chain ≡ false
    → (r : ℕ) × (q : ℕ) × (s' : Strategy) × (e.release_time ≡ some r)
      × (slot s.memory e.deadlines ((e.cur_index + 1) % ceil_div e.deadline e.period) ≡ some q)
      × (account millis s k e ≡ some s')
      × Left s k
          (pushed s.memory q (released millis r e.period + e.deadline))
          (ran e (some (released millis r e.period)))
          s'
head_run millis k s e plain sound dl first last =
    let (r, q, timed, found, done) =
      release_lem millis k s (with_sum e) plain (with_sum-IsSound _ k e sound) dl first in
    let m1 = pushed s.memory q (released millis r e.period + e.deadline) in
    let (s', done', left) =
      run_steps millis k s e m1 m1 (some (released millis r e.period)) dl sound.own
        (then_branch _ (e.is_first_in_chain && is_deadline e) (ground arith) done)
        (else_branch _ (e.is_last_in_chain && is_deadline e) (ground arith) refl)
        (rotate_lem k s.memory (after_release millis r (with_sum e))
          (after_release-IsSound millis r _ k e sound) dl) in
    (r, q, s', timed, found, done', left)

-- The last executable of a chain.
tail_run :
    (millis k : ℕ) (s : Strategy) (e : PriorityExecutable)
    → IsSound s.memory.vector k e
    → is_deadline e ≡ true
    → e.is_first_in_chain ≡ false
    → e.is_last_in_chain ≡ true
    → (q : ℕ) × (s' : Strategy) × (slot s.memory e.deadlines e.cur_index ≡ some q)
      × (account millis s k e ≡ some s')
      × Left s k (popped s.memory q) (ran e e.release_time) s'
tail_run millis k s e sound dl first last =
    let (q, found, done) =
      retire_lem k s.memory (with_sum e) (with_sum-IsSound _ k e sound) dl last in
    let (s', done', left) =
      run_steps millis k s e s.memory (popped s.memory q) e.release_time dl sound.own
        (else_branch _ (e.is_first_in_chain && is_deadline e) (ground arith) refl)
        (then_branch _ (e.is_last_in_chain && is_deadline e) (ground arith) done)
        (rotate_lem k s.memory (with_sum e) (with_sum-IsSound _ k e sound) dl) in
    (q, s', found, done', left)

-- One instance of a chain from end to end, in a strategy without the F1TENTH case: a DEADLINE
-- executable `h` that is the first of its chain and not the last runs, then a DEADLINE executable
-- `t` that is the last and not the first, under another handle, with sound settings, the
-- same deques and the same index. Both runs succeed; together they append the deadline of the next
-- instance (the new release time of the timer plus the relative deadline, in 32 bits) to the deque
-- of `h`'s next index and drop the front of the deque of the current index; both end with a
-- higher sum and counter and their next index, and `h` with the new release time.
pub chain_instance :
    (millis millis' kh kt : ℕ) (s : Strategy) (h t : PriorityExecutable)
    → s.is_f1tenth ≡ false
    → kh ≢ kt
    → IsSound s.memory.vector kh h
    → IsSound s.memory.vector kt t
    → get_priority_settings s kt ≡ some t
    → is_deadline h ≡ true
    → is_deadline t ≡ true
    → (h.is_first_in_chain ≡ true) × (h.is_last_in_chain ≡ false)
    → (t.is_first_in_chain ≡ false) × (t.is_last_in_chain ≡ true)
    → (h.deadlines ≡ t.deadlines) × (h.cur_index ≡ t.cur_index)
    → (r : ℕ) × (current : ℕ) × (next : ℕ) × (s1 : Strategy) × (s2 : Strategy) × (h.release_time
        ≡ some r)
      × (slot s.memory h.deadlines h.cur_index ≡ some current)
      × (slot s.memory h.deadlines ((h.cur_index + 1) % ceil_div h.deadline h.period) ≡ some next)
      × (account millis s kh h ≡ some s1)
      × (get_priority_settings s1 kt ≡ some t)
      × (account millis' s1 kt t ≡ some s2)
      × (s2.memory
          ≡ popped (pushed s.memory next (released millis r h.period + h.deadline)) current)
      × (get_priority_settings s2 kh ≡ some (ran h (some (released millis r h.period))))
      × (get_priority_settings s2 kt ≡ some (ran t t.release_time))
unfolding slot
chain_instance millis millis' kh kt s h t plain ne soundh soundt found dlh dlt (first, inner)
      (inner', last) (queues, index) =
    let (r, next, s1, timed, slotn, done1, left1) =
      head_run millis kh s h plain soundh dlh first inner in
    let soundt1 : IsSound s1.memory.vector kt t =
      subst (λ m. IsSound m.vector kt t) (sym left1.memory) soundt in
    let (current, s2, slotc, done2, left2) = tail_run millis' kt s1 t soundt1 dlt inner' last in
    (
      r,
      current,
      next,
      s1,
      s2,
      timed,
      ap (λ v. v >>= λ v. get_elem? (s.memory.vector v) h.cur_index) queues
          ∙ ap (λ i. t.deadlines >>= λ v. get_elem? (s.memory.vector v) i) index
          ∙ ap (λ m. slot m t.deadlines t.cur_index) (sym left1.memory)
          ∙ slotc,
      slotn,
      done1,
      left1.others kt ne ∙ found,
      done2,
      left2.memory ∙ ap (λ m. popped m current) left1.memory,
      left2.others kh (λ eq. ne (sym eq)) ∙ left1.own,
      left2.own,
    )
