-- ===== src/Selection/Accounting.antt =====
-- The bookkeeping of get_next_executable in priority_memory_strategy.hpp does not fault in a strategy
-- that is set up as the programs do it, and keeps it so.
use native.Mathlib.Nat.{mod-lt}
use deadline_driven_enhancem.Base.{
  ℕ, ◌+◌, ◌%◌, ◌^◌, ◌<◌, ◌≤◌, ◌≡◌, refl, true, false, ◌&&◌, Option, some, List, [], ◌∷◌, ◌++◌,
  arith, length, get_elem?_lt, All, Bool-cases, inl, inr, if◌then◌else◌, ◌==◌,
}
use deadline_driven_enhancem.Executable.{PriorityExecutable}
use deadline_driven_enhancem.Executable.Comparator.{Deques, slot, reads_in_range}
use deadline_driven_enhancem.Strategy.{Strategy}
use deadline_driven_enhancem.Selection.{
  ceil_div, is_deadline, max_chain_num, next_index, released, update, push_deadline, pop_front,
  release, retire, rotate, mirror_deadline,
}
use deadline_driven_enhancem.Selection.Release.{ceil_div-pos}

-- The settings of one executable, over the vectors of deques: it stands under its own handle; a
-- DEADLINE one has a positive period and deadline, and its index lies within the number of chain
-- instances that fit in a deadline; if it is the first or the last of its chain, its vector has a
-- deque for each of these; if it is the first, it has a release time.
pub record IsSound (vector : ℕ → List ℕ) (k : ℕ) (e : PriorityExecutable) : Type 0 where
  pub own : e.handle ≡ some k
  pub timed : is_deadline e ≡ true → (0 < e.period) × (0 < e.deadline)
  pub within : is_deadline e ≡ true → e.cur_index < ceil_div e.deadline e.period
  pub queues :
      is_deadline e ≡ true
      → (v : ℕ) × (e.deadlines ≡ some v) × (length (vector v) ≡ ceil_div e.deadline e.period)
  pub timer :
      is_deadline e ≡ true → e.is_first_in_chain ≡ true → (r : ℕ) × (e.release_time ≡ some r)

module _ (m : Deques) (k : ℕ) (e : PriorityExecutable) (sound : IsSound m.vector k e)
    (dl : is_deadline e ≡ true) where
  pub instances-pos : 0 < ceil_div e.deadline e.period
  instances-pos = ceil_div-pos e.deadline e.period (sound.timed dl).0 (sound.timed dl).1

  max_chain_num_sound : max_chain_num e ≡ some (ceil_div e.deadline e.period)
  unfolding max_chain_num
  max_chain_num_sound = ground (arith, sound.timed dl)

  pub next_index_sound : next_index e ≡ some ((e.cur_index + 1) % ceil_div e.deadline e.period)
  unfolding next_index
  next_index_sound = rw max_chain_num_sound (ground (arith, instances-pos))

  slot_sound :
      (i : ℕ) → i < ceil_div e.deadline e.period → (q : ℕ) × (slot m e.deadlines i ≡ some q)
  unfolding slot
  slot_sound i lt =
      let (v, at, size) = sound.queues dl in
      let (q, found) = get_elem?_lt (m.vector v) i (omega arith) in (q, rw (at, found))

pub IsSound-reads_in_range :
    (m : Deques) (k : ℕ) (e : PriorityExecutable) → IsSound m.vector k e → reads_in_range m e ≡ true
unfolding reads_in_range
IsSound-reads_in_range m k e sound = elim (Bool-cases (is_deadline e)) [
  | inl dl ↦ let (v, at, size) = sound.queues dl in ground (arith, dl, at, size, sound.within dl)
  | inr other ↦ ground (arith, other)
]

-- The release time and the memory after the branch for the first of a chain.
abbrev pub after_release : ℕ → ℕ → PriorityExecutable → PriorityExecutable
after_release millis r e = record e { release_time = some (released millis r e.period) }

abbrev pub pushed : Deques → ℕ → ℕ → Deques
pushed m q value = record m { deque = update m.deque q (m.deque q ++ ((value % 2 ^ 32) ∷ [])) }

abbrev pub popped : Deques → ℕ → Deques
popped m q = record m { deque = update m.deque q (pop_front (m.deque q)) }

pub push_deadline-some :
    (deadlines : Option ℕ) (index value q : ℕ) (m : Deques)
    → slot m deadlines index ≡ some q
    → push_deadline deadlines index value m ≡ some (pushed m q value)
unfolding push_deadline
push_deadline-some deadlines index value q m found = rw found

pub release_steps :
    (millis r q index : ℕ) (s : Strategy) (e : PriorityExecutable) (m : Deques)
    → e.release_time ≡ some r
    → next_index e ≡ some index
    → slot s.memory e.deadlines index ≡ some q
    → let value = released millis r e.period + e.deadline in
      (if s.is_f1tenth && e.chain_id == 0
          then mirror_deadline s.priority_map index value (pushed s.memory q value)
          else some (pushed s.memory q value))
        ≡ some m
      → release millis s e ≡ some (after_release millis r e, m)
unfolding release
release_steps millis r q index s e m timed next found rest =
    simp (timed, next, push_deadline-some e.deadlines index _ q s.memory found, rest)

pub release_lem :
    (millis k : ℕ) (s : Strategy) (e : PriorityExecutable)
    → s.is_f1tenth ≡ false
    → IsSound s.memory.vector k e
    → is_deadline e ≡ true
    → e.is_first_in_chain ≡ true
    → (r : ℕ) × (q : ℕ) × (e.release_time ≡ some r)
      × (slot s.memory e.deadlines ((e.cur_index + 1) % ceil_div e.deadline e.period) ≡ some q)
      × (release millis s e
          ≡ some (
            after_release millis r e,
            pushed s.memory q (released millis r e.period + e.deadline),
          ))
release_lem millis k s e plain sound dl first =
    let (r, timed) = sound.timer dl first in
    let n = ceil_div e.deadline e.period in
    let small : (e.cur_index + 1) % n < n =
      mod-lt (e.cur_index + 1) (instances-pos s.memory k e sound dl) in
    let (q, found) = slot_sound s.memory k e sound dl ((e.cur_index + 1) % n) small in
    (
      r,
      q,
      timed,
      found,
      release_steps millis r q ((e.cur_index + 1) % n) s e _ timed
          (next_index_sound s.memory k e sound dl) found (simp plain),
    )

-- The settings of one executable in the F1TENTH case, where the first executable of chain 0 releases
-- chain 1 too: the former counts at most `n` instances, and the latter's executables have a deque for
-- each of these.
pub record IsMirrored (n : ℕ) (vector : ℕ → List ℕ) (e : PriorityExecutable) : Type 0 where
  pub head :
      is_deadline e ≡ true
      → e.is_first_in_chain ≡ true
      → e.chain_id ≡ 0
      → ceil_div e.deadline e.period ≤ n
  pub copy : 0 < n → e.chain_id ≡ 1 → (v : ℕ) × (e.deadlines ≡ some v) × (n ≤ length (vector v))

abbrev pub AllMirrored : ℕ → (ℕ → List ℕ) → List (ℕ × PriorityExecutable) → Type 0
AllMirrored n vector m = All (λ p. IsMirrored n vector p.1) m

mirror_deadline_lem :
    (n index value : ℕ) (m : Deques) (map : List (ℕ × PriorityExecutable))
    → AllMirrored n m.vector map
    → index < n
    → (m' : Deques) × (mirror_deadline map index value m ≡ some m') × (m'.vector ≡ m.vector)
unfolding mirror_deadline slot
mirror_deadline_lem n index value m [] all lt = (m, refl, refl)
mirror_deadline_lem n index value m ((k, e) ∷ map) (here, all) lt =
    elim (Bool-cases (e.chain_id == 1)) [
      | inl one ↦
          let (v, at, size) = here.copy (omega (arith, lt)) (ground arith) in
          let (q, found) = get_elem?_lt (m.vector v) index (omega (arith, size, lt)) in
          (
            pushed m q value,
            rw one (push_deadline-some e.deadlines index value q m (rw (slot, at) found)),
            refl,
          )
      | inr other ↦
          let (m', done, same) = mirror_deadline_lem n index value m map all lt in
          (m', rw other done, same)
    ]

-- What the branch for the first executable needs of the F1TENTH case.
abbrev pub MayMirror : Strategy → PriorityExecutable → Type 0
MayMirror s e =
    s.is_f1tenth ≡ true
    → (n : ℕ) × IsMirrored n s.memory.vector e × AllMirrored n s.memory.vector s.priority_map

pub release_shared :
    (millis k : ℕ) (s : Strategy) (e : PriorityExecutable)
    → MayMirror s e
    → IsSound s.memory.vector k e
    → is_deadline e ≡ true
    → e.is_first_in_chain ≡ true
    → (r : ℕ) × (m : Deques) × (release millis s e ≡ some (after_release millis r e, m))
      × (m.vector ≡ s.memory.vector)
release_shared millis k s e mirror sound dl first =
    let (r, timed) = sound.timer dl first in
    let n = ceil_div e.deadline e.period in
    let small : (e.cur_index + 1) % n < n =
      mod-lt (e.cur_index + 1) (instances-pos s.memory k e sound dl) in
    let (q, found) = slot_sound s.memory k e sound dl ((e.cur_index + 1) % n) small in
    let value = released millis r e.period + e.deadline in
    let next = next_index_sound s.memory k e sound dl in
    elim (Bool-cases (s.is_f1tenth && e.chain_id == 0)) [
      | inl shared ↦
          let (most, mine, all) = mirror (ground arith) in
          let bound = mine.head dl first (ground arith) in
          let (m, done, same) =
            mirror_deadline_lem most ((e.cur_index + 1) % n) value (pushed s.memory q value)
              s.priority_map all (omega (arith, bound, small)) in
          (
            r,
            m,
            release_steps millis r q ((e.cur_index + 1) % n) s e m timed next found
                (rw shared done),
            same,
          )
      | inr alone ↦ (
        r,
        pushed s.memory q value,
        release_steps millis r q ((e.cur_index + 1) % n) s e _ timed next found (rw alone refl),
        refl,
      )
    ]

pub retire_lem :
    (k : ℕ) (m : Deques) (e : PriorityExecutable)
    → IsSound m.vector k e
    → is_deadline e ≡ true
    → e.is_last_in_chain ≡ true
    → (q : ℕ) × (slot m e.deadlines e.cur_index ≡ some q) × (retire e m ≡ some (popped m q))
unfolding retire
retire_lem k m e sound dl last =
    let (q, found) = slot_sound m k e sound dl e.cur_index (sound.within dl) in
    (q, found, rw (max_chain_num_sound m k e sound dl, found))

pub rotate_lem :
    (k : ℕ) (m : Deques) (e : PriorityExecutable)
    → IsSound m.vector k e
    → is_deadline e ≡ true
    → rotate e ≡ some (record e { cur_index = (e.cur_index + 1) % ceil_div e.deadline e.period })
unfolding rotate
rotate_lem k m e sound dl = rw (next_index_sound m k e sound dl)
