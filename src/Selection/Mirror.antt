-- ===== src/Selection/Mirror.antt =====
-- The F1TENTH case of get_next_executable in priority_memory_strategy.hpp: a run of the head of chain 0
-- releases chain 1 too.
use deadline_driven_enhancem.Base.{
  ℕ, ◌+◌, ◌%◌, ◌≡◌, ◌∙◌, inl, inr, true, ◌&&◌, Option, some, List, [], ◌∷◌, arith, ◌==◌, Bool-cases,
  All, if◌then◌else◌,
}
use deadline_driven_enhancem.Executable.{PriorityExecutable}
use deadline_driven_enhancem.Executable.Comparator.{Deques, slot}
use deadline_driven_enhancem.Strategy.{Strategy, get_priority_settings, lookup}
use deadline_driven_enhancem.Selection.{ceil_div, is_deadline, released, release, mirror_deadline}
use deadline_driven_enhancem.Selection.Accounting.{
  IsSound, next_index_sound, after_release, pushed, push_deadline-some, release_steps,
}

-- Every executable of chain 1 in the map has the vector `v`.
abbrev pub HasVector : ℕ → List (ℕ × PriorityExecutable) → Type 0
HasVector v m = All (λ p. p.1.chain_id ≡ 1 → p.1.deadlines ≡ some v) m

mirror_deadline-pushed :
    (v q k index value : ℕ) (f : PriorityExecutable) (m : Deques)
    (map : List (ℕ × PriorityExecutable))
    → HasVector v map
    → lookup k map ≡ some f
    → f.chain_id ≡ 1
    → slot m (some v) index ≡ some q
    → mirror_deadline map index value m ≡ some (pushed m q value)
unfolding mirror_deadline lookup
mirror_deadline-pushed v q k index value f m [] all found one at = absurd (ground arith)
mirror_deadline-pushed v q k index value f m ((j, e) ∷ map) (here, all) found one at =
    elim (Bool-cases (e.chain_id == 1)) [
      | inl hit ↦
          let vec = here (ground arith) in
          rw (mirror_deadline, hit, vec) (push_deadline-some (some v) index value q m at)
      | inr miss ↦
          let other : lookup k map ≡ some f = ground (arith, found, one) in
          rw (mirror_deadline, miss)
            (mirror_deadline-pushed v q k index value f m map all other one at)
    ]

-- In the F1TENTH case, for the head of chain 0 with sound settings and a chain 1 whose executables have
-- one vector: the release pushes the deadline of the head's next instance, by the head's own relative
-- deadline, into the deque of that instance of chain 0 and then into the deque of the same index of
-- chain 1, and nothing else changes in the memory.
pub release-mirrored :
    (millis k r v q q' j : ℕ) (s : Strategy) (e f : PriorityExecutable)
    → s.is_f1tenth ≡ true
    → e.chain_id ≡ 0
    → IsSound s.memory.vector k e
    → is_deadline e ≡ true
    → e.release_time ≡ some r
    → HasVector v s.priority_map
    → get_priority_settings s j ≡ some f
    → f.chain_id ≡ 1
    → slot s.memory e.deadlines ((e.cur_index + 1) % ceil_div e.deadline e.period) ≡ some q
    → slot s.memory (some v) ((e.cur_index + 1) % ceil_div e.deadline e.period) ≡ some q'
    → release millis s e
      ≡ some (
        after_release millis r e,
        pushed
            (pushed s.memory q (released millis r e.period + e.deadline))
            q'
            (released millis r e.period + e.deadline),
      )
unfolding get_priority_settings slot
release-mirrored millis k r v q q' j s e f shared chain sound dl timed vector found one at at' =
    let index = (e.cur_index + 1) % ceil_div e.deadline e.period in
    let value = released millis r e.period + e.deadline in
    release_steps millis r q index s e _ timed (next_index_sound s.memory k e sound dl) at (
      both _ _
      ∙ mirror_deadline-pushed v q' j index value f (pushed s.memory q value) s.priority_map vector
          found one at')
  where
    both : (x y : Option Deques) → (if s.is_f1tenth && e.chain_id == 0 then x else y) ≡ x
    both x y = ground (arith, shared, chain)
