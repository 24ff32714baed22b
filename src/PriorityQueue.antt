-- ===== src/PriorityQueue.antt =====
-- What priority_memory_strategy.hpp relies on of std::priority_queue. While nothing is pushed, the
-- handles that top() and pop() give one after another are one list, `drain`; the standard leaves the
-- order of equivalent elements open, and so does this interface.
pub mod Insertion
use deadline_driven_enhancem.Base.{ℕ, ◌≡◌, Bool, true, false, List, [], ◌∷◌, Permᴰ, All}

-- No element is less than one that comes later, for `c x y` read as `x < y`.
abbrev pub IsOrdered : (ℕ → ℕ → Bool) → List ℕ → Type 0
IsOrdered c [] = Unit
IsOrdered c (x ∷ xs) = All (λ y. c x y ≡ false) xs × IsOrdered c xs

-- `c` is a strict weak order on the elements that satisfy `P`.
pub record StrictWeakOn (P : ℕ → Type 0) (c : ℕ → ℕ → Bool) : Type 0 where
  pub asymmetric : (x y : ℕ) → P x → P y → c x y ≡ true → c y x ≡ false
  pub transitive : (x y z : ℕ) → P x → P y → P z → c x y ≡ false → c y z ≡ false → c x z ≡ false

pub record PriorityQueue : Type 1 where
  pub drain : (ℕ → ℕ → Bool) → List ℕ → List ℕ
  pub drain-perm : (c : ℕ → ℕ → Bool) (xs : List ℕ) → Permᴰ xs (drain c xs)
  pub drain-IsOrdered :
      (P : ℕ → Type 0) (c : ℕ → ℕ → Bool) (xs : List ℕ)
      → StrictWeakOn P c
      → All P xs
      → IsOrdered c (drain c xs)
