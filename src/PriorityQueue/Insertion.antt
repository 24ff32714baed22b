-- ===== src/PriorityQueue/Insertion.antt =====
-- An instance of the interface, by insertion: it shows that the interface can be met, and runs.
use mathlib.Core.List.Permᴰ
use deadline_driven_enhancem.Base.{
  ℕ, ◌≡◌, refl, Bool, false, List, [], ◌∷◌, Permᴰ, All, All-perm, Bool-cases, inl, inr,
  if◌then◌else◌,
}
use deadline_driven_enhancem.PriorityQueue.{IsOrdered, StrictWeakOn, PriorityQueue}

module _ (c : ℕ → ℕ → Bool) where
  -- `x` goes before the first element that it is not less than.
  insert : ℕ → List ℕ → List ℕ
  insert x [] = x ∷ []
  insert x (y ∷ ys) = if c x y then y ∷ insert x ys else x ∷ y ∷ ys

  pub sort : List ℕ → List ℕ
  unfolding insert
  sort [] = []
  sort (x ∷ xs) = insert x (sort xs)

  insert-perm : (x : ℕ) (ys : List ℕ) → Permᴰ (x ∷ ys) (insert x ys)
  unfolding insert
  insert-perm x [] = Permᴰ.refl _
  insert-perm x (y ∷ ys) = elim (Bool-cases (c x y)) [
    | inl e ↦
        rw (e, insert) (Permᴰ.trans (Permᴰ.swap refl refl) (Permᴰ.cons refl (insert-perm x ys)))
    | inr e ↦ rw (e, insert) (Permᴰ.refl _)
  ]

  pub sort-perm : (xs : List ℕ) → Permᴰ xs (sort xs)
  unfolding sort
  sort-perm [] = Permᴰ.nil
  sort-perm (x ∷ xs) = Permᴰ.trans (Permᴰ.cons refl (sort-perm xs)) (insert-perm x (sort xs))

  module _ (P : ℕ → Type 0) (w : StrictWeakOn P c) where
    below_first :
        (x y : ℕ) (ys : List ℕ)
        → P x
        → P y
        → All P ys
        → c x y ≡ false
        → All (λ z. c y z ≡ false) ys
        → All (λ z. c x z ≡ false) ys
    below_first x y [] hx hy hs e h = tt
    below_first x y (z ∷ ys) hx hy hs e h =
        (w.transitive x y z hx hy hs.0 e h.0, below_first x y ys hx hy hs.1 e h.1)

    insert-IsOrdered :
        (x : ℕ) (ys : List ℕ) → P x → All P ys → IsOrdered c ys → IsOrdered c (insert x ys)
    unfolding insert
    insert-IsOrdered x [] hx hs o = (tt, tt)
    insert-IsOrdered x (y ∷ ys) hx hs o = elim (Bool-cases (c x y)) [
      | inl e ↦
          rw (e, insert)
            (
              All-perm (λ z. c y z ≡ false) (insert-perm x ys) (w.asymmetric x y hx hs.0 e, o.0),
              insert-IsOrdered x ys hx hs.1 o.1,
            )
      | inr e ↦ rw (e, insert) ((e, below_first x y ys hx hs.0 hs.1 e o.0), o)
    ]

    pub sort-IsOrdered : (xs : List ℕ) → All P xs → IsOrdered c (sort xs)
    unfolding sort
    sort-IsOrdered [] h = tt
    sort-IsOrdered (x ∷ xs) h =
        insert-IsOrdered x (sort xs) h.0 (All-perm P (sort-perm xs) h.1) (sort-IsOrdered xs h.1)

unfoldable pub insertion_queue : PriorityQueue
unfolding sort insert
insertion_queue = record {
  drain = sort;
  drain-perm = sort-perm;
  drain-IsOrdered = λ P c xs w h. sort-IsOrdered c P w xs h;
}
