-- ===== src/TestNodes/Topics.antt =====
-- The topics of the nodes in test_nodes.cpp: a worker listens just to the node before it.
use deadline_driven_enhancem.Base.{
  ℕ, ◌+◌, ◌<◌, ◌≡◌, ◌≢◌, ◌↔◌, refl, ap, sym, ◌∙◌, inl, inr, Bool, false, [], ◌∷◌, ◌++◌, arith, ◌==◌,
  if◌then◌else◌, Bool-cases, All,
}
use deadline_driven_enhancem.TestNodes.{
  Text, bytes, to_string, head_topic, chain_topic, dummy_worker, publisher_node,
}
use deadline_driven_enhancem.TestNodes.Decimal.{IsDigit, to_string-IsDigit, to_string-injective}

-- Digits up to an underscore.
split :
    (xs ys a b : Text)
    → All IsDigit xs
    → All IsDigit ys
    → xs ++ (b'_' ∷ a) ≡ ys ++ (b'_' ∷ b)
    → (xs ≡ ys) × (a ≡ b)
split [] [] a b h k e = (refl, cc)
split [] (y ∷ ys) a b h (k, _) e = absurd (ground (arith, k, e))
split (x ∷ xs) [] a b (h, _) k e = absurd (ground (arith, h, e))
split (x ∷ xs) (y ∷ ys) a b (_, h) (_, k) e =
    let (same, rest) = split xs ys a b h k cc in (cc, rest)

chain_topic-injective : (c d n m : ℕ) → chain_topic c n ≡ chain_topic d m → (c ≡ d) × (n ≡ m)
unfolding chain_topic
chain_topic-injective c d n m h =
    let (chains, rest) =
      split (to_string c) (to_string d) (bytes "topic_" ++ to_string n)
        (bytes "topic_" ++ to_string m) (to_string-IsDigit c) (to_string-IsDigit d) cc in
    (to_string-injective c d chains, to_string-injective n m cc)

head_topic-injective : (c d : ℕ) → head_topic c ≡ head_topic d → c ≡ d
unfolding head_topic
head_topic-injective c d h = to_string-injective c d cc

head_not_chain : (c d m : ℕ) → head_topic c ≢ chain_topic d m
unfolding head_topic chain_topic
head_not_chain c d m h = ground arith

listens :
    (c n : ℕ) (l : Bool)
    → (dummy_worker c n false l).subscription_topic
      ≡ (if n == 1 then head_topic c else chain_topic c n)
unfolding dummy_worker
listens c n l = refl

listens_first :
    (c : ℕ) (n : ℕ) (l : Bool)
    → n ≡ 1
    → (dummy_worker c n false l).subscription_topic ≡ head_topic c
listens_first c n l one = listens c n l ∙ ground (arith, one)

listens_next :
    (c : ℕ) (n : ℕ) (l : Bool)
    → n ≢ 1
    → (dummy_worker c n false l).subscription_topic ≡ chain_topic c n
listens_next c n l other = listens c n l ∙ ground (arith, other)

tells : (d m : ℕ) (k : Bool) → (dummy_worker d m false k).publisher_topic ≡ chain_topic d (m + 1)
unfolding dummy_worker
tells d m k = refl

publishes_head : (d : ℕ) → (publisher_node (head_topic d) d).topic ≡ head_topic d
unfolding publisher_node
publishes_head d = refl

-- Of workers that are not of several chains, and of which the second has a number from 1: the first
-- listens to what the second publishes just where it is the next of the same chain, and to the
-- publisher of a chain just where it is the first worker of that chain.
pub topics_connect :
    (c d n m : ℕ) (l k : Bool)
    → 0 < m
    → (((dummy_worker c n false l).subscription_topic ≡ (dummy_worker d m false k).publisher_topic)
        ↔ ((c ≡ d) × (n ≡ m + 1)))
      × (((dummy_worker c n false l).subscription_topic ≡ (publisher_node (head_topic d) d).topic)
          ↔ ((c ≡ d) × (n ≡ 1)))
topics_connect c d n m l k hm = elim (Bool-cases (n == 1)) [
  | inl one ↦
      let n1 : n ≡ 1 = ground arith in
      let at = listens_first c n l n1 in
      (
        (
          (λ h. absurd (head_not_chain c d (m + 1) (sym at ∙ h ∙ tells d m k))),
          (λ (same, next). absurd (omega (arith, n1, next, hm))),
        ),
        (
          (λ h. (head_topic-injective c d (sym at ∙ h ∙ publishes_head d), n1)),
          (λ (same, _). at ∙ ap head_topic same ∙ sym (publishes_head d)),
        ),
      )
  | inr other ↦
      let n1 : n ≢ 1 = λ e. ground arith in
      let at = listens_next c n l n1 in
      (
        (
          (λ h. chain_topic-injective c d n (m + 1) (sym at ∙ h ∙ tells d m k)),
          (λ (same, next).
              at ∙ ap (λ c. chain_topic c n) same ∙ ap (chain_topic d) next ∙ sym (tells d m k)),
        ),
        (
          (λ h. absurd (head_not_chain d c n (sym (publishes_head d) ∙ sym h ∙ at))),
          (λ (_, one). absurd (n1 one)),
        ),
      )
]
