-- ===== src/Strategy/Collect/Consistency.antt =====
-- What collect_entities keeps of the strategy.
use deadline_driven_enhancem.Base.{
  ℕ, ◌≡◌, ◌≢◌, refl, inl, inr, Bool, true, false, ◌||◌, Option, none, some, List, [], ◌∷◌, arith,
  All, All-map, Option-cases, Bool-cases, for_each, for_each_inv,
}
use deadline_driven_enhancem.Executable.{
  ExecutableType, subscription, service, client, timer, waitable, executable,
  chain_independent_priority,
}
use deadline_driven_enhancem.Strategy.{Strategy, get_priority_settings, get_and_reset_priority}
use deadline_driven_enhancem.Strategy.Settings.{IsKeyed, get-store, get_and_reset_priority-IsKeyed}
use deadline_driven_enhancem.Graph.{Group, Node}
use deadline_driven_enhancem.Strategy.Collect.{
  push, collect_subscription, collect_service, collect_client, collect_timer, collect_waitable,
  collect_group, collect_weak_group, collect_weak_node, collect_entities,
}

-- An invariant that taking in one handle keeps is kept by collect_entities.
module _ {ℓ} (I : Strategy → Type ℓ)
    (keep_subscription : (s : Strategy) (h : ℕ) → I s → I (collect_subscription s h))
    (keep_service : (s : Strategy) (h : ℕ) → I s → I (collect_service s h))
    (keep_client : (s : Strategy) (h : ℕ) → I s → I (collect_client s h))
    (keep_timer : (s : Strategy) (h : ℕ) → I s → I (collect_timer s h))
    (keep_waitable : (s : Strategy) (h : ℕ) → I s → I (collect_waitable s h)) where
  collect_group_inv : (s : Strategy) (g : Group) → I s → I (collect_group s g)
  unfolding collect_group
  collect_group_inv s g v = for_each_inv I collect_waitable keep_waitable g.waitables _ (
      for_each_inv I collect_timer keep_timer g.timers _ (
        for_each_inv I collect_client keep_client g.clients _ (
          for_each_inv I collect_service keep_service g.services _
            (for_each_inv I collect_subscription keep_subscription g.subscriptions s v))))

  collect_weak_group_inv :
      (take : ℕ → Bool) (s : Strategy) (g : Option Group) → I s → I (collect_weak_group take s g)
  unfolding collect_weak_group
  collect_weak_group_inv take s none v = v
  collect_weak_group_inv take s (some g) v = elim (Bool-cases (take g.id)) [
    | inl e ↦ rw (e, collect_weak_group) (collect_group_inv s g v)
    | inr e ↦ rw (e, collect_weak_group) v
  ]

  pub collect_entities_inv :
      (take : ℕ → Bool) (s : Strategy) (nodes : List (Option Node))
      → I s
      → I (collect_entities take s nodes).0
  unfolding collect_entities
  collect_entities_inv take s nodes v =
      for_each_inv (λ (r : Strategy × Bool). I r.0) (collect_weak_node take)
        (λ (r, invalid) node w. node_inv r invalid node w) nodes (s, false) v
    where
      node_inv :
          (r : Strategy) (invalid : Bool) (node : Option Node)
          → I r
          → I (collect_weak_node take (r, invalid) node).0
      node_inv r invalid none w = w
      node_inv r invalid (some node) w =
          for_each_inv I (collect_weak_group take) (collect_weak_group_inv take) node r w

-- Every entry of the map stands under its own handle, and each queued handle has an entry (so the
-- pointers of `all_executables_` are valid).
pub record IsConsistent (s : Strategy) : Type 0 where
  pub keyed : IsKeyed s
  pub queued : All (λ h. get_priority_settings s h ≢ none) s.all_executables

pub get_and_reset_priority-kept :
    (s : Strategy) (k j : ℕ) (t : ExecutableType)
    → get_priority_settings s j ≢ none
    → get_priority_settings (get_and_reset_priority s k t) j ≢ none
unfolding get_and_reset_priority
get_and_reset_priority-kept s k j t h = elim (Option-cases (get_priority_settings s k)) [
  | inl e ↦ λ gone. ground (arith, h, get-store s k j (executable k 0 t chain_independent_priority))
  | inr (f, e) ↦ rw (e, get_and_reset_priority) h
]

pub get_and_reset_priority-has :
    (s : Strategy) (k : ℕ) (t : ExecutableType)
    → get_priority_settings (get_and_reset_priority s k t) k ≢ none
unfolding get_and_reset_priority
get_and_reset_priority-has s k t h = elim (Option-cases (get_priority_settings s k)) [
  | inl e ↦ ground (arith, get-store s k k (executable k 0 t chain_independent_priority))
  | inr (f, e) ↦ ground arith
]

pub get_and_reset_priority-queue :
    (s : Strategy) (k : ℕ) (t : ExecutableType)
    → (get_and_reset_priority s k t).all_executables ≡ s.all_executables
unfolding get_and_reset_priority
get_and_reset_priority-queue s k t = elim (Option-cases (get_priority_settings s k)) [
  | inl e ↦ rw (e, get_and_reset_priority)
  | inr (f, e) ↦ rw (e, get_and_reset_priority)
]

push-IsConsistent :
    (s : Strategy) (h : ℕ) (t : ExecutableType) → IsConsistent s → IsConsistent (push s h t)
unfolding push get_priority_settings
push-IsConsistent s h t v = record {
  keyed = get_and_reset_priority-IsKeyed s v.keyed h t;
  queued = (
    get_and_reset_priority-has s h t,
    rw (get_and_reset_priority-queue s h t)
        (All-map _ s.all_executables (λ j. get_and_reset_priority-kept s h j t) v.queued),
  );
}

-- The handle vectors do not matter.
IsConsistent-vectors :
    (s t : Strategy)
    → t.priority_map ≡ s.priority_map
    → t.all_executables ≡ s.all_executables
    → IsConsistent s
    → IsConsistent t
unfolding get_priority_settings
IsConsistent-vectors s t m q v = record {
  keyed = λ k e found. v.keyed k e (rw m at found);
  queued = rw (q, m) v.queued;
}

collect_subscription-IsConsistent :
    (s : Strategy) (h : ℕ) → IsConsistent s → IsConsistent (collect_subscription s h)
unfolding collect_subscription
collect_subscription-IsConsistent s h v = elim (Option-cases (get_priority_settings s h)) [
  | inl e ↦ rw (e, collect_subscription) v
  | inr (f, e) ↦
      rw (e, collect_subscription)
        (push-IsConsistent _ h subscription (IsConsistent-vectors s _ refl refl v))
]

collect_service-IsConsistent :
    (s : Strategy) (h : ℕ) → IsConsistent s → IsConsistent (collect_service s h)
unfolding collect_service
collect_service-IsConsistent s h v = elim (Option-cases (get_priority_settings s h)) [
  | inl e ↦ rw (e, collect_service) v
  | inr (f, e) ↦
      rw (e, collect_service)
        (IsConsistent-vectors (push s h service) _ refl refl (push-IsConsistent s h service v))
]

abbrev pub some_expired : List (Option Node) → Bool
some_expired [] = false
some_expired (none ∷ nodes) = true
some_expired (some node ∷ nodes) = some_expired nodes

invalid-some_expired :
    (take : ℕ → Bool) (nodes : List (Option Node)) (s : Strategy) (b : Bool)
    → (for_each (collect_weak_node take) nodes (s, b)).1 ≡ (b || some_expired nodes)
unfolding collect_weak_node
invalid-some_expired take [] s b = ground arith
invalid-some_expired take (none ∷ nodes) s b =
    ground (arith, invalid-some_expired take nodes s true)
invalid-some_expired take (some node ∷ nodes) s b =
    invalid-some_expired take nodes (for_each (collect_weak_group take) node s) b

pub has_invalid-some_expired :
    (take : ℕ → Bool) (s : Strategy) (nodes : List (Option Node))
    → (collect_entities take s nodes).1 ≡ some_expired nodes
unfolding collect_entities
has_invalid-some_expired take s nodes = invalid-some_expired take nodes s false

-- Collecting the entities keeps every entry of the map under its own handle and every queued handle
-- in the map, and has_invalid_weak_nodes tells whether some weak node has expired.
pub collect_entities-IsConsistent :
    (take : ℕ → Bool) (s : Strategy) (nodes : List (Option Node))
    → IsConsistent s
    → IsConsistent (collect_entities take s nodes).0
      × ((collect_entities take s nodes).1 ≡ some_expired nodes)
unfolding collect_client collect_timer collect_waitable collect_entities
collect_entities-IsConsistent take s nodes v = (
  collect_entities_inv IsConsistent collect_subscription-IsConsistent collect_service-IsConsistent
      (λ s h v. IsConsistent-vectors (push s h client) _ refl refl (push-IsConsistent s h client v))
      (λ s h v. IsConsistent-vectors (push s h timer) _ refl refl (push-IsConsistent s h timer v))
      (λ s h v.
        IsConsistent-vectors (push s h waitable) _ refl refl (push-IsConsistent s h waitable v))
      take s nodes v,
  has_invalid-some_expired take s nodes,
)
