-- ===== src/Executor/Branches.antt =====
-- The two branches of get_next_ready_executable in priority_executor.cpp.
use mathlib.Core.Path.{subst}
use deadline_driven_enhancem.Base.{
  ℕ, ◌≡◌, refl, ap, sym, ◌∙◌, Bool, true, false, some, if◌then◌else◌, some_eq, >>=-eq-some, require,
}
use deadline_driven_enhancem.PriorityQueue.{PriorityQueue}
use deadline_driven_enhancem.Graph.{Graph, AnyExecutable}
use deadline_driven_enhancem.Strategy.{get_priority_settings}
use deadline_driven_enhancem.Strategy.NextReady.{
  itself, get_next_subscription, get_next_service, get_next_client, get_next_timer,
  get_next_waitable,
}
use deadline_driven_enhancem.Selection.{
  Offer, skip, offer, offer_entity, dispatch, account, select, queue_in_range, key_comparator,
}
use deadline_driven_enhancem.Selection
use deadline_driven_enhancem.Selection.Totality.{IsSetUp, get_next_executable-IsSetUp}
use deadline_driven_enhancem.Executor.{Executor, is_some, graph, next_by_priority, next_by_kind}
use deadline_driven_enhancem.Executor.Free.{IsFree, select-free, chosen-IsFree}

-- What the two branches leave: the flags and the nodes as they were, a group that may be taken
-- from, and a strategy that is set up.
pub record Chosen (x : Executor) (p : Executor × AnyExecutable) : Type 0 where
  pub flags : p.0.can_be_taken_from ≡ x.can_be_taken_from
  pub nodes : p.0.weak_nodes ≡ x.weak_nodes
  pub conditions : p.0.guard_conditions ≡ x.guard_conditions
  pub free : IsFree x.can_be_taken_from p.1
  pub set_up : IsSetUp x.strategy → IsSetUp p.0.strategy

Chosen-if :
    (x : Executor) (b : Bool) {p q : Executor × AnyExecutable}
    → Chosen x p
    → Chosen x q
    → Chosen x (if b then p else q)
Chosen-if x true hp hq = hp
Chosen-if x false hp hq = hq

module _ (pq : PriorityQueue) (g : Graph) (mutually_exclusive : ℕ → Bool) (x : Executor) where
  pub next_by_kind-Chosen :
      (any : AnyExecutable)
      → IsFree x.can_be_taken_from any
      → Chosen x (next_by_kind pq g mutually_exclusive x any)
  unfolding next_by_kind graph get_next_subscription get_next_service get_next_client get_next_timer
      get_next_waitable get_priority_settings
  next_by_kind-Chosen any free =
      let flags = x.can_be_taken_from in
      let (s1, any1) = get_next_timer (graph pq g mutually_exclusive x) x.strategy any in
      let (s2, any2) = get_next_subscription (graph pq g mutually_exclusive x) s1 any1 in
      let (s3, any3) = get_next_service (graph pq g mutually_exclusive x) s2 any2 in
      let (s4, any4) = get_next_client (graph pq g mutually_exclusive x) s3 any3 in
      let free1 =
        chosen-IsFree g.timer_by_handle g.group_by_timer flags x.strategy.timer_handles
          (λ x group. record any {
            timer = some x;
            callback_group = some group;
            node_base = g.node_by_group group;
          })
          any (λ x group. refl) free in
      let free2 =
        chosen-IsFree g.subscription_by_handle g.group_by_subscription flags s1.subscription_handles
          (λ x group. record any1 {
            subscription = some x;
            callback_group = some group;
            node_base = g.node_by_group group;
          })
          any1 (λ x group. refl) free1 in
      let free3 =
        chosen-IsFree g.service_by_handle g.group_by_service flags s2.service_handles
          (λ x group. record any2 {
            service = some x;
            callback_group = some group;
            node_base = g.node_by_group group;
          })
          any2 (λ x group. refl) free2 in
      let free4 =
        chosen-IsFree g.client_by_handle g.group_by_client flags s3.client_handles
          (λ x group. record any3 {
            client = some x;
            callback_group = some group;
            node_base = g.node_by_group group;
          })
          any3 (λ x group. refl) free3 in
      let free5 =
        chosen-IsFree itself g.group_by_waitable flags s4.waitable_handles
          (λ x group. record any4 {
            waitable = some x;
            callback_group = some group;
            node_base = g.node_by_group group;
          })
          any4 (λ x group. refl) free4 in
      Chosen-if x (is_some any1.timer)
        (record {
          flags = refl;
          nodes = refl;
          conditions = refl;
          free = free1;
          set_up = λ v. record {
            shared = v.shared;
            mirrored = v.mirrored;
            sound = v.sound;
            known = v.known;
          };
        })
        (Chosen-if x (is_some any2.subscription)
          (record {
            flags = refl;
            nodes = refl;
            conditions = refl;
            free = free2;
            set_up = λ v. record {
              shared = v.shared;
              mirrored = v.mirrored;
              sound = v.sound;
              known = v.known;
            };
          })
          (Chosen-if x (is_some any3.service)
            (record {
              flags = refl;
              nodes = refl;
              conditions = refl;
              free = free3;
              set_up = λ v. record {
                shared = v.shared;
                mirrored = v.mirrored;
                sound = v.sound;
                known = v.known;
              };
            })
            (Chosen-if x (is_some any4.client)
              (record {
                flags = refl;
                nodes = refl;
                conditions = refl;
                free = free4;
                set_up = λ v. record {
                  shared = v.shared;
                  mirrored = v.mirrored;
                  sound = v.sound;
                  known = v.known;
                };
              })
              (record {
                flags = refl;
                nodes = refl;
                conditions = refl;
                free = free5;
                set_up = λ v. record {
                  shared = v.shared;
                  mirrored = v.mirrored;
                  sound = v.sound;
                  known = v.known;
                };
              }))))

  pub next_by_priority-Chosen :
      (millis : ℕ) (any : AnyExecutable) (x' : Executor) (any' : AnyExecutable)
      → IsFree x.can_be_taken_from any
      → next_by_priority pq g mutually_exclusive millis x any ≡ some (x', any')
      → Chosen x (x', any')
  unfolding next_by_priority graph Selection.get_next_executable
  next_by_priority-Chosen millis any x' any' free h =
      let ((s, any''), selected, done) =
        >>=-eq-some
          (Selection.get_next_executable pq (graph pq g mutually_exclusive x) millis x.strategy any)
          (λ r. some (record x { strategy = r.0 }, r.1)) h in
      let (_, _, drained) =
        >>=-eq-some (require (queue_in_range x.strategy x.strategy.all_executables))
          (λ _.
            select (graph pq g mutually_exclusive x) millis x.strategy any
              (pq.drain (key_comparator x.strategy) x.strategy.all_executables))
          selected in
      let same = some_eq done in
      record {
        flags = ap (λ p. p.0.can_be_taken_from) (sym same);
        nodes = ap (λ p. p.0.weak_nodes) (sym same);
        conditions = ap (λ p. p.0.guard_conditions) (sym same);
        free =
            subst (λ p. IsFree x.can_be_taken_from p.1) same
              (select-free (graph pq g mutually_exclusive x) any free millis x.strategy _ s any''
                drained);
        set_up = λ v.
            let (s', _, taken', v') =
              get_next_executable-IsSetUp (graph pq g mutually_exclusive x) millis any pq x.strategy
                v in
            subst (λ p. IsSetUp p.0.strategy) same
              (subst IsSetUp (ap (λ p. p.0) (some_eq (sym taken' ∙ selected))) v');
      }
