-- ===== src/Tests.antt =====
-- Concrete data for the tests of the parts of the model: a DEADLINE chain of a timer (handle 1) and a
-- subscription (handle 2), with period 80 and deadline 100, hence two deques.
pub mod Setup
pub mod Selections
pub mod Executors
pub mod Rounds
pub mod Experiments
pub mod Outputs
pub mod F1tenth
pub mod Analysis
pub mod Nodes
use deadline_driven_enhancem.Base.{
  ℕ, Bool, true, false, Option, none, some, List, [], ◌∷◌, ◌==◌, if◌then◌else◌,
}
use deadline_driven_enhancem.Executable.{PriorityExecutable, subscription, timer, deadline}
use deadline_driven_enhancem.Executable.Comparator.{Deques}
use deadline_driven_enhancem.Graph.{Graph, Group, Node}
use deadline_driven_enhancem.Strategy.{Strategy}
use deadline_driven_enhancem.Strategy.Handles.{Ready, WaitableSizes}
use deadline_driven_enhancem.Executor.{Executor, Rcl, ok}
use deadline_driven_enhancem.Threads.{Pool, idle}

abbrev pub head : PriorityExecutable
head = record {
  handle = some 1;
  type = timer;
  can_be_run = true;
  waitable = none;
  sched_type = deadline;
  priority = 0;
  period = 80;
  deadline = 100;
  release_time = some 1000;
  is_first_in_chain = true;
  is_last_in_chain = false;
  cur_index = 0;
  deadlines = some 5;
  timer_handle = none;
  chain_id = 0;
  counter = 0;
  sum = 0;
}

abbrev pub tail : PriorityExecutable
tail = record head {
  handle = some 2;
  type = subscription;
  release_time = none;
  is_first_in_chain = false;
  is_last_in_chain = true;
}

-- The deque for the instance released at 1000, and an empty one for the next.
abbrev pub deques : Deques
deques = record {
  vector = λ v. if v == 5 then 10 ∷ 11 ∷ [] else [];
  deque = λ q. if q == 10 then 1100 ∷ [] else [];
}

abbrev pub chain : Strategy
chain = record {
  is_f1tenth = false;
  guard_conditions = 7 ∷ [];
  subscription_handles = 2 ∷ [];
  service_handles = [];
  client_handles = [];
  timer_handles = 1 ∷ [];
  waitable_handles = [];
  priority_map = (1, head) ∷ (2, tail) ∷ [];
  all_executables = 2 ∷ 1 ∷ [];
  memory = deques;
}

-- One group, number 9, with the timer 101 of handle 1 and the subscription 102 of handle 2.
abbrev pub graph : Graph
graph = record {
  subscription_by_handle = λ h. if h == 2 then some 102 else none;
  service_by_handle = λ h. none;
  client_by_handle = λ h. none;
  timer_by_handle = λ h. if h == 1 then some 101 else none;
  group_by_subscription = λ x. some 9;
  group_by_service = λ x. none;
  group_by_client = λ x. none;
  group_by_timer = λ x. some 9;
  group_by_waitable = λ x. none;
  node_by_group = λ x. some 3;
  can_be_taken_from = λ x. true;
}

abbrev pub node : Node
node =
    some (record {
      id = 9;
      subscriptions = 2 ∷ [];
      services = [];
      clients = [];
      timers = 1 ∷ [];
      waitables = [];
    })
    ∷ []

-- An executor with a node that is alive and one that has expired.
abbrev pub executor : Executor
executor = record {
  strategy = chain;
  weak_nodes = some node ∷ none ∷ [];
  guard_conditions = 7 ∷ 8 ∷ [];
  can_be_taken_from = λ x. true;
  use_priorities = true;
}

abbrev pub ready : Ready
ready = record {
  subscriptions = λ i. false;
  services = λ i. false;
  clients = λ i. false;
  timers = λ i. true;
  waitable_is_ready = λ w. false;
}

abbrev pub no_waitables : WaitableSizes
no_waitables = record {
  subscriptions = λ w. 0;
  services = λ w. 0;
  events = λ w. 0;
  clients = λ w. 0;
  guard_conditions = λ w. 0;
  timers = λ w. 0;
}

-- rcl accepts everything, and the timer is ready.
abbrev pub rcl : Rcl
rcl = record {
  wait_set_clear = true;
  wait_set_resize = λ s. true;
  accepts = λ e. true;
  wait = λ w. (ok, ready);
}

abbrev pub pool : Pool
pool = record { executor = executor; scheduled_timers = []; phase = λ t. idle }
