-- ===== src/Executor/Subscription.antt =====
-- execute_subscription of the executors in priority_executor.cpp and take_and_do_error_handling of
-- include/priority_executor/priority_executor.hpp, as the calls that they make.
use deadline_driven_enhancem.Base.{
  ℕ, ◌+◌, ◌≡◌, ◌↔◌, Bool, true, false, not, ◌&&◌, ◌||◌, List, [], ◌∷◌, ◌++◌, arith, if◌then◌else◌,
}

-- What an attempt to take a message ends with; an exception other than RCLError leaves the function.
pub data Take : Type 0 where
  taken not_taken rcl_error exception : Take

pub data LoanResult : Type 0 where
  ok take_failed error : LoanResult

pub data Message : Type 0 where
  serialized loaned copy : Message

-- A message is created, given to the callback, or given back (`true`: there is one to give back);
-- the rest is the log.
pub data Event : Type 0 where
  create handle : Message → Event
  give_back : Message → Bool → Event
  log_error log_debug log_return : Event

-- The subscription as rclcpp and rcl present it: `throws_rcl_error`
-- tells whether throw_from_rcl_error throws an RCLError for an error of the take of a loan, and
-- `handle_throws` whether an exception leaves the callback.
pub record Subscription : Type 0 where
  pub is_serialized : Bool
  pub can_loan_messages : Bool
  pub take_serialized : Take
  pub take_loaned_message : LoanResult
  pub throws_rcl_error : Bool
  pub take_type_erased : Take
  pub returns_loan : Bool → Bool
  pub handle_throws : Bool

-- The calls, and whether an exception leaves.
abbrev pub Trace : Type 0
Trace = List Event × Bool

-- handle_action is called outside of the `try`: `throws` is whether an exception leaves it.
unfoldable pub take_and_do_error_handling : Take → Event → Bool → Trace
take_and_do_error_handling taken handle_action throws = (handle_action ∷ [], throws)
take_and_do_error_handling not_taken handle_action throws = (log_debug ∷ [], false)
take_and_do_error_handling rcl_error handle_action throws = (log_error ∷ log_debug ∷ [], false)
take_and_do_error_handling exception handle_action throws = ([], true)

abbrev pub and_then : Trace → List Event → Trace
and_then (events, left) more = if left then (events, true) else (events ++ more, false)

-- The take action for a loan.
unfoldable pub take_loan : Subscription → Take
take_loan s = elim s.take_loaned_message [
  | take_failed ↦ not_taken
  | ok ↦ taken
  | error ↦ if s.throws_rcl_error then rcl_error else exception
]

-- The pointer to the loan is null unless one was taken.
abbrev pub is_taken : Take → Bool
is_taken taken = true
is_taken not_taken = false
is_taken rcl_error = false
is_taken exception = false

abbrev pub is_exception : Take → Bool
is_exception exception = true
is_exception taken = false
is_exception not_taken = false
is_exception rcl_error = false

unfoldable pub execute_subscription : Subscription → Trace
unfolding take_and_do_error_handling take_loan
execute_subscription s =
    if s.is_serialized
    then (let (events, left) =
          and_then
            (take_and_do_error_handling s.take_serialized (handle serialized) s.handle_throws)
            (give_back serialized true ∷ []) in
        (create serialized ∷ events, left))
    else if s.can_loan_messages
    then and_then (take_and_do_error_handling (take_loan s) (handle loaned) s.handle_throws) (
        give_back loaned (is_taken (take_loan s))
        ∷ (if s.returns_loan (is_taken (take_loan s)) then [] else log_return ∷ []))
    else (let (events, left) =
          and_then (take_and_do_error_handling s.take_type_erased (handle copy) s.handle_throws)
            (give_back copy true ∷ []) in
        (create copy ∷ events, left))

-- The attempt that the subscription's kind leads to.
abbrev pub attempt : Subscription → Take
attempt s =
    if s.is_serialized
    then s.take_serialized
    else if s.can_loan_messages
    then take_loan s
    else s.take_type_erased

abbrev pub handled : List Event → ℕ
handled [] = 0
handled (handle m ∷ es) = 1 + handled es
handled (create m ∷ es) = handled es
handled (give_back m b ∷ es) = handled es
handled (log_error ∷ es) = handled es
handled (log_debug ∷ es) = handled es
handled (log_return ∷ es) = handled es

abbrev pub given_back : List Event → ℕ
given_back [] = 0
given_back (give_back m b ∷ es) = 1 + given_back es
given_back (handle m ∷ es) = given_back es
given_back (create m ∷ es) = given_back es
given_back (log_error ∷ es) = given_back es
given_back (log_debug ∷ es) = given_back es
given_back (log_return ∷ es) = given_back es

-- Whatever the subscription's kind, and however the take ends: the callback runs once if a message
-- was taken and not at all otherwise; an exception leaves exactly if the take throws one that is no
-- RCLError, or a message was taken and the callback throws; and unless one does, exactly one message
-- is given back.
pub execute_subscription-handled :
    (s : Subscription)
    → (handled (execute_subscription s).0 ≡ (if is_taken (attempt s) then 1 else 0))
      × (((execute_subscription s).1 ≡ true)
          ↔ (is_exception (attempt s) || is_taken (attempt s) && s.handle_throws) ≡ true)
      × ((execute_subscription s).1 ≡ false → given_back (execute_subscription s).0 ≡ 1)
unfolding execute_subscription
execute_subscription-handled s = (ground arith, ground arith, ground arith)

-- The loans given back that are null.
abbrev pub null_given_back : List Event → ℕ
null_given_back [] = 0
null_given_back (give_back m b ∷ es) = (if b then 0 else 1) + null_given_back es
null_given_back (handle m ∷ es) = null_given_back es
null_given_back (create m ∷ es) = null_given_back es
null_given_back (log_error ∷ es) = null_given_back es
null_given_back (log_debug ∷ es) = null_given_back es
null_given_back (log_return ∷ es) = null_given_back es

-- A null pointer is given back to rcl exactly when the subscription loans messages, is not serialized,
-- and no loan was taken without an exception leaving.
pub execute_subscription-null_given_back :
    (s : Subscription)
    → null_given_back (execute_subscription s).0 ≡ (
        if not s.is_serialized
          && s.can_loan_messages
          && not (is_taken (attempt s))
          && not (execute_subscription s).1
        then 1
        else 0)
unfolding execute_subscription
execute_subscription-null_given_back s = ground arith
