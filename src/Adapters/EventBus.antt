-- ===== src/Adapters/EventBus.antt =====
-- nexus-workflow-core/src/adapters/InMemoryEventBus.ts. A function of a subscriber is known by a
-- number; what a step calls, and in which order, is its result.
pub mod Delivery
use nexus_workflow.Common.{
  ℕ, suc, String, Bool, true, false, not, List, [], ◌∷◌, ◌++◌, ◌==◌, eqb, filter, if◌then◌else◌,
}
use nexus_workflow.Model.Events.{
  ExecutionEvent, process_instance_started, process_instance_completed, process_instance_terminated,
  process_instance_restarted, process_instance_suspended, process_instance_resumed,
  process_instance_faulted, token_moved, token_waiting, token_cancelled, user_task_created,
  user_task_claimed, user_task_released, user_task_completed, user_task_cancelled,
  service_task_started, service_task_completed, service_task_failed, message_delivered,
  signal_broadcast, error_thrown, timer_fired, boundary_event_triggered, call_activity_started,
  call_activity_completed, event_based_gateway_activated, multi_instance_started,
  multi_instance_completed, compensation_triggered, compensation_completed, sub_process_started,
  sub_process_completed, transaction_cancelled, step_forced,
}

-- `event.type`
abbrev pub event_type : ExecutionEvent → String
event_type (process_instance_started a b c) = "ProcessInstanceStarted"
event_type (process_instance_completed a b) = "ProcessInstanceCompleted"
event_type (process_instance_terminated a b) = "ProcessInstanceTerminated"
event_type (process_instance_restarted a b) = "ProcessInstanceRestarted"
event_type (process_instance_suspended a) = "ProcessInstanceSuspended"
event_type (process_instance_resumed a) = "ProcessInstanceResumed"
event_type (process_instance_faulted a b c) = "ProcessInstanceFaulted"
event_type (token_moved a b c d e) = "TokenMoved"
event_type (token_waiting a b c d) = "TokenWaiting"
event_type (token_cancelled a b c) = "TokenCancelled"
event_type (user_task_created a b c d) = "UserTaskCreated"
event_type (user_task_claimed a b) = "UserTaskClaimed"
event_type (user_task_released a) = "UserTaskReleased"
event_type (user_task_completed a b) = "UserTaskCompleted"
event_type (user_task_cancelled a) = "UserTaskCancelled"
event_type (service_task_started a b c d) = "ServiceTaskStarted"
event_type (service_task_completed a b c d) = "ServiceTaskCompleted"
event_type (service_task_failed a b c d e) = "ServiceTaskFailed"
event_type (message_delivered a b c) = "MessageDelivered"
event_type (signal_broadcast a b) = "SignalBroadcast"
event_type (error_thrown a b c d) = "ErrorThrown"
event_type (timer_fired a b c) = "TimerFired"
event_type (boundary_event_triggered a b c d) = "BoundaryEventTriggered"
event_type (call_activity_started a b c) = "CallActivityStarted"
event_type (call_activity_completed a b c) = "CallActivityCompleted"
event_type (event_based_gateway_activated a b c d) = "EventBasedGatewayActivated"
event_type (multi_instance_started a b c d e) = "MultiInstanceStarted"
event_type (multi_instance_completed a b c d) = "MultiInstanceCompleted"
event_type (compensation_triggered a b c d e) = "CompensationTriggered"
event_type (compensation_completed a b c) = "CompensationCompleted"
event_type (sub_process_started a b c) = "SubProcessStarted"
event_type (sub_process_completed a b c) = "SubProcessCompleted"
event_type (transaction_cancelled a b c d) = "TransactionCancelled"
event_type (step_forced a b c d e f g) = "StepForced"

-- An `ExecutionEventHandler`: a subscriber's own function, or the wrapper that `subscribeToType` makes
-- of one, a new function each time.
pub data Handler : Type 0 where
  own : ℕ → Handler
  -- the wrapper's number, the type, the subscriber's function
  wrapper : ℕ → String → ℕ → Handler

-- `h === handler` of two functions.
abbrev pub same_handler : Handler → Handler → Bool
same_handler (own f) (own g) = eqb f g
same_handler (wrapper i type f) (wrapper j type2 g) = eqb i j
same_handler _ _ = false

pub record InMemoryEventBus : Type 0 where
  pub handlers : List Handler
  pub published : List ExecutionEvent
  pub next_wrapper : ℕ

abbrev pub new_bus : InMemoryEventBus
new_bus = record { handlers = []; published = []; next_wrapper = 0 }

-- A subscriber's function with the event that it is given.
abbrev pub Delivery : Type 0
Delivery = ℕ × ExecutionEvent

-- `handler(event)`
abbrev pub deliver : Handler → ExecutionEvent → List Delivery
deliver (own f) event = (f, event) ∷ []
deliver (wrapper i type f) event = if event_type event == type then (f, event) ∷ [] else []

-- `for (const handler of this.handlers) await handler(event)`
abbrev pub deliver_all : List Handler → ExecutionEvent → List Delivery
deliver_all [] event = []
deliver_all (h ∷ handlers) event = deliver h event ++ deliver_all handlers event

unfoldable pub publish : ExecutionEvent → InMemoryEventBus → InMemoryEventBus × List Delivery
publish event bus =
    (record bus { published = bus.published ++ event ∷ [] }, deliver_all bus.handlers event)

unfoldable pub publish_many :
    List ExecutionEvent → InMemoryEventBus → InMemoryEventBus × List Delivery
unfolding publish
publish_many [] bus = (bus, [])
publish_many (event ∷ events) bus =
    let (next, deliveries) = publish event bus in
    let (last, rest) = publish_many events next in (last, deliveries ++ rest)

unfoldable pub subscribe : Handler → InMemoryEventBus → InMemoryEventBus
subscribe handler bus = record bus { handlers = bus.handlers ++ handler ∷ [] }

-- The function that `subscribe` returns.
unfoldable pub unsubscribe : Handler → InMemoryEventBus → InMemoryEventBus
unsubscribe handler bus = record bus {
  handlers = filter (λ h. not (same_handler h handler)) bus.handlers;
}

-- The bus, and the wrapper that was subscribed.
unfoldable pub subscribe_to_type : String → ℕ → InMemoryEventBus → InMemoryEventBus × Handler
unfolding subscribe
subscribe_to_type type f bus =
    let h = wrapper bus.next_wrapper type f in
    (subscribe h (record bus { next_wrapper = suc bus.next_wrapper }), h)

unfoldable pub get_all : InMemoryEventBus → List ExecutionEvent
get_all bus = bus.published

unfoldable pub get_by_type : String → InMemoryEventBus → List ExecutionEvent
get_by_type type bus = filter (λ e. event_type e == type) bus.published

unfoldable pub reset : InMemoryEventBus → InMemoryEventBus
reset bus = record bus { published = [] }

unfoldable pub clear : InMemoryEventBus → InMemoryEventBus
clear bus = record bus { handlers = []; published = [] }
