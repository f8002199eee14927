-- ===== src/Model/Events.antt =====
-- The union `ExecutionEvent` of nexus-workflow-core/src/interfaces/EventBus.ts: one constructor for
-- each `type`, its fields in the order of the source.
use nexus_workflow.Common.{ℕ, ℤ, String, Bool, Option, List}
use nexus_workflow.Model.Types.{BpmnElementType, WaitCondition}

pub data ForcedAction : Type 0 where
  complete_service_task fail_service_task fire_timer complete_user_task : ForcedAction

pub data ExecutionEvent : Type 0 where
  process_instance_started : String → String → ℕ → ExecutionEvent
  process_instance_completed : String → ℤ → ExecutionEvent
  process_instance_terminated : String → String → ExecutionEvent
  process_instance_restarted : String → String → ExecutionEvent
  process_instance_suspended : String → ExecutionEvent
  process_instance_resumed : String → ExecutionEvent
  process_instance_faulted : String → String → String → ExecutionEvent
  -- instance, token, from element, to element, its type
  token_moved : String → String → String → String → BpmnElementType → ExecutionEvent
  -- instance, token, element
  token_waiting : String → String → String → WaitCondition → ExecutionEvent
  token_cancelled : String → String → String → ExecutionEvent
  user_task_created : String → String → String → String → ExecutionEvent
  user_task_claimed : String → String → ExecutionEvent
  user_task_released : String → ExecutionEvent
  user_task_completed : String → String → ExecutionEvent
  user_task_cancelled : String → ExecutionEvent
  service_task_started : String → String → String → String → ExecutionEvent
  service_task_completed : String → String → String → ℕ → ExecutionEvent
  service_task_failed : String → String → String → String → ℕ → ExecutionEvent
  message_delivered : String → String → String → ExecutionEvent
  signal_broadcast : String → ℕ → ExecutionEvent
  error_thrown : String → String → String → Bool → ExecutionEvent
  timer_fired : String → String → String → ExecutionEvent
  boundary_event_triggered : String → String → String → Bool → ExecutionEvent
  call_activity_started : String → String → String → ExecutionEvent
  call_activity_completed : String → String → String → ExecutionEvent
  event_based_gateway_activated : String → String → String → List String → ExecutionEvent
  multi_instance_started : String → String → String → ℕ → Bool → ExecutionEvent
  multi_instance_completed : String → String → String → ℕ → ExecutionEvent
  compensation_triggered : String → String → String → Option String → List String → ExecutionEvent
  compensation_completed : String → String → String → ExecutionEvent
  sub_process_started : String → String → String → ExecutionEvent
  sub_process_completed : String → String → String → ExecutionEvent
  transaction_cancelled : String → String → String → List String → ExecutionEvent
  step_forced :
      String → String → String → ForcedAction → String → String → Option String → ExecutionEvent
