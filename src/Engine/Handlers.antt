-- ===== src/Engine/Handlers.antt =====
-- The handlers of tasks and end events, and `processToken`, in engine/ExecutionEngine.ts.
pub mod Completion
pub mod Termination
use nexus_workflow.Common.{not, ◌&&◌, ◌==◌, eqb, find, if◌then◌else◌, case_option, truthy, or_else}
use nexus_workflow.Model.Types.{Token, is_live, WaitConditionType, BpmnElementType}
use nexus_workflow.Model.Elements.{
  EventDefinition, EventDefinitionType, BpmnElement, ServiceTask, BpmnFlowElement,
  ProcessDefinition, start_event, end_event, intermediate_catch_event, intermediate_throw_event,
  boundary_event, service_task, user_task, script_task, manual_task, call_activity, gateway,
  sub_process,
}
use nexus_workflow.Model.Events.{service_task_started}
use nexus_workflow.Model.Errors.{unsupported_element_type}
use nexus_workflow.Engine.Monad.{Exec, throw, for_each, ◌>>=◌, ◌>>◌}
use nexus_workflow.Engine.Context.{now, emit, pending_count, get_all_tokens, require_instance}
use nexus_workflow.Engine.Definition.{get_element}
use nexus_workflow.Engine.Moves.{
  skip, complete_token, cancel_token, suspend_token, complete_instance, advance_token,
}
use nexus_workflow.Engine.Boundaries.{
  spawn_boundary_tokens, handle_intermediate_catch_event, handle_boundary_event_wait,
}
use nexus_workflow.Engine.SubProcess.{
  handle_sub_process, check_sub_process_completion, handle_transaction_cancel,
}
use nexus_workflow.Engine.Compensation.{handle_intermediate_throw_event}
use nexus_workflow.Engine.MultiInstance.{
  get_loop_characteristics, handle_multi_instance_start, handle_multi_instance_child_completion,
}
use nexus_workflow.Engine.GatewayHandlers.{handle_gateway}

-- The other tokens that a terminate end event cancels, each at its own time.
unfoldable pub cancel_others : Token → Exec (Unit {0})
cancel_others token = do
  tokens ← get_all_tokens
  for_each tokens (λ t.
      if not (t.id == token.id) && is_live t.status
      then (do time ← now; cancel_token time t)
      else skip)

-- The end of an instance: no live token, and none in the queue.
unfoldable pub complete_if_done : Exec (Unit {0})
complete_if_done = do
  tokens ← get_all_tokens
  count ← pending_count
  case_option (find (λ t. is_live t.status) tokens)
      (if eqb count 0 then complete_instance else skip) (λ live. skip)

module _ (definition : ProcessDefinition) where
  -- `handleEndEvent`, by the type of the event definition.
  unfoldable pub end_event_reached : EventDefinitionType → Token → Exec (Unit {0})
  end_event_reached EventDefinitionType.cancel token = handle_transaction_cancel definition token
  end_event_reached EventDefinitionType.terminate token = cancel_others token >> complete_instance
  end_event_reached type token =
      if truthy token.sub_process_instance_id
      then check_sub_process_completion definition (or_else token.sub_process_instance_id "")
      else complete_if_done

  unfoldable pub handle_end_event : Token → EventDefinition → Exec (Unit {0})
  handle_end_event token d = do complete_token token; end_event_reached d.type token

  unfoldable pub start_service_task : Token → BpmnElement → ServiceTask → Exec (Unit {0})
  start_service_task token base t = do
    i ← require_instance
    emit (service_task_started i.id token.id base.id (or_else t.task_type "unknown"))
    suspend_token token WaitConditionType.external
    spawn_boundary_tokens definition token base.id

  unfoldable pub start_user_task : Token → BpmnElement → Exec (Unit {0})
  start_user_task token base = do
    suspend_token token WaitConditionType.user_task
    spawn_boundary_tokens definition token base.id

  -- `element.loopCharacteristics && !token.parentTokenId`, or else the rest of the handler.
  unfoldable pub unless_multi_instance : Token → BpmnFlowElement → Exec (Unit {0}) → Exec (Unit {0})
  unless_multi_instance token element otherwise =
      case_option (get_loop_characteristics element) otherwise λ lc.
        if truthy token.parent_token_id
        then otherwise
        else handle_multi_instance_start definition element lc token

  -- `case 'manualTask'` of `processToken`, past the multi-instance test.
  unfoldable pub finish_manual_task : Token → BpmnFlowElement → Exec (Unit {0})
  finish_manual_task token element =
      if truthy token.parent_token_id
      then case_option (get_loop_characteristics element) (advance_token definition token element)
          (λ lc. handle_multi_instance_child_completion definition element lc token)
      else advance_token definition token element

  -- The `switch` of `processToken`.
  unfoldable pub process_element : BpmnFlowElement → Token → Exec (Unit {0})
  process_element (start_event b d i) token = advance_token definition token (start_event b d i)
  process_element (end_event b d) token = handle_end_event token d
  process_element (service_task b t) token =
      unless_multi_instance token (service_task b t) (start_service_task token b t)
  process_element (user_task b t) token =
      unless_multi_instance token (user_task b t) (start_user_task token b)
  process_element (script_task b t) token =
      unless_multi_instance token (script_task b t) (suspend_token token WaitConditionType.external)
  process_element (manual_task b t) token =
      unless_multi_instance token (manual_task b t) (finish_manual_task token (manual_task b t))
  process_element (intermediate_catch_event b d) token = handle_intermediate_catch_event token d
  process_element (intermediate_throw_event b d) token =
      handle_intermediate_throw_event definition token b d
  process_element (boundary_event b e) token = handle_boundary_event_wait token e
  process_element (gateway b g) token = handle_gateway definition g.type token b g
  process_element (sub_process b tr es fs s) token = handle_sub_process definition token b tr s
  process_element (call_activity b t) token =
      throw (unsupported_element_type BpmnElementType.call_activity)

  unfoldable pub process_token : Token → Exec (Unit {0})
  process_token token = do
    element ← get_element definition token.element_id
    process_element element token
