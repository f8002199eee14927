-- ===== src/Engine/Compensation.antt =====
-- Compensation, in engine/ExecutionEngine.ts.
use nexus_workflow.Common.{
  String, Bool, false, ◌&&◌, Option, none, some, List, [], ◌∷◌, filter, find, all, if◌then◌else◌,
  case_option, truthy, is_text, or_else,
}
use nexus_workflow.Model.Types.{Token, is_done, WaitConditionType, CompensationRecord}
use nexus_workflow.Model.Elements.{
  EventDefinition, BpmnElement, BpmnFlowElement, ProcessDefinition, end_event,
  intermediate_throw_event, element_id, element_type,
}
use nexus_workflow.Model.Events.{token_moved, compensation_triggered, compensation_completed}
use nexus_workflow.Gateways.EventBased.{find_top_level}
use nexus_workflow.Engine.Monad.{Exec, pure, collect, ◌>>=◌, ◌>>◌}
use nexus_workflow.Engine.Context.{
  now, emit, update_token, create_token, enqueue_pending, get_all_tokens, require_instance,
}
use nexus_workflow.Engine.Records.{
  add_compensation_record, consume_compensation_records, consume_all_compensation_records,
}
use nexus_workflow.Engine.Definition.{find_boundaries_for, get_element}
use nexus_workflow.Engine.Moves.{skip, complete_token, suspend_token, advance_token}
use nexus_workflow.Engine.Boundaries.{is_compensation}
use nexus_workflow.Engine.SubProcess.{is_cancel, waits_at, fire_cancel_boundary}

-- `compensationActivityRef ? { targetActivityId: compensationActivityRef } : {}`
abbrev target_activity : Option String → Option String
target_activity ref = if truthy ref then ref else none

abbrev pub is_cancel_end : BpmnFlowElement → Bool
is_cancel_end (end_event b d) = is_cancel d.type
is_cancel_end _ = false

module _ (definition : ProcessDefinition) where
  -- The body of the loop of `handleCompensationThrow`: the handler's id, if it was found.
  unfoldable pub spawn_handler : String → Token → String → CompensationRecord → Exec (List String)
  spawn_handler instance_id token element_id r =
      case_option (find_top_level definition.elements r.handler_id) (pure []) λ handler. do
        base ← create_token instance_id r.handler_id (element_type handler) token.scope_id none
        let tagged = record base { parent_token_id = some token.id }
        update_token tagged
        emit (token_moved instance_id tagged.id element_id r.handler_id (element_type handler))
        enqueue_pending tagged
        pure (r.handler_id ∷ [])

  -- `handleCompensationThrow` once the records are taken.
  unfoldable pub run_handlers :
      String → Token → BpmnElement → EventDefinition → List CompensationRecord → Exec (Unit {0})
  run_handlers instance_id token base d [] = do
    emit (
        compensation_triggered instance_id token.id base.id
          (target_activity d.compensation_activity_ref) [])
    advance_token definition token (intermediate_throw_event base d)
  run_handlers instance_id token base d (r ∷ records) = do
    suspend_token token WaitConditionType.external
    handler_ids ← collect (r ∷ records) (spawn_handler instance_id token base.id)
    emit (
        compensation_triggered instance_id token.id base.id
          (target_activity d.compensation_activity_ref) handler_ids)

  unfoldable pub handle_compensation_throw : Token → BpmnElement → EventDefinition → Exec (Unit {0})
  handle_compensation_throw token base d = do
    i ← require_instance
    records ←
        (if truthy d.compensation_activity_ref
          then consume_compensation_records (or_else d.compensation_activity_ref "")
          else consume_all_compensation_records)
    run_handlers i.id token base d records

  unfoldable pub handle_intermediate_throw_event :
      Token → BpmnElement → EventDefinition → Exec (Unit {0})
  handle_intermediate_throw_event token base d =
      if is_compensation d.type
      then handle_compensation_throw token base d
      else advance_token definition token (intermediate_throw_event base d)

  -- `recordCompensationIfNeeded` once the boundary event is found.
  unfoldable pub record_compensation : Token → String → Option String → Exec (Unit {0})
  record_compensation token activity_id handler_id =
      if truthy handler_id
      then (do
        i ← require_instance
        time ← now
        add_compensation_record (record {
          instance_id = i.id;
          activity_id = activity_id;
          token_id = token.id;
          handler_id = or_else handler_id "";
          completed_at = time;
        }))
      else skip

  unfoldable pub record_compensation_if_needed : Token → BpmnFlowElement → Exec (Unit {0})
  record_compensation_if_needed token element =
      case_option
        (find (λ b. is_compensation b.1.event_definition.type)
          (find_boundaries_for definition (element_id element)))
        skip
        λ boundary.
          record_compensation token (element_id element)
            boundary.1.event_definition.compensation_activity_ref

  -- All handlers are done: the cancel boundary fires, or the throw token goes on.
  unfoldable pub resume_throw_token : Token → BpmnFlowElement → Exec (Unit {0})
  resume_throw_token throw_token throw_element =
      if is_cancel_end throw_element && truthy throw_token.sub_process_instance_id
      then (do
        let sub_process_id : String = or_else throw_token.sub_process_instance_id ""
        tokens ← get_all_tokens
        case_option (find (waits_at sub_process_id) tokens) skip
            λ outer. fire_cancel_boundary definition outer sub_process_id)
      else advance_token definition throw_token throw_element

  unfoldable pub handle_compensation_handler_completion : Token → Token → Exec (Unit {0})
  handle_compensation_handler_completion handler_token throw_token = do
    complete_token handler_token
    tokens ← get_all_tokens
    let siblings = filter (λ t. is_text t.parent_token_id throw_token.id) tokens
    if all (λ t. is_done t.status) siblings
        then (do
          i ← require_instance
          emit (compensation_completed i.id throw_token.id throw_token.element_id)
          element ← get_element definition throw_token.element_id
          resume_throw_token throw_token element)
        else skip
