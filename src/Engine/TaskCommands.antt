-- ===== src/Engine/TaskCommands.antt =====
-- The commands that complete and fail a task, in engine/ExecutionEngine.ts.
use nexus_workflow.Common.{
  ℕ, String, Bool, true, false, ◌&&◌, Option, none, some, ◌==◌, find, if◌then◌else◌, case_option,
  truthy, is_text,
}
use nexus_workflow.Model.Types.{Variables, Token, is_waiting, BpmnElementType, InstanceStatus}
use nexus_workflow.Model.Elements.{
  MultiInstanceLoopCharacteristics, BpmnFlowElement, ProcessDefinition, service_task, user_task,
  script_task, manual_task,
}
use nexus_workflow.Model.Events.{
  process_instance_resumed, process_instance_suspended, service_task_completed, service_task_failed,
  error_thrown, boundary_event_triggered,
}
use nexus_workflow.Model.Errors.{token_not_waiting}
use nexus_workflow.Engine.Monad.{Exec, throw, ◌>>=◌, ◌>>◌}
use nexus_workflow.Engine.Context.{
  now, emit, get_all_tokens, require_token, require_instance, set_instance,
}
use nexus_workflow.Engine.Definition.{Boundary, get_element, find_matching_error_boundary}
use nexus_workflow.Engine.Moves.{skip, cancel_token, move_token_to_flows, advance_token}
use nexus_workflow.Engine.Boundaries.{cancel_boundary_tokens_for, cancel_host_task_and_boundaries}
use nexus_workflow.Engine.SubProcess.{merge_nonempty}
use nexus_workflow.Engine.Compensation.{
  record_compensation_if_needed, handle_compensation_handler_completion,
}
use nexus_workflow.Engine.MultiInstance.{
  get_loop_characteristics, handle_multi_instance_child_completion,
}
use nexus_workflow.Engine.Loop.{run_loop}
use nexus_workflow.Engine.InstanceCommands.{is_suspended_instance}

-- `token.status !== 'waiting'` throws.
unfoldable pub require_waiting : String → Token → Exec (Unit {0})
require_waiting token_id token =
    if is_waiting token.status then skip else throw (token_not_waiting token_id token.status)

abbrev pub is_compensation_source : BpmnElementType → Bool
is_compensation_source BpmnElementType.intermediate_throw_event = true
is_compensation_source BpmnElementType.end_event = true
is_compensation_source _ = false

-- `(element as { isForCompensation?: boolean }).isForCompensation === true`
abbrev pub is_for_compensation : BpmnFlowElement → Bool
is_for_compensation (service_task b t) = t.is_for_compensation
is_for_compensation (user_task b t) = t.is_for_compensation
is_for_compensation (script_task b t) = t.is_for_compensation
is_for_compensation (manual_task b t) = t.is_for_compensation
is_for_compensation _ = false

abbrev pub is_service_task : BpmnFlowElement → Bool
is_service_task (service_task b t) = true
is_service_task _ = false

-- `tokenId` of the source is the token's own id, by which the map is keyed.
unfoldable pub emit_service_task_completed : Token → Exec (Unit {0})
emit_service_task_completed token = do
  i ← require_instance
  emit (service_task_completed i.id token.id token.element_id 0)

-- An administrator's completion of a task resumes a suspended instance.
unfoldable pub auto_resume : Exec (Unit {0})
auto_resume = do
  i ← require_instance
  if is_suspended_instance i.status
      then (do
        set_instance (record i { status = InstanceStatus.active })
        emit (process_instance_resumed i.id))
      else skip

-- `if (vars && Object.keys(vars).length > 0) ctx.mergeVariables(scopeId, vars)`
abbrev pub merge_given : String → Option Variables → Exec (Unit {0})
merge_given scope_id vars = case_option vars skip (merge_nonempty scope_id)

-- No boundary event matches: the instance is suspended and the token goes on waiting.
unfoldable pub suspend_on_failure : Token → String → String → Exec (Unit {0})
suspend_on_failure token code message = do
  i ← require_instance
  set_instance (record i {
    status = InstanceStatus.suspended;
    error_info = some (record {
      code = code;
      message = message;
      element_id = some token.element_id;
      token_id = some token.id;
    });
  })
  emit (process_instance_suspended i.id)
  emit (error_thrown i.id token.id code false)

module _ (fuel : ℕ) (definition : ProcessDefinition) where
  -- The end of `handleCompleteTask`, for a task that is no child of another token.
  unfoldable pub complete_plain_task : Token → BpmnFlowElement → Exec (Unit {0})
  complete_plain_task token element = do
    emit_service_task_completed token
    cancel_boundary_tokens_for token.element_id
    record_compensation_if_needed definition token element
    advance_token definition token element
    run_loop fuel definition

  -- A child of a multi-instance task.
  unfoldable pub complete_child_task :
      Token → BpmnFlowElement → MultiInstanceLoopCharacteristics → Exec (Unit {0})
  complete_child_task token element lc = do
    if is_service_task element then emit_service_task_completed token else skip
    handle_multi_instance_child_completion definition element lc token
    run_loop fuel definition

  -- The parent token was not that of a multi-instance task.
  unfoldable pub complete_handler_or_plain : Token → BpmnFlowElement → Token → Exec (Unit {0})
  complete_handler_or_plain token element parent =
      if is_compensation_source parent.element_type && is_for_compensation element
      then (do
        handle_compensation_handler_completion definition token parent
        run_loop fuel definition)
      else complete_plain_task token element

  unfoldable pub complete_with_parent : Token → BpmnFlowElement → Token → Exec (Unit {0})
  complete_with_parent token element parent =
      case_option
        (if parent.element_id == token.element_id then get_loop_characteristics element else none)
        (complete_handler_or_plain token element parent) (complete_child_task token element)

  unfoldable pub complete_task : Token → BpmnFlowElement → Exec (Unit {0})
  complete_task token element = do
    tokens ← get_all_tokens
    if truthy token.parent_token_id
        then case_option (find (λ t. is_text token.parent_token_id t.id) tokens)
            (complete_plain_task token element) (complete_with_parent token element)
        else complete_plain_task token element

  unfoldable pub handle_complete_task : String → Option Variables → Exec (Unit {0})
  handle_complete_task token_id output_variables = do
    token ← require_token token_id
    require_waiting token_id token
    auto_resume
    merge_given token.scope_id output_variables
    element ← get_element definition token.element_id
    complete_task token element

  -- A matching error boundary event catches the failure.
  unfoldable pub catch_failure : Token → String → Boundary → Exec (Unit {0})
  catch_failure token code (base, e) = do
    time ← now
    cancel_token time token
    cancel_host_task_and_boundaries token.element_id ""
    i ← require_instance
    emit (error_thrown i.id token.id code true)
    emit (boundary_event_triggered i.id token.id base.id e.cancel_activity)
    move_token_to_flows definition token base.outgoing_flows
    run_loop fuel definition

  unfoldable pub handle_fail_service_task : String → String → String → Exec (Unit {0})
  handle_fail_service_task token_id code message = do
    token ← require_token token_id
    require_waiting token_id token
    i ← require_instance
    emit (service_task_failed i.id token.id token.element_id message 1)
    case_option (find_matching_error_boundary definition token.element_id code)
        (suspend_on_failure token code message) (catch_failure token code)
