-- ===== src/Engine/Moves.antt =====
-- Moving and suspending tokens, the functions under "Helpers" of engine/ExecutionEngine.ts.
use nexus_workflow.Common.{ℕ, String, Option, none, some, List, if◌then◌else◌, truthy, sub_ℕ}
use nexus_workflow.Model.Types.{
  Token, waiting, completed, cancelled, WaitCondition, WaitConditionType, InstanceStatus,
}
use nexus_workflow.Model.Elements.{
  BpmnFlowElement, ProcessDefinition, element_id, element_type, outgoing_flows,
}
use nexus_workflow.Model.Events.{
  token_moved, token_waiting, token_cancelled, process_instance_completed,
}
use nexus_workflow.Engine.Monad.{Exec, pure, for_each, ◌>>=◌, ◌>>◌}
use nexus_workflow.Engine.Context.{
  now, emit, update_token, create_token, enqueue_pending, require_instance, set_instance,
}
use nexus_workflow.Engine.Definition.{get_element, get_flow}

abbrev pub skip : Exec (Unit {0})
skip = pure tt

-- `ctx.updateToken({ ...token, status: 'completed', updatedAt: ctx.now() })`
unfoldable pub complete_token : Token → Exec (Unit {0})
complete_token token = do
  time ← now
  update_token (record token { status = completed; updated_at = time })

-- `ctx.updateToken({ ...t, status: 'cancelled', updatedAt: now })`, and the event that follows it.
unfoldable pub cancel_token : ℕ → Token → Exec (Unit {0})
cancel_token time t = do
  update_token (record t { status = cancelled; updated_at = time })
  emit (token_cancelled t.instance_id t.id t.element_id)

-- `{ ...token, subProcessInstanceId: id }` where the id is not empty.
abbrev pub tag_sub_process : Option String → Token → Token
tag_sub_process id token =
    if truthy id then record token { sub_process_instance_id = id } else token

-- `waitingFor: condition`
unfoldable pub suspend_token_with_condition : Token → WaitCondition → Exec (Unit {0})
suspend_token_with_condition token condition = do
  time ← now
  update_token (record token { status = waiting; waiting_for = some condition; updated_at = time })
  emit (token_waiting token.instance_id token.id token.element_id condition)

unfoldable pub suspend_token : Token → WaitConditionType → Exec (Unit {0})
suspend_token token wait_type =
    suspend_token_with_condition token (record { type = wait_type; correlation_data = none })

unfoldable pub complete_instance : Exec (Unit {0})
complete_instance = do
  started ← require_instance
  time ← now
  i ← require_instance
  set_instance (record i { status = InstanceStatus.completed; completed_at = some time })
  emit (process_instance_completed i.id (sub_ℕ time started.started_at))

module _ (definition : ProcessDefinition) where
  unfoldable pub move_token_to_flow : Token → String → Exec (Unit {0})
  move_token_to_flow from flow_id = do
    flow ← get_flow definition flow_id
    target ← get_element definition flow.target_ref
    base ←
        create_token from.instance_id (element_id target) (element_type target) from.scope_id
          (some flow_id)
    let token = tag_sub_process from.sub_process_instance_id base
    if truthy from.sub_process_instance_id then update_token token else skip
    emit (
        token_moved from.instance_id token.id from.element_id (element_id target)
          (element_type target))
    enqueue_pending token

  -- `for (const flowId of flowIds) moveTokenToFlow(ctx, token, flowId, definition)`
  unfoldable pub move_token_to_flows : Token → List String → Exec (Unit {0})
  move_token_to_flows token flow_ids = for_each flow_ids (move_token_to_flow token)

  unfoldable pub advance_token : Token → BpmnFlowElement → Exec (Unit {0})
  advance_token token element = do
    complete_token token
    move_token_to_flows token (outgoing_flows element)

  unfoldable pub advance_token_flows : Token → Exec (Unit {0})
  advance_token_flows token = do
    element ← get_element definition token.element_id
    move_token_to_flows token (outgoing_flows element)
