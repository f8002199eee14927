-- ===== src/Engine/Commands.antt =====
-- `StartProcess`, and `execute` of engine/ExecutionEngine.ts.
use nexus_workflow.Common.{ℕ, String, Option, none, [], or_else}
use nexus_workflow.Model.Types.{Variables, InstanceStatus}
use nexus_workflow.Model.Elements.{ProcessDefinition, element_id, element_type}
use nexus_workflow.Model.Events.{process_instance_started}
use nexus_workflow.Model.Errors.{Outcome}
use nexus_workflow.Engine.State.{EngineState, EngineResult, ExecuteOptions, new_context}
use nexus_workflow.Engine.Monad.{Exec, map_outcome, ◌>>=◌, ◌>>◌}
use nexus_workflow.Engine.Context.{
  now, new_id, emit, create_token, enqueue_pending, set_instance, to_result,
}
use nexus_workflow.Engine.Scopes.{save_scope}
use nexus_workflow.Engine.Definition.{get_element}
use nexus_workflow.Engine.Loop.{run_loop}
use nexus_workflow.Engine.InstanceCommands.{
  handle_suspend_instance, handle_resume_instance, handle_cancel_instance,
}
use nexus_workflow.Engine.TaskCommands.{handle_complete_task, handle_fail_service_task}
use nexus_workflow.Engine.EventCommands.{
  handle_fire_timer, handle_deliver_message, handle_broadcast_signal,
}

pub data EngineCommand : Type 0 where
  -- variables, correlationKey, businessKey
  start_process : Option Variables → Option String → Option String → EngineCommand
  -- tokenId, outputVariables
  complete_service_task : String → Option Variables → EngineCommand
  -- tokenId, error.code, error.message
  fail_service_task : String → String → String → EngineCommand
  -- tokenId, completedBy, outputVariables
  complete_user_task : String → String → Option Variables → EngineCommand
  fire_timer : String → EngineCommand
  -- messageName, variables
  deliver_message : String → Option Variables → EngineCommand
  -- signalName, variables
  broadcast_signal : String → Option Variables → EngineCommand
  suspend_instance resume_instance cancel_instance : EngineCommand

module _ (fuel : ℕ) (definition : ProcessDefinition) where
  -- The end of `handleStartProcess`, once the instance is set.
  unfoldable pub run_from_start : String → String → Exec (Unit {0})
  run_from_start instance_id scope_id = do
    emit (process_instance_started instance_id definition.id definition.version)
    start ← get_element definition definition.start_event_id
    token ← create_token instance_id (element_id start) (element_type start) scope_id none
    enqueue_pending token
    run_loop fuel definition

  unfoldable pub handle_start_process :
      Option Variables → Option String → Option String → Exec (Unit {0})
  handle_start_process variables correlation_key business_key = do
    time ← now
    instance_id ← new_id
    scope_id ← new_id
    save_scope (record { id = scope_id; parent_scope_id = none; variables = or_else variables [] })
    set_instance (record {
      id = instance_id;
      definition_id = definition.id;
      definition_version = definition.version;
      status = InstanceStatus.active;
      root_scope_id = scope_id;
      correlation_key = correlation_key;
      business_key = business_key;
      parent_instance_id = none;
      parent_token_id = none;
      started_at = time;
      completed_at = none;
      error_info = none;
      version = none;
    })
    run_from_start instance_id scope_id

  -- The `switch` of `execute`.
  unfoldable pub dispatch : EngineCommand → Exec (Unit {0})
  dispatch (start_process variables correlation_key business_key) =
      handle_start_process variables correlation_key business_key
  dispatch (complete_service_task token_id output_variables) =
      handle_complete_task fuel definition token_id output_variables
  dispatch (fail_service_task token_id code message) =
      handle_fail_service_task fuel definition token_id code message
  dispatch (complete_user_task token_id completed_by output_variables) =
      handle_complete_task fuel definition token_id output_variables
  dispatch (fire_timer token_id) = handle_fire_timer fuel definition token_id
  dispatch (deliver_message message_name variables) =
      handle_deliver_message fuel definition message_name variables
  dispatch (broadcast_signal signal_name variables) =
      handle_broadcast_signal fuel definition signal_name variables
  dispatch suspend_instance = handle_suspend_instance
  dispatch resume_instance = handle_resume_instance
  dispatch cancel_instance = handle_cancel_instance

  unfoldable pub execute :
      EngineCommand → Option EngineState → ExecuteOptions → Outcome EngineResult
  execute command state options =
      map_outcome (λ r. r.0) ((dispatch command >>= λ _. to_result) (new_context state options))
