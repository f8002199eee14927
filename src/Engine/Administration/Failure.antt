-- ===== src/Engine/Administration/Failure.antt =====
-- `FailServiceTask` of engine/ExecutionEngine.ts when no boundary event catches the failure.
use nexus_workflow.Common.{ℕ, String, true, false, none, some, [], ◌∷◌, ◌≡◌, arith}
use nexus_workflow.Common.Dict.Rebuild.{values-index_by, lookup-index_by}
use nexus_workflow.Model.Types.{Token, is_waiting, InstanceStatus, join_gateway_id}
use nexus_workflow.Model.Elements.{ProcessDefinition}
use nexus_workflow.Model.Events.{process_instance_suspended, service_task_failed, error_thrown}
use nexus_workflow.Model.Errors.{ok}
use nexus_workflow.Engine.State.{EngineState, EngineResult, ExecuteOptions, new_context}
use nexus_workflow.Engine.Monad.{require, ◌>>=◌}
use nexus_workflow.Engine.Context.{require_token, require_instance, set_instance, emit, to_result}
use nexus_workflow.Engine.Definition.{find_matching_error_boundary}
use nexus_workflow.Engine.TaskCommands.{
  require_waiting, suspend_on_failure, handle_fail_service_task,
}
use nexus_workflow.Engine.Commands.{fail_service_task, dispatch, execute}
use nexus_workflow.Engine.Safety.Tokens.{IsWellFormed}
use nexus_workflow.Engine.Administration.Refusals.{token_of}

-- The result of a failure that nothing catches.
abbrev pub after_failure : Token → String → String → EngineState → EngineResult
after_failure t code message s = record {
  new_state = record s {
    process_instance = record s.process_instance {
      status = InstanceStatus.suspended;
      error_info = some (record {
        code = code;
        message = message;
        element_id = some t.element_id;
        token_id = some t.id;
      });
    };
  };
  events =
      service_task_failed s.process_instance.id t.id t.element_id message 1
      ∷ process_instance_suspended s.process_instance.id
      ∷ error_thrown s.process_instance.id t.id code false
      ∷ [];
}

pub execute-failure :
    (fuel : ℕ) (definition : ProcessDefinition) (options : ExecuteOptions) (s : EngineState)
    (id code message : String) (t : Token)
    → IsWellFormed s
    → token_of id s ≡ some t
    → is_waiting t.status ≡ true
    → find_matching_error_boundary definition t.element_id code ≡ none
    → execute fuel definition (fail_service_task id code message) (some s) options
      ≡ ok (after_failure t code message s)
unfolding execute dispatch new_context handle_fail_service_task suspend_on_failure require_waiting
    require_token require_instance require set_instance emit to_result ◌>>=◌
execute-failure fuel definition options s id code message t w h waits none_ = ground (
  arith,
  lookup-index_by (λ t. t.id) [] s.tokens id w.distinct_tokens,
  values-index_by (λ t. t.id) s.tokens w.distinct_tokens,
  values-index_by (λ x. x.id) s.scopes w.distinct_scopes,
  values-index_by join_gateway_id s.gateway_join_states w.distinct_joins,
)
