-- ===== src/Engine/Boundaries.antt =====
-- Boundary events and the siblings of an event-based gateway, in engine/ExecutionEngine.ts.
use nexus_workflow.Common.{
  String, Bool, true, false, not, ◌&&◌, ◌||◌, Option, none, some, [], ◌∷◌, ◌==◌, filter,
  if◌then◌else◌, case_option, truthy, same_text, or_else,
}
use nexus_workflow.Common.Dict.{Dict, lookup}
use nexus_workflow.Model.Types.{Value, str, Token, is_waiting, WaitConditionType, BpmnElementType}
use nexus_workflow.Model.Elements.{
  EventDefinition, EventDefinitionType, BoundaryEvent, ProcessDefinition,
}
use nexus_workflow.Model.Errors.{unsupported_catch_event, unsupported_boundary_event}
use nexus_workflow.Engine.Monad.{Exec, throw, for_each, ◌>>=◌, ◌>>◌}
use nexus_workflow.Engine.Context.{now, update_token, create_token, enqueue_pending, get_all_tokens}
use nexus_workflow.Engine.Definition.{Boundary, find_boundaries_for}
use nexus_workflow.Engine.Moves.{skip, cancel_token, tag_sub_process, suspend_token_with_condition}

-- `v === s` for a value that may be undefined.
abbrev pub is_str : Option Value → String → Bool
is_str (some (str t)) s = t == s
is_str _ s = false

-- `t.waitingFor?.correlationData?.[key] === s`
abbrev pub correlates : Token → String → String → Bool
correlates t key s =
    case_option t.waiting_for false
      λ c. case_option c.correlation_data false (λ data_. is_str (lookup key data_) s)

abbrev pub is_boundary_type : BpmnElementType → Bool
is_boundary_type BpmnElementType.boundary_event = true
is_boundary_type _ = false

abbrev pub is_compensation : EventDefinitionType → Bool
is_compensation EventDefinitionType.compensation = true
is_compensation _ = false

abbrev name_data : String → Option String → Dict Value
name_data key name = (key, str (or_else name "")) ∷ []

-- `handleIntermediateCatchEvent`, by the type of the event definition.
unfoldable pub catch_event : EventDefinitionType → EventDefinition → Token → Exec (Unit {0})
catch_event EventDefinitionType.timer d token =
    suspend_token_with_condition token
      (record { type = WaitConditionType.timer; correlation_data = none })
catch_event EventDefinitionType.message d token = suspend_token_with_condition token (record {
  type = WaitConditionType.message;
  correlation_data = some (name_data "messageName" d.message_name);
})
catch_event EventDefinitionType.signal d token = suspend_token_with_condition token (record {
  type = WaitConditionType.signal;
  correlation_data = some (name_data "signalName" d.signal_name);
})
catch_event type d token = throw (unsupported_catch_event type)

unfoldable pub handle_intermediate_catch_event : Token → EventDefinition → Exec (Unit {0})
unfolding catch_event
handle_intermediate_catch_event token d = catch_event d.type d token

-- `handleBoundaryEventWait`, by the type of the event definition.
unfoldable pub boundary_wait : EventDefinitionType → BoundaryEvent → Token → Exec (Unit {0})
boundary_wait EventDefinitionType.timer e token = suspend_token_with_condition token (record {
  type = WaitConditionType.timer;
  correlation_data = some (("hostTaskId", str e.attached_to_ref) ∷ []);
})
boundary_wait EventDefinitionType.message e token = suspend_token_with_condition token (record {
  type = WaitConditionType.message;
  correlation_data = some (
      ("hostTaskId", str e.attached_to_ref)
      ∷ name_data "messageName" e.event_definition.message_name);
})
boundary_wait EventDefinitionType.signal e token = suspend_token_with_condition token (record {
  type = WaitConditionType.signal;
  correlation_data = some (
      ("hostTaskId", str e.attached_to_ref)
      ∷ name_data "signalName" e.event_definition.signal_name);
})
boundary_wait EventDefinitionType.error e token = suspend_token_with_condition token (record {
  type = WaitConditionType.external;
  correlation_data = some (("hostTaskId", str e.attached_to_ref) ∷ []);
})
boundary_wait EventDefinitionType.cancel e token = suspend_token_with_condition token (record {
  type = WaitConditionType.external;
  correlation_data = some (("hostTaskId", str e.attached_to_ref) ∷ []);
})
boundary_wait type e token = throw (unsupported_boundary_event type)

unfoldable pub handle_boundary_event_wait : Token → BoundaryEvent → Exec (Unit {0})
unfolding boundary_wait
handle_boundary_event_wait token e = boundary_wait e.event_definition.type e token

module _ (definition : ProcessDefinition) (host : Token) where
  -- The body of the loop of `spawnBoundaryTokens`.
  unfoldable pub spawn_boundary_token : Boundary → Exec (Unit {0})
  spawn_boundary_token (base, e) = do
    token ← create_token host.instance_id base.id BpmnElementType.boundary_event host.scope_id none
    let tagged = tag_sub_process host.sub_process_instance_id token
    if truthy host.sub_process_instance_id then update_token tagged else skip
    enqueue_pending tagged

  unfoldable pub spawn_boundary_tokens : String → Exec (Unit {0})
  spawn_boundary_tokens task_element_id =
      for_each
        (filter (λ b. not (is_compensation b.1.event_definition.type))
          (find_boundaries_for definition task_element_id))
        spawn_boundary_token

-- The loops that cancel some of the tokens at one time: the tokens are those before the loop.
unfoldable pub cancel_where : (Token → Bool) → Exec (Unit {0})
cancel_where chosen = do
  time ← now
  tokens ← get_all_tokens
  for_each tokens (λ t. if chosen t then cancel_token time t else skip)

unfoldable pub cancel_boundary_tokens_for : String → Exec (Unit {0})
cancel_boundary_tokens_for task_element_id = cancel_where (λ t.
    is_waiting t.status
    && is_boundary_type t.element_type
    && correlates t "hostTaskId" task_element_id)

unfoldable pub cancel_host_task_and_boundaries : String → String → Exec (Unit {0})
cancel_host_task_and_boundaries attached_to_ref firing_boundary_token_id = cancel_where (λ t.
    not (t.id == firing_boundary_token_id)
    && is_waiting t.status
    && (t.element_id == attached_to_ref || correlates t "hostTaskId" attached_to_ref))

unfoldable pub cancel_ebg_siblings : Token → Exec (Unit {0})
cancel_ebg_siblings winner =
    if truthy winner.parent_token_id
    then cancel_where (λ t.
      not (t.id == winner.id)
      && same_text t.parent_token_id winner.parent_token_id
      && is_waiting t.status)
    else skip
