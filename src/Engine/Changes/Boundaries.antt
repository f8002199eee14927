-- ===== src/Engine/Changes/Boundaries.antt =====
-- The functions of Engine.Boundaries are steps.
use nexus_workflow.Common.{String, Bool}
use nexus_workflow.Model.Types.{Token}
use nexus_workflow.Model.Elements.{
  ProcessDefinition, EventDefinition, EventDefinitionType, timer, BoundaryEvent,
}
use nexus_workflow.Engine.Definition.{Boundary}
use nexus_workflow.Engine.Boundaries.{
  catch_event, handle_intermediate_catch_event, boundary_wait, handle_boundary_event_wait,
  spawn_boundary_token, spawn_boundary_tokens, cancel_where, cancel_boundary_tokens_for,
  cancel_host_task_and_boundaries, cancel_ebg_siblings,
}
use nexus_workflow.Engine.Changes.{Steps}
use nexus_workflow.Engine.Changes.Moves.{move_rules}

catch_event-Steps :
    (type : EventDefinitionType) (d : EventDefinition) (t : Token) → Steps (catch_event type d t)
unfolding catch_event
catch_event-Steps timer d t = search move_rules
catch_event-Steps _ d t = search move_rules

pub handle_intermediate_catch_event-Steps :
    (t : Token) (d : EventDefinition) → Steps (handle_intermediate_catch_event t d)
handle_intermediate_catch_event-Steps t d =
    unfold handle_intermediate_catch_event in catch_event-Steps d.type d t

boundary_wait-Steps :
    (type : EventDefinitionType) (e : BoundaryEvent) (t : Token) → Steps (boundary_wait type e t)
unfolding boundary_wait
boundary_wait-Steps timer e t = search move_rules
boundary_wait-Steps _ e t = search move_rules

pub handle_boundary_event_wait-Steps :
    (t : Token) (e : BoundaryEvent) → Steps (handle_boundary_event_wait t e)
handle_boundary_event_wait-Steps t e =
    unfold handle_boundary_event_wait in boundary_wait-Steps e.event_definition.type e t

module _ (definition : ProcessDefinition) (host : Token) where
  spawn_boundary_token-Steps : (b : Boundary) → Steps (spawn_boundary_token definition host b)
  unfolding spawn_boundary_token
  spawn_boundary_token-Steps b = search move_rules depth 16

  pub spawn_boundary_tokens-Steps : (id : String) → Steps (spawn_boundary_tokens definition host id)
  unfolding spawn_boundary_tokens
  spawn_boundary_tokens-Steps id = search (move_rules, spawn_boundary_token-Steps)

pub cancel_where-Steps : (chosen : Token → Bool) → Steps (cancel_where chosen)
unfolding cancel_where
cancel_where-Steps chosen = search move_rules depth 16

pub cancel_boundary_tokens_for-Steps : (id : String) → Steps (cancel_boundary_tokens_for id)
unfolding cancel_boundary_tokens_for
cancel_boundary_tokens_for-Steps id = search cancel_where-Steps

pub cancel_host_task_and_boundaries-Steps :
    (id firing : String) → Steps (cancel_host_task_and_boundaries id firing)
unfolding cancel_host_task_and_boundaries
cancel_host_task_and_boundaries-Steps id firing = search cancel_where-Steps

pub cancel_ebg_siblings-Steps : (t : Token) → Steps (cancel_ebg_siblings t)
unfolding cancel_ebg_siblings
cancel_ebg_siblings-Steps t = search (move_rules, cancel_where-Steps)

pub ruleset boundary_rules = (
  move_rules, handle_intermediate_catch_event-Steps, handle_boundary_event_wait-Steps,
  spawn_boundary_tokens-Steps, cancel_where-Steps, cancel_boundary_tokens_for-Steps,
  cancel_host_task_and_boundaries-Steps, cancel_ebg_siblings-Steps,
)
