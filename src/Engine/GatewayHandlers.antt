-- ===== src/Engine/GatewayHandlers.antt =====
-- The gateway handlers of engine/ExecutionEngine.ts.
use nexus_workflow.Common.{
  String, Bool, Option, none, some, List, [], ◌∷◌, map, ltb, length, if◌then◌else◌, or_else,
}
use nexus_workflow.Model.Types.{
  Variables, to_boolean, Token, ParallelGatewayJoinState, InclusiveGatewayJoinState,
  GatewayJoinState, parallel, inclusive,
}
use nexus_workflow.Model.Elements.{
  SequenceFlow, BpmnElement, GatewayType, Gateway, ProcessDefinition, element_id, element_type,
}
use nexus_workflow.Model.Events.{token_moved, event_based_gateway_activated}
use nexus_workflow.Model.Errors.{
  Outcome, gateway_without_incoming, inclusive_join_without_split, join_state_mismatch,
}
use nexus_workflow.Gateways.Exclusive.{evaluate_exclusive_split}
use nexus_workflow.Gateways.Inclusive.{
  InclusiveJoinResult, evaluate_inclusive_split, evaluate_inclusive_join,
}
use nexus_workflow.Gateways.Parallel.{
  ParallelJoinResult, evaluate_parallel_split, evaluate_parallel_join,
}
use nexus_workflow.Gateways.EventBased.{validate_event_based_gateway}
use nexus_workflow.Engine.Monad.{Exec, pure, throw, lift, gets, collect, map_outcome, ◌>>=◌, ◌>>◌}
use nexus_workflow.Engine.Context.{
  new_id, emit, update_token, create_token, enqueue_pending, require_instance, get_join_state,
  save_join_state, delete_join_state,
}
use nexus_workflow.Engine.Scopes.{resolve_scope}
use nexus_workflow.Engine.Definition.{
  get_element, get_outgoing_flows, get_incoming_flows, find_inclusive_join_incoming,
}
use nexus_workflow.Engine.Moves.{skip, complete_token, move_token_to_flow, move_token_to_flows}

-- `evaluateExpression` with the scope and the evaluator given.
unfoldable pub condition_evaluator : Variables → Exec (String → Outcome Bool)
condition_evaluator scope =
    gets (λ ctx expression. map_outcome to_boolean (ctx.options.evaluate expression scope))

module _ (definition : ProcessDefinition) where
  unfoldable pub handle_exclusive_gateway : Token → BpmnElement → Gateway → Exec (Unit {0})
  handle_exclusive_gateway token base g = do
    scope ← resolve_scope token.scope_id
    evaluate ← condition_evaluator scope
    selected ← lift (
        evaluate_exclusive_split base.id (get_outgoing_flows definition base.id) g.default_flow
          evaluate)
    complete_token token
    move_token_to_flow definition token selected

  -- The flow through which the token came, or the first of several incoming ones.
  unfoldable pub arriving_flow : String → Token → List SequenceFlow → Exec String
  arriving_flow gateway_id token [] = throw (gateway_without_incoming gateway_id)
  arriving_flow gateway_id token (first ∷ rest) = pure (or_else token.arrived_via_flow_id first.id)

  -- The join state that is there, or a new one.
  unfoldable pub parallel_join_state :
      String → List SequenceFlow → Option GatewayJoinState → Exec ParallelGatewayJoinState
  parallel_join_state gateway_id incoming (some (parallel js)) = pure js
  parallel_join_state gateway_id incoming (some (inclusive js)) =
      throw (join_state_mismatch gateway_id)
  parallel_join_state gateway_id incoming none = do
    i ← require_instance
    activation_id ← new_id
    pure (record {
      gateway_id = gateway_id;
      instance_id = i.id;
      activation_id = activation_id;
      arrived_from_flows = [];
      expected_flows = map (λ f. f.id) incoming;
    })

  unfoldable pub join_parallel : Token → BpmnElement → Exec (Unit {0})
  join_parallel token base = do
    arriving_flow_id ← arriving_flow base.id token (get_incoming_flows definition base.id)
    existing ← get_join_state base.id
    current ← parallel_join_state base.id (get_incoming_flows definition base.id) existing
    let result : ParallelJoinResult = evaluate_parallel_join base.id arriving_flow_id current
    complete_token token
    if result.fires
        then (do
          delete_join_state base.id
          move_token_to_flows definition token
              (map (λ f. f.id) (get_outgoing_flows definition base.id)))
        else save_join_state (parallel result.updated_state)

  unfoldable pub split_parallel : Token → BpmnElement → Exec (Unit {0})
  split_parallel token base = do
    selected ← lift (evaluate_parallel_split base.id (get_outgoing_flows definition base.id))
    complete_token token
    move_token_to_flows definition token selected

  unfoldable pub handle_parallel_gateway : Token → BpmnElement → Exec (Unit {0})
  handle_parallel_gateway token base =
      if ltb 1 (length (get_incoming_flows definition base.id))
      then join_parallel token base
      else split_parallel token base

  unfoldable pub inclusive_join_state :
      String → Option GatewayJoinState → Exec InclusiveGatewayJoinState
  inclusive_join_state gateway_id (some (inclusive js)) = pure js
  inclusive_join_state gateway_id (some (parallel js)) = throw (join_state_mismatch gateway_id)
  inclusive_join_state gateway_id none = throw (inclusive_join_without_split gateway_id)

  unfoldable pub join_inclusive : Token → BpmnElement → Exec (Unit {0})
  join_inclusive token base = do
    arriving_flow_id ← arriving_flow base.id token (get_incoming_flows definition base.id)
    existing ← get_join_state base.id
    current ← inclusive_join_state base.id existing
    let result : InclusiveJoinResult = evaluate_inclusive_join base.id arriving_flow_id current
    complete_token token
    if result.fires
        then (do
          delete_join_state base.id
          move_token_to_flows definition token
              (map (λ f. f.id) (get_outgoing_flows definition base.id)))
        else save_join_state (inclusive result.updated_state)

  -- The join state that a split records: the join gateway and the flows that will arrive there.
  unfoldable pub record_inclusive_join : Option (String × List String) → Exec (Unit {0})
  record_inclusive_join none = skip
  record_inclusive_join (some (join_gateway_id, incoming_flows)) = do
    i ← require_instance
    activation_id ← new_id
    save_join_state (
        inclusive (record {
          gateway_id = join_gateway_id;
          instance_id = i.id;
          activation_id = activation_id;
          activated_incoming_flows = incoming_flows;
          arrived_from_flows = [];
        }))

  unfoldable pub split_inclusive : Token → BpmnElement → Gateway → Exec (Unit {0})
  split_inclusive token base g = do
    scope ← resolve_scope token.scope_id
    evaluate ← condition_evaluator scope
    activated ← lift (
        evaluate_inclusive_split base.id (get_outgoing_flows definition base.id) g.default_flow
          evaluate)
    record_inclusive_join (find_inclusive_join_incoming definition activated)
    complete_token token
    move_token_to_flows definition token activated

  unfoldable pub handle_inclusive_gateway : Token → BpmnElement → Gateway → Exec (Unit {0})
  handle_inclusive_gateway token base g =
      if ltb 1 (length (get_incoming_flows definition base.id))
      then join_inclusive token base
      else split_inclusive token base g

  -- The body of the loop of `handleEventBasedGateway`: the id of the branch's element.
  unfoldable pub spawn_branch : Token → SequenceFlow → Exec (List String)
  spawn_branch token flow = do
    target ← get_element definition flow.target_ref
    base ←
        create_token token.instance_id (element_id target) (element_type target) token.scope_id
          (some flow.id)
    let child = record base { parent_token_id = some token.id }
    update_token child
    emit (
        token_moved token.instance_id child.id token.element_id (element_id target)
          (element_type target))
    enqueue_pending child
    pure (element_id target ∷ [])

  unfoldable pub handle_event_based_gateway : Token → BpmnElement → Gateway → Exec (Unit {0})
  handle_event_based_gateway token base g = do
    lift (validate_event_based_gateway base g definition)
    complete_token token
    branches ← collect (get_outgoing_flows definition base.id) (spawn_branch token)
    emit (event_based_gateway_activated token.instance_id token.id base.id branches)

  unfoldable pub handle_gateway : GatewayType → Token → BpmnElement → Gateway → Exec (Unit {0})
  handle_gateway GatewayType.exclusive token base g = handle_exclusive_gateway token base g
  handle_gateway GatewayType.parallel token base g = handle_parallel_gateway token base
  handle_gateway GatewayType.inclusive token base g = handle_inclusive_gateway token base g
  handle_gateway GatewayType.event_based token base g = handle_event_based_gateway token base g
