-- ===== src/Engine/Changes/Gateways.antt =====
-- The gateway handlers (Engine.GatewayHandlers) are steps.
use nexus_workflow.Common.{String, Option, none, some, List, [], ◌∷◌}
use nexus_workflow.Model.Types.{Variables, Token, GatewayJoinState, parallel, inclusive}
use nexus_workflow.Model.Elements.{
  ProcessDefinition, BpmnElement, SequenceFlow, Gateway, GatewayType,
}
use nexus_workflow.Engine.GatewayHandlers.{
  condition_evaluator, handle_exclusive_gateway, arriving_flow, parallel_join_state, join_parallel,
  split_parallel, handle_parallel_gateway, inclusive_join_state, join_inclusive,
  record_inclusive_join, split_inclusive, handle_inclusive_gateway, spawn_branch,
  handle_event_based_gateway, handle_gateway,
}
use nexus_workflow.Engine.Changes.{Steps}
use nexus_workflow.Engine.Changes.MultiInstance.{multi_instance_rules}

condition_evaluator-Steps : (scope : Variables) → Steps (condition_evaluator scope)
unfolding condition_evaluator
condition_evaluator-Steps scope = search multi_instance_rules

module _ (definition : ProcessDefinition) where
  handle_exclusive_gateway-Steps :
      (t : Token) (b : BpmnElement) (g : Gateway)
      → Steps (handle_exclusive_gateway definition t b g)
  unfolding handle_exclusive_gateway
  handle_exclusive_gateway-Steps t b g =
      search (multi_instance_rules, condition_evaluator-Steps) depth 16

  arriving_flow-Steps :
      (id : String) (t : Token) (fs : List SequenceFlow) → Steps (arriving_flow definition id t fs)
  unfolding arriving_flow
  arriving_flow-Steps id t [] = search multi_instance_rules
  arriving_flow-Steps id t (f ∷ fs) = search multi_instance_rules

  parallel_join_state-Steps :
      (id : String) (fs : List SequenceFlow) (o : Option GatewayJoinState)
      → Steps (parallel_join_state definition id fs o)
  unfolding parallel_join_state
  parallel_join_state-Steps id fs none = search multi_instance_rules depth 12
  parallel_join_state-Steps id fs (some (parallel js)) = search multi_instance_rules
  parallel_join_state-Steps id fs (some (inclusive js)) = search multi_instance_rules

  join_parallel-Steps : (t : Token) (b : BpmnElement) → Steps (join_parallel definition t b)
  unfolding join_parallel
  join_parallel-Steps t b =
      search (multi_instance_rules, arriving_flow-Steps, parallel_join_state-Steps) depth 20

  split_parallel-Steps : (t : Token) (b : BpmnElement) → Steps (split_parallel definition t b)
  unfolding split_parallel
  split_parallel-Steps t b = search multi_instance_rules depth 12

  handle_parallel_gateway-Steps :
      (t : Token) (b : BpmnElement) → Steps (handle_parallel_gateway definition t b)
  unfolding handle_parallel_gateway
  handle_parallel_gateway-Steps t b =
      search (multi_instance_rules, join_parallel-Steps, split_parallel-Steps)

  inclusive_join_state-Steps :
      (id : String) (o : Option GatewayJoinState) → Steps (inclusive_join_state definition id o)
  unfolding inclusive_join_state
  inclusive_join_state-Steps id none = search multi_instance_rules
  inclusive_join_state-Steps id (some (parallel js)) = search multi_instance_rules
  inclusive_join_state-Steps id (some (inclusive js)) = search multi_instance_rules

  join_inclusive-Steps : (t : Token) (b : BpmnElement) → Steps (join_inclusive definition t b)
  unfolding join_inclusive
  join_inclusive-Steps t b =
      search (multi_instance_rules, arriving_flow-Steps, inclusive_join_state-Steps) depth 20

  record_inclusive_join-Steps :
      (o : Option (String × List String)) → Steps (record_inclusive_join definition o)
  unfolding record_inclusive_join
  record_inclusive_join-Steps none = search multi_instance_rules
  record_inclusive_join-Steps (some (g, fs)) = search multi_instance_rules depth 12

  split_inclusive-Steps :
      (t : Token) (b : BpmnElement) (g : Gateway) → Steps (split_inclusive definition t b g)
  unfolding split_inclusive
  split_inclusive-Steps t b g =
      search (multi_instance_rules, condition_evaluator-Steps, record_inclusive_join-Steps) depth 20

  handle_inclusive_gateway-Steps :
      (t : Token) (b : BpmnElement) (g : Gateway)
      → Steps (handle_inclusive_gateway definition t b g)
  unfolding handle_inclusive_gateway
  handle_inclusive_gateway-Steps t b g =
      search (multi_instance_rules, join_inclusive-Steps, split_inclusive-Steps)

  spawn_branch-Steps : (t : Token) (f : SequenceFlow) → Steps (spawn_branch definition t f)
  unfolding spawn_branch
  spawn_branch-Steps t f = search multi_instance_rules depth 16

  handle_event_based_gateway-Steps :
      (t : Token) (b : BpmnElement) (g : Gateway)
      → Steps (handle_event_based_gateway definition t b g)
  unfolding handle_event_based_gateway
  handle_event_based_gateway-Steps t b g =
      search (multi_instance_rules, spawn_branch-Steps) depth 16

  pub handle_gateway-Steps :
      (type : GatewayType) (t : Token) (b : BpmnElement) (g : Gateway)
      → Steps (handle_gateway definition type t b g)
  unfolding handle_gateway
  handle_gateway-Steps GatewayType.exclusive t b g = handle_exclusive_gateway-Steps t b g
  handle_gateway-Steps GatewayType.parallel t b g = handle_parallel_gateway-Steps t b
  handle_gateway-Steps GatewayType.inclusive t b g = handle_inclusive_gateway-Steps t b g
  handle_gateway-Steps GatewayType.event_based t b g = handle_event_based_gateway-Steps t b g
