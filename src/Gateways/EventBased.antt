-- ===== src/Gateways/EventBased.antt =====
-- nexus-workflow-core/src/gateways/EventBasedGateway.ts
pub mod Validity
use nexus_workflow.Common.{
  String, Bool, true, false, Option, none, some, List, [], ◌∷◌, ◌==◌, if◌then◌else◌, case_option,
  find,
}
use nexus_workflow.Model.Elements.{
  EventDefinitionType, BpmnElement, BpmnFlowElement, Elements, Gateway, ProcessDefinition,
  intermediate_catch_event, element_id,
}
use nexus_workflow.Model.Errors.{
  Outcome, ok, threw, ◌>>=◌, event_based_instantiates, event_based_without_flows,
  event_based_unknown_flow, event_based_wrong_target, event_based_unsupported_event,
}

-- Membership in `SUPPORTED_EVENT_TYPES`.
abbrev pub is_supported : EventDefinitionType → Bool
is_supported EventDefinitionType.message = true
is_supported EventDefinitionType.signal = true
is_supported EventDefinitionType.timer = true
is_supported _ = false

-- `definition.elements.find(e => e.id === id)`: the top level only.
unfoldable pub find_top_level : Elements → String → Option BpmnFlowElement
find_top_level Elements.nil id = none
find_top_level (Elements.cons e es) id =
    let rest = find_top_level es id in if element_id e == id then some e else rest

module _ (gateway_id : String) (definition : ProcessDefinition) where
  unfoldable pub validate_target : String → BpmnFlowElement → Outcome (Unit {0})
  validate_target flow_id (intermediate_catch_event b d) =
      if is_supported d.type
      then ok tt
      else threw (event_based_unsupported_event gateway_id flow_id b.id d.type)
  validate_target flow_id _ = threw (event_based_wrong_target gateway_id flow_id)

  -- The body of the loop over `gateway.outgoingFlows`.
  unfoldable pub validate_flow : String → Outcome (Unit {0})
  unfolding validate_target find_top_level
  validate_flow flow_id =
      case_option (find (λ f. f.id == flow_id) definition.sequence_flows)
        (threw (event_based_unknown_flow gateway_id flow_id))
        λ flow.
          case_option (find_top_level definition.elements flow.target_ref)
            (threw (event_based_wrong_target gateway_id flow_id)) (validate_target flow_id)

  unfoldable pub validate_flows : List String → Outcome (Unit {0})
  unfolding validate_flow
  validate_flows [] = ok tt
  validate_flows (flow_id ∷ flow_ids) = validate_flow flow_id >>= λ _. validate_flows flow_ids

  -- The test for an empty list, and the loop.
  unfoldable pub validate_outgoing : List String → Outcome (Unit {0})
  unfolding validate_flows
  validate_outgoing [] = threw (event_based_without_flows gateway_id)
  validate_outgoing (flow_id ∷ flow_ids) = validate_flows (flow_id ∷ flow_ids)

-- The element is its `BpmnElement` part and its `Gateway` part.
unfoldable pub validate_event_based_gateway :
    BpmnElement → Gateway → ProcessDefinition → Outcome (Unit {0})
unfolding validate_outgoing
validate_event_based_gateway base gateway definition =
    if gateway.instantiate
    then threw (event_based_instantiates base.id)
    else validate_outgoing base.id definition base.outgoing_flows
