-- ===== src/Gateways/EventBased/Validity.antt =====
-- The gateways that EventBasedGateway.ts accepts.
use nexus_workflow.Common.{
  String, Bool, true, false, not, ◌&&◌, Option, none, some, List, [], ◌∷◌, ◌≡◌, refl, ap, ◌∙◌,
  arith, ◌==◌, if◌then◌else◌, case_option, find, all,
}
use nexus_workflow.Model.Elements.{
  SequenceFlow, BpmnElement, BpmnFlowElement, Gateway, ProcessDefinition, intermediate_catch_event,
}
use nexus_workflow.Model.Errors.{
  Outcome, ok, threw, loops, ◌>>=◌, event_based_instantiates, event_based_unknown_flow,
  event_based_wrong_target,
}
use nexus_workflow.Gateways.EventBased.{
  is_supported, find_top_level, validate_target, validate_flow, validate_flows, validate_outgoing,
  validate_event_based_gateway,
}

abbrev pub is_ok {ℓ} : {A : Type ℓ} → Outcome A → Bool
is_ok (ok a) = true
is_ok _ = false

-- An intermediate catch event for a message, a signal or a timer.
abbrev pub is_event : BpmnFlowElement → Bool
is_event (intermediate_catch_event b d) = is_supported d.type
is_event _ = false

-- The flow of the top level that has the id leads to such an event of the top level.
abbrev pub leads_to_event : ProcessDefinition → String → Bool
leads_to_event definition flow_id =
    case_option (find (λ f. f.id == flow_id) definition.sequence_flows) false
      λ flow. case_option (find_top_level definition.elements flow.target_ref) false is_event

abbrev pub is_nonempty : List String → Bool
is_nonempty [] = false
is_nonempty (x ∷ xs) = true

module _ (gateway_id : String) (definition : ProcessDefinition) where
  is_ok-target :
      (flow_id : String) (e : BpmnFlowElement)
      → is_ok (validate_target gateway_id definition flow_id e) ≡ is_event e
  unfolding validate_target
  is_ok-target flow_id (intermediate_catch_event b d) = ground arith
  is_ok-target flow_id _ = refl

  is_ok-flow :
      (flow_id : String)
      → is_ok (validate_flow gateway_id definition flow_id) ≡ leads_to_event definition flow_id
  unfolding validate_flow
  is_ok-flow flow_id = by_flow (find (λ f. f.id == flow_id) definition.sequence_flows)
    where
      by_target :
          (o : Option BpmnFlowElement)
          → is_ok (
              case_option o
                (threw (event_based_wrong_target gateway_id flow_id))
                (validate_target gateway_id definition flow_id))
            ≡ case_option o false is_event
      by_target none = refl
      by_target (some e) = is_ok-target flow_id e

      by_flow :
          (o : Option SequenceFlow)
          → is_ok (
              case_option o (threw (event_based_unknown_flow gateway_id flow_id)) λ flow.
                case_option
                  (find_top_level definition.elements flow.target_ref)
                  (threw (event_based_wrong_target gateway_id flow_id))
                  (validate_target gateway_id definition flow_id))
            ≡ case_option o false (λ flow.
              case_option (find_top_level definition.elements flow.target_ref) false is_event)
      by_flow none = refl
      by_flow (some flow) = by_target (find_top_level definition.elements flow.target_ref)

  is_ok-bind :
      {A B : Type 0} (m : Outcome A) (f : Outcome B) → is_ok (m >>= λ _. f) ≡ (is_ok m && is_ok f)
  is_ok-bind (ok a) f = refl
  is_ok-bind (threw e) f = refl
  is_ok-bind loops f = refl

  is_ok-flows :
      (flow_ids : List String)
      → is_ok (validate_flows gateway_id definition flow_ids)
        ≡ all (leads_to_event definition) flow_ids
  unfolding validate_flows
  is_ok-flows [] = refl
  is_ok-flows (flow_id ∷ flow_ids) =
      is_ok-bind (validate_flow gateway_id definition flow_id)
        (validate_flows gateway_id definition flow_ids)
      ∙ rw (is_ok-flow flow_id, is_ok-flows flow_ids)

-- An event-based gateway is accepted exactly when it does not instantiate the process, has an outgoing
-- flow, and each of its outgoing flows is a flow of the top level that leads to a catch event of the top
-- level for a message, a signal or a timer. (So one inside a sub-process, whose flows are not of the top
-- level, is not.)
pub validate-eq-leads_to_events :
    (base : BpmnElement) (gateway : Gateway) (definition : ProcessDefinition)
    → is_ok (validate_event_based_gateway base gateway definition) ≡ (
        not gateway.instantiate
        && (is_nonempty base.outgoing_flows && all (leads_to_event definition) base.outgoing_flows))
unfolding validate_event_based_gateway
validate-eq-leads_to_events base gateway definition =
    by_instantiate gateway.instantiate
    ∙ ap (λ b. not gateway.instantiate && b) (by_flows base.outgoing_flows)
  where
    by_instantiate :
        (b : Bool)
        → is_ok (
            if b
            then threw (event_based_instantiates base.id)
            else validate_outgoing base.id definition base.outgoing_flows)
          ≡ (not b && is_ok (validate_outgoing base.id definition base.outgoing_flows))
    by_instantiate true = refl
    by_instantiate false = refl

    by_flows :
        (flow_ids : List String)
        → is_ok (validate_outgoing base.id definition flow_ids)
          ≡ (is_nonempty flow_ids && all (leads_to_event definition) flow_ids)
    by_flows [] = unfold validate_outgoing in refl
    by_flows (flow_id ∷ flow_ids) =
        unfold validate_outgoing in is_ok-flows base.id definition (flow_id ∷ flow_ids)
