-- ===== src/Gateways/Inclusive.antt =====
-- nexus-workflow-core/src/gateways/InclusiveGateway.ts
pub mod Activation
pub mod Join
use nexus_workflow.Common.{
  String, Bool, true, Option, none, some, List, [], ◌∷◌, ◌++◌, if◌then◌else◌, case_option, all,
  includes, set_add, to_set,
}
use nexus_workflow.Model.Types.{InclusiveGatewayJoinState}
use nexus_workflow.Model.Elements.{SequenceFlow}
use nexus_workflow.Model.Errors.{
  Outcome, ok, threw, ◌>>=◌, inclusive_without_flows, inclusive_without_match,
}
use nexus_workflow.Gateways.Exclusive.{is_default_flow}

module _ (gateway_id : String) (default_flow_id : Option String)
    (evaluate : String → Outcome Bool) where
  -- What follows the loop: `activated`, or the default flow when nothing matched.
  unfoldable pub activated_or_default : List String → Option SequenceFlow → Outcome (List String)
  activated_or_default [] default_flow =
      case_option default_flow (threw (inclusive_without_match gateway_id))
        (λ flow. ok (flow.id ∷ []))
  activated_or_default (flow_id ∷ rest) default_flow = ok (flow_id ∷ rest)

  -- The loop over the flows, with `activated` and `defaultFlow` as it goes.
  unfoldable pub activate_flows :
      List String → Option SequenceFlow → List SequenceFlow → Outcome (List String)
  unfolding activated_or_default
  activate_flows activated default_flow [] = activated_or_default activated default_flow
  activate_flows activated default_flow (flow ∷ flows) =
      let skipped = activate_flows activated (some flow) flows in
      let pushed = activate_flows (activated ++ flow.id ∷ []) default_flow flows in
      let next = activate_flows activated default_flow flows in
      if is_default_flow default_flow_id flow then skipped else (do
        matches ← case_option flow.condition_expression (ok true) evaluate
        if matches then pushed else next)

-- The result is `activatedFlowIds`.
unfoldable pub evaluate_inclusive_split :
    String → List SequenceFlow → Option String → (String → Outcome Bool) → Outcome (List String)
unfolding activate_flows
evaluate_inclusive_split gateway_id [] default_flow_id evaluate =
    threw (inclusive_without_flows gateway_id)
evaluate_inclusive_split gateway_id (flow ∷ flows) default_flow_id evaluate =
    activate_flows gateway_id default_flow_id evaluate [] none (flow ∷ flows)

pub record InclusiveJoinResult : Type 0 where
  pub fires : Bool
  pub updated_state : InclusiveGatewayJoinState

unfoldable pub evaluate_inclusive_join :
    String → String → InclusiveGatewayJoinState → InclusiveJoinResult
evaluate_inclusive_join gateway_id arriving_flow_id current_state =
    let arrived = set_add (to_set current_state.arrived_from_flows) arriving_flow_id in
    record {
      fires = all (includes arrived) current_state.activated_incoming_flows;
      updated_state = record current_state { arrived_from_flows = arrived };
    }
