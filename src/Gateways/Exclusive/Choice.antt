-- ===== src/Gateways/Exclusive/Choice.antt =====
-- The flow that ExclusiveGateway.ts selects, by a description that has no loop.
use nexus_workflow.Common.{
  String, Bool, true, not, ◌&&◌, Option, none, some, List, [], ◌∷◌, ◌≡◌, refl, arith, if◌then◌else◌,
  case_option, find,
}
use nexus_workflow.Model.Elements.{SequenceFlow}
use nexus_workflow.Model.Errors.{Outcome, ok, threw, exclusive_without_match}
use nexus_workflow.Gateways.Exclusive.{is_default_flow, select_flow, evaluate_exclusive_split}

-- A flow without a condition always holds.
abbrev pub holds : (String → Bool) → SequenceFlow → Bool
holds ev flow = case_option flow.condition_expression true ev

-- The flows among which the gateway chooses first.
abbrev pub is_candidate : Option String → (String → Bool) → SequenceFlow → Bool
is_candidate default_flow_id ev flow = not (is_default_flow default_flow_id flow) && holds ev flow

-- The last default flow, or else the given one.
abbrev pub last_default :
    Option String → Option SequenceFlow → List SequenceFlow → Option SequenceFlow
last_default default_flow_id found [] = found
last_default default_flow_id found (flow ∷ flows) =
    last_default default_flow_id (if is_default_flow default_flow_id flow then some flow else found)
      flows

-- The first candidate, or else the last default flow, or else the error.
abbrev pub choice : String → Option String → (String → Bool) → List SequenceFlow → Outcome String
choice gateway_id default_flow_id ev flows =
    case_option (find (is_candidate default_flow_id ev) flows)
      (case_option (last_default default_flow_id none flows)
        (threw (exclusive_without_match gateway_id)) (λ flow. ok flow.id))
      (λ flow. ok flow.id)

module _ (gateway_id : String) (default_flow_id : Option String) (ev : String → Bool) where
  select_flow-eq :
      (found : Option SequenceFlow) (flows : List SequenceFlow)
      → select_flow gateway_id default_flow_id (λ e. ok (ev e)) found flows
        ≡ case_option
            (find (is_candidate default_flow_id ev) flows)
            (case_option
              (last_default default_flow_id found flows)
              (threw (exclusive_without_match gateway_id))
              (λ flow. ok flow.id))
            (λ flow. ok flow.id)
  unfolding select_flow
  select_flow-eq found [] = refl
  select_flow-eq found (flow ∷ flows) =
      ground (arith, select_flow-eq (some flow) flows, select_flow-eq found flows)

  pub exclusive_split-choice :
      (flow : SequenceFlow) (flows : List SequenceFlow)
      → evaluate_exclusive_split gateway_id (flow ∷ flows) default_flow_id (λ e. ok (ev e))
        ≡ choice gateway_id default_flow_id ev (flow ∷ flows)
  unfolding evaluate_exclusive_split
  exclusive_split-choice flow flows = select_flow-eq none (flow ∷ flows)
