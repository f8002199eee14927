-- ===== src/Gateways/Exclusive.antt =====
-- nexus-workflow-core/src/gateways/ExclusiveGateway.ts
pub mod Choice
use nexus_workflow.Common.{
  String, Bool, ◌||◌, Option, none, some, List, [], ◌∷◌, if◌then◌else◌, case_option, is_text,
}
use nexus_workflow.Model.Elements.{SequenceFlow}
use nexus_workflow.Model.Errors.{
  Outcome, ok, threw, ◌>>=◌, exclusive_without_flows, exclusive_without_match,
}

-- `flow.id === defaultFlowId || flow.isDefault`
abbrev pub is_default_flow : Option String → SequenceFlow → Bool
is_default_flow default_flow_id flow = is_text default_flow_id flow.id || flow.is_default

module _ (gateway_id : String) (default_flow_id : Option String)
    (evaluate : String → Outcome Bool) where
  -- The loop over the flows, with `defaultFlow` as it goes, and what follows the loop.
  unfoldable pub select_flow : Option SequenceFlow → List SequenceFlow → Outcome String
  select_flow default_flow [] =
      case_option default_flow (threw (exclusive_without_match gateway_id)) (λ flow. ok flow.id)
  select_flow default_flow (flow ∷ flows) =
      let skipped = select_flow (some flow) flows in
      let next = select_flow default_flow flows in
      if is_default_flow default_flow_id flow
      then skipped
      else case_option flow.condition_expression (ok flow.id)
          λ expression. do matches ← evaluate expression; if matches then ok flow.id else next

unfoldable pub evaluate_exclusive_split :
    String → List SequenceFlow → Option String → (String → Outcome Bool) → Outcome String
unfolding select_flow
evaluate_exclusive_split gateway_id [] default_flow_id evaluate =
    threw (exclusive_without_flows gateway_id)
evaluate_exclusive_split gateway_id (flow ∷ flows) default_flow_id evaluate =
    select_flow gateway_id default_flow_id evaluate none (flow ∷ flows)
