-- ===== src/Gateways/Parallel.antt =====
-- nexus-workflow-core/src/gateways/ParallelGateway.ts
pub mod Join
use nexus_workflow.Common.{
  String, Bool, ◌&&◌, List, [], ◌∷◌, map, length, leb, all, includes, set_add, to_set,
}
use nexus_workflow.Model.Types.{ParallelGatewayJoinState}
use nexus_workflow.Model.Elements.{SequenceFlow}
use nexus_workflow.Model.Errors.{Outcome, ok, threw, parallel_without_flows}

unfoldable pub evaluate_parallel_split : String → List SequenceFlow → Outcome (List String)
evaluate_parallel_split gateway_id [] = threw (parallel_without_flows gateway_id)
evaluate_parallel_split gateway_id (flow ∷ flows) = ok (map (λ f. f.id) (flow ∷ flows))

pub record ParallelJoinResult : Type 0 where
  pub fires : Bool
  pub updated_state : ParallelGatewayJoinState

unfoldable pub evaluate_parallel_join :
    String → String → ParallelGatewayJoinState → ParallelJoinResult
evaluate_parallel_join gateway_id arriving_flow_id current_state =
    let arrived = set_add (to_set current_state.arrived_from_flows) arriving_flow_id in
    let expected = to_set current_state.expected_flows in
    record {
      fires =
          all (includes arrived) current_state.expected_flows
          && leb (length expected) (length arrived);
      updated_state = record current_state { arrived_from_flows = arrived };
    }
