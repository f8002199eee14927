-- ===== src/Gateways/Parallel/Join.antt =====
-- When a join of ParallelGateway.ts fires, over any sequence of arriving tokens.
use nexus_workflow.Common.{
  String, ◌||◌, List, [], ◌∷◌, ◌≡◌, refl, ap, ◌∙◌, arith, ◌==◌, all, includes, set_add, to_set,
  includes-set_add,
}
use nexus_workflow.Common.Sets.{
  Distinct-set_from, length-subset, all-set_from, includes-to_set, all-congr,
}
use nexus_workflow.Model.Types.{ParallelGatewayJoinState}
use nexus_workflow.Gateways.Parallel.{evaluate_parallel_join}

-- The join state after the tokens of a list of flows have arrived, the first of the list first.
abbrev pub arrive : String → List String → ParallelGatewayJoinState → ParallelGatewayJoinState
arrive gateway_id [] js = js
arrive gateway_id (flow_id ∷ flow_ids) js =
    arrive gateway_id flow_ids (evaluate_parallel_join gateway_id flow_id js).updated_state

module _ (gateway_id : String) where
  includes-join :
      (flow_id : String) (js : ParallelGatewayJoinState) (y : String)
      → includes (evaluate_parallel_join gateway_id flow_id js).updated_state.arrived_from_flows y
        ≡ (includes js.arrived_from_flows y || flow_id == y)
  unfolding evaluate_parallel_join
  includes-join flow_id js y =
      includes-set_add (to_set js.arrived_from_flows) flow_id y
      ∙ ap (λ b. b || flow_id == y) (includes-to_set js.arrived_from_flows y)

  includes-arrive :
      (flow_ids : List String) (js : ParallelGatewayJoinState) (y : String)
      → includes (arrive gateway_id flow_ids js).arrived_from_flows y
        ≡ (includes js.arrived_from_flows y || includes flow_ids y)
  includes-arrive [] js y = ground arith
  includes-arrive (flow_id ∷ flow_ids) js y = ground (
    arith,
    includes-join flow_id js y,
    includes-arrive flow_ids (evaluate_parallel_join gateway_id flow_id js).updated_state y,
  )

  expected_flows-arrive :
      (flow_ids : List String) (js : ParallelGatewayJoinState)
      → (arrive gateway_id flow_ids js).expected_flows ≡ js.expected_flows
  unfolding evaluate_parallel_join
  expected_flows-arrive [] js = refl
  expected_flows-arrive (flow_id ∷ flow_ids) js =
      expected_flows-arrive flow_ids (evaluate_parallel_join gateway_id flow_id js).updated_state

  -- The test of the sizes never decides: it holds when every expected flow has arrived.
  fires-eq-all :
      (flow_id : String) (js : ParallelGatewayJoinState)
      → (evaluate_parallel_join gateway_id flow_id js).fires
        ≡ all
            (includes
              (evaluate_parallel_join gateway_id flow_id js).updated_state.arrived_from_flows)
            js.expected_flows
  unfolding evaluate_parallel_join
  fires-eq-all flow_id js =
      let arrived = set_add (to_set js.arrived_from_flows) flow_id in
      ground (
        arith,
        all-set_from (includes arrived) [] js.expected_flows,
        length-subset (to_set js.expected_flows) arrived
            (Distinct-set_from [] js.expected_flows tt),
      )

  -- When tokens have arrived through the flows of a list, in any order and as often as may be, the
  -- parallel join fires at one more token exactly when every expected flow is in the list, is the flow
  -- of that token, or had arrived before.
  pub parallel_join-fires :
      (flow_ids : List String) (last : String) (js : ParallelGatewayJoinState)
      → (evaluate_parallel_join gateway_id last (arrive gateway_id flow_ids js)).fires
        ≡ all
            (λ y. includes js.arrived_from_flows y || includes (last ∷ flow_ids) y)
            js.expected_flows
  parallel_join-fires flow_ids last js =
      fires-eq-all last (arrive gateway_id flow_ids js)
      ∙ ap
          (all (
            includes
              (evaluate_parallel_join gateway_id last
                (arrive gateway_id flow_ids js)).updated_state.arrived_from_flows))
          (expected_flows-arrive flow_ids js)
      ∙ all-congr _ _ js.expected_flows (λ y. ground (
        arith,
        includes-join last (arrive gateway_id flow_ids js) y,
        includes-arrive flow_ids js y,
      ))
