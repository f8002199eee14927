-- ===== src/Gateways/Inclusive/Join.antt =====
-- When a join of InclusiveGateway.ts fires, over any sequence of arriving tokens.
use nexus_workflow.Common.{
  String, ◌||◌, List, [], ◌∷◌, ◌≡◌, refl, ap, ◌∙◌, arith, ◌==◌, all, includes, to_set,
  includes-set_add,
}
use nexus_workflow.Common.Sets.{includes-to_set, all-congr}
use nexus_workflow.Model.Types.{InclusiveGatewayJoinState}
use nexus_workflow.Gateways.Inclusive.{evaluate_inclusive_join}

-- The join state after the tokens of a list of flows have arrived, the first of the list first.
abbrev pub arrive : String → List String → InclusiveGatewayJoinState → InclusiveGatewayJoinState
arrive gateway_id [] js = js
arrive gateway_id (flow_id ∷ flow_ids) js =
    arrive gateway_id flow_ids (evaluate_inclusive_join gateway_id flow_id js).updated_state

module _ (gateway_id : String) where
  includes-join :
      (flow_id : String) (js : InclusiveGatewayJoinState) (y : String)
      → includes (evaluate_inclusive_join gateway_id flow_id js).updated_state.arrived_from_flows y
        ≡ (includes js.arrived_from_flows y || flow_id == y)
  unfolding evaluate_inclusive_join
  includes-join flow_id js y =
      includes-set_add (to_set js.arrived_from_flows) flow_id y
      ∙ ap (λ b. b || flow_id == y) (includes-to_set js.arrived_from_flows y)

  includes-arrive :
      (flow_ids : List String) (js : InclusiveGatewayJoinState) (y : String)
      → includes (arrive gateway_id flow_ids js).arrived_from_flows y
        ≡ (includes js.arrived_from_flows y || includes flow_ids y)
  includes-arrive [] js y = ground arith
  includes-arrive (flow_id ∷ flow_ids) js y = ground (
    arith,
    includes-join flow_id js y,
    includes-arrive flow_ids (evaluate_inclusive_join gateway_id flow_id js).updated_state y,
  )

  activated_incoming_flows-arrive :
      (flow_ids : List String) (js : InclusiveGatewayJoinState)
      → (arrive gateway_id flow_ids js).activated_incoming_flows ≡ js.activated_incoming_flows
  unfolding evaluate_inclusive_join
  activated_incoming_flows-arrive [] js = refl
  activated_incoming_flows-arrive (flow_id ∷ flow_ids) js =
      activated_incoming_flows-arrive flow_ids
        (evaluate_inclusive_join gateway_id flow_id js).updated_state

  fires-eq-all :
      (flow_id : String) (js : InclusiveGatewayJoinState)
      → (evaluate_inclusive_join gateway_id flow_id js).fires
        ≡ all
            (includes
              (evaluate_inclusive_join gateway_id flow_id js).updated_state.arrived_from_flows)
            js.activated_incoming_flows
  unfolding evaluate_inclusive_join
  fires-eq-all flow_id js = refl

  -- When tokens have arrived through the flows of a list, in any order and as often as may be, the
  -- inclusive join fires at one more token exactly when every flow that the split activated is in the
  -- list, is the flow of that token, or had arrived before; other flows neither help nor hinder.
  pub inclusive_join-fires :
      (flow_ids : List String) (last : String) (js : InclusiveGatewayJoinState)
      → (evaluate_inclusive_join gateway_id last (arrive gateway_id flow_ids js)).fires
        ≡ all
            (λ y. includes js.arrived_from_flows y || includes (last ∷ flow_ids) y)
            js.activated_incoming_flows
  inclusive_join-fires flow_ids last js =
      fires-eq-all last (arrive gateway_id flow_ids js)
      ∙ ap
          (all (
            includes
              (evaluate_inclusive_join gateway_id last
                (arrive gateway_id flow_ids js)).updated_state.arrived_from_flows))
          (activated_incoming_flows-arrive flow_ids js)
      ∙ all-congr _ _ js.activated_incoming_flows (λ y. ground (
        arith,
        includes-join last (arrive gateway_id flow_ids js) y,
        includes-arrive flow_ids js y,
      ))
