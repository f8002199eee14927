-- ===== src/Gateways/Inclusive/Activation.antt =====
-- The flows that InclusiveGateway.ts activates, and the choice of the exclusive gateway.
use nexus_workflow.Common.{
  String, Bool, Option, none, some, List, [], ◌∷◌, ◌++◌, ◌≡◌, refl, arith, ◌∙◌, filter, map,
}
use mathlib.Core.List.{append_assoc, append-nil}
use nexus_workflow.Model.Elements.{SequenceFlow}
use nexus_workflow.Model.Errors.{Outcome, ok, threw, inclusive_without_match}
use nexus_workflow.Gateways.Exclusive.{select_flow, evaluate_exclusive_split}
use nexus_workflow.Gateways.Exclusive.Choice.{is_candidate, last_default}
use nexus_workflow.Gateways.Inclusive.{
  activated_or_default, activate_flows, evaluate_inclusive_split,
}

-- The ids of the flows whose condition holds, the default flows aside.
abbrev pub candidate_ids : Option String → (String → Bool) → List SequenceFlow → List String
candidate_ids default_flow_id ev flows =
    map (λ f. f.id) (filter (is_candidate default_flow_id ev) flows)

abbrev pub or_default : String → List String → Option SequenceFlow → Outcome (List String)
or_default gateway_id (x ∷ xs) found = ok (x ∷ xs)
or_default gateway_id [] none = threw (inclusive_without_match gateway_id)
or_default gateway_id [] (some flow) = ok (flow.id ∷ [])

abbrev pub activation :
    String → Option String → (String → Bool) → List SequenceFlow → Outcome (List String)
activation gateway_id default_flow_id ev flows =
    or_default gateway_id (candidate_ids default_flow_id ev flows)
      (last_default default_flow_id none flows)

module _ (gateway_id : String) (default_flow_id : Option String) (ev : String → Bool) where
  activate_flows-eq :
      (activated : List String) (found : Option SequenceFlow) (flows : List SequenceFlow)
      → activate_flows gateway_id default_flow_id (λ e. ok (ev e)) activated found flows
        ≡ activated_or_default gateway_id default_flow_id
            (λ e. ok (ev e))
            (activated ++ candidate_ids default_flow_id ev flows)
            (last_default default_flow_id found flows)
  unfolding activate_flows
  activate_flows-eq activated found [] = rw append-nil
  activate_flows-eq activated found (flow ∷ flows) = ground (
    arith,
    activate_flows-eq activated (some flow) flows,
    activate_flows-eq activated found flows,
    activate_flows-eq (activated ++ flow.id ∷ []) found flows,
    append_assoc activated (flow.id ∷ []) (candidate_ids default_flow_id ev flows),
  )

  pub inclusive_split-activation :
      (flow : SequenceFlow) (flows : List SequenceFlow)
      → evaluate_inclusive_split gateway_id (flow ∷ flows) default_flow_id (λ e. ok (ev e))
        ≡ activation gateway_id default_flow_id ev (flow ∷ flows)
  unfolding evaluate_inclusive_split
  inclusive_split-activation flow flows =
      activate_flows-eq [] none (flow ∷ flows)
      ∙ or_default_lem (candidate_ids default_flow_id ev (flow ∷ flows))
          (last_default default_flow_id none (flow ∷ flows))
    where
      or_default_lem :
          (ids : List String) (found : Option SequenceFlow)
          → activated_or_default gateway_id default_flow_id (λ e. ok (ev e)) ids found
            ≡ or_default gateway_id ids found
      or_default_lem [] found = ground arith
      or_default_lem (x ∷ xs) found = refl

module _ (gateway_id : String) (default_flow_id : Option String)
    (evaluate : String → Outcome Bool) where
  head-kept :
      (y : String) (ys : List String) (found : Option SequenceFlow) (flows : List SequenceFlow)
      (x : String) (xs : List String)
      → activate_flows gateway_id default_flow_id evaluate (y ∷ ys) found flows ≡ ok (x ∷ xs)
      → y ≡ x
  unfolding activate_flows
  head-kept y ys found [] x xs h = cc
  head-kept y ys found (flow ∷ flows) x xs h = ground (
    arith,
    head-kept y ys (some flow) flows x xs,
    head-kept y ys found flows x xs,
    head-kept y (ys ++ flow.id ∷ []) found flows x xs,
  )

  first-selected :
      (found : Option SequenceFlow) (flows : List SequenceFlow) (x : String) (xs : List String)
      → activate_flows gateway_id default_flow_id evaluate [] found flows ≡ ok (x ∷ xs)
      → select_flow gateway_id default_flow_id evaluate found flows ≡ ok x
  unfolding activate_flows select_flow
  first-selected found [] x xs h = ground arith
  first-selected found (flow ∷ flows) x xs h = ground (
    arith,
    first-selected (some flow) flows x xs,
    first-selected found flows x xs,
    head-kept flow.id [] found flows x xs,
  )

  -- Whatever the evaluator does: when an inclusive gateway activates flows, an exclusive gateway with
  -- the same flows and the same default selects the first of them.
  pub exclusive_split-head :
      (flows : List SequenceFlow) (x : String) (xs : List String)
      → evaluate_inclusive_split gateway_id flows default_flow_id evaluate ≡ ok (x ∷ xs)
      → evaluate_exclusive_split gateway_id flows default_flow_id evaluate ≡ ok x
  unfolding evaluate_inclusive_split evaluate_exclusive_split
  exclusive_split-head [] x xs h = cc
  exclusive_split-head (flow ∷ flows) x xs h = first-selected none (flow ∷ flows) x xs h
