-- ===== src/Tests/GatewayExamples.antt =====
-- The theorems on the gateways at concrete flows.
use nexus_workflow.Common.{
  length, filter, includes, ◌<◌, String, Bool, true, false, ◌&&◌, ◌≡◌, refl, none, some, [], ◌∷◌,
  ◌==◌,
}
use nexus_workflow.Model.Types.{ParallelGatewayJoinState, InclusiveGatewayJoinState}
use nexus_workflow.Model.Elements.{
  SequenceFlow, EventDefinitionType, GatewayType, ProcessDefinition, intermediate_catch_event,
  gateway,
}
use nexus_workflow.Model.Errors.{ok}
use nexus_workflow.Gateways.Exclusive.{evaluate_exclusive_split}
use nexus_workflow.Gateways.Exclusive.Choice.{exclusive_split-choice}
use nexus_workflow.Gateways.Inclusive.{
  activate_flows, activated_or_default, evaluate_inclusive_split, evaluate_inclusive_join,
}
use nexus_workflow.Gateways.Inclusive.Activation.{inclusive_split-activation, exclusive_split-head}
use nexus_workflow.Gateways.Inclusive.Join.{arrive, inclusive_join-fires}
use nexus_workflow.Gateways.Parallel.{evaluate_parallel_join}
use nexus_workflow.Gateways.Parallel.Join
use nexus_workflow.Gateways.EventBased.{validate_event_based_gateway}
use nexus_workflow.Gateways.EventBased.Validity.{is_ok, leads_to_event, validate-eq-leads_to_events}
use nexus_workflow.Engine.Definition.{find_inclusive_join_incoming}
use nexus_workflow.Engine.Definition.Joins.{entering, find_inclusive_join_incoming-IsDirect}
use nexus_workflow.Tests.Unfold.{whole_engine}
use nexus_workflow.Tests.Samples.{flow, base, event_of, definition_of}

abbrev conditional : String → String → SequenceFlow
conditional id expression = record (flow id "gateway" "target") {
  condition_expression = some expression;
}

abbrev cheap : SequenceFlow
cheap = conditional "cheap" "price < 10"

abbrev dear : SequenceFlow
dear = conditional "dear" "price > 5"

abbrev otherwise : SequenceFlow
otherwise = record (flow "otherwise" "gateway" "target") { is_default = true }

abbrev is_dear : String → Bool
is_dear e = e == "price > 5"

exclusive_split-choice_example :
    evaluate_exclusive_split "gateway" (otherwise ∷ cheap ∷ dear ∷ []) none (λ e. ok (is_dear e))
    ≡ ok "dear"
exclusive_split-choice_example =
    exclusive_split-choice "gateway" none is_dear otherwise (cheap ∷ dear ∷ [])

inclusive_split-activation_example :
    evaluate_inclusive_split "gateway" (otherwise ∷ cheap ∷ dear ∷ []) none (λ e. ok (is_dear e))
    ≡ ok ("dear" ∷ [])
inclusive_split-activation_example =
    inclusive_split-activation "gateway" none is_dear otherwise (cheap ∷ dear ∷ [])

both_activated :
    evaluate_inclusive_split "gateway" (otherwise ∷ cheap ∷ dear ∷ []) none (λ e. ok true)
    ≡ ok ("cheap" ∷ "dear" ∷ [])
unfolding evaluate_inclusive_split activate_flows activated_or_default
both_activated = refl

exclusive_split-head_example :
    evaluate_exclusive_split "gateway" (otherwise ∷ cheap ∷ dear ∷ []) none (λ e. ok true)
    ≡ ok "cheap"
exclusive_split-head_example =
    exclusive_split-head "gateway" none (λ e. ok true) (otherwise ∷ cheap ∷ dear ∷ []) "cheap"
      ("dear" ∷ []) both_activated

abbrev parallel_state : ParallelGatewayJoinState
parallel_state = record {
  gateway_id = "gateway";
  instance_id = "i";
  activation_id = "a";
  arrived_from_flows = "f1" ∷ [];
  expected_flows = "f1" ∷ "f2" ∷ "f3" ∷ [];
}

parallel_join-fires_example :
    (evaluate_parallel_join "gateway" "f2"
      (Join.arrive "gateway" ("f3" ∷ "f3" ∷ []) parallel_state)).fires
    ≡ true
parallel_join-fires_example =
    Join.parallel_join-fires "gateway" ("f3" ∷ "f3" ∷ []) "f2" parallel_state

abbrev inclusive_state : InclusiveGatewayJoinState
inclusive_state = record {
  gateway_id = "gateway";
  instance_id = "i";
  activation_id = "a";
  activated_incoming_flows = "f1" ∷ "f2" ∷ [];
  arrived_from_flows = [];
}

inclusive_join-fires_example :
    (evaluate_inclusive_join "gateway" "f2" (arrive "gateway" ("f3" ∷ []) inclusive_state)).fires
    ≡ false
inclusive_join-fires_example = inclusive_join-fires "gateway" ("f3" ∷ []) "f2" inclusive_state

abbrev awaiting : ProcessDefinition
awaiting =
    definition_of
      (intermediate_catch_event (base "catch" ("f" ∷ []) []) (event_of EventDefinitionType.message)
        ∷ [])
      (flow "f" "gateway" "catch" ∷ [])

validate-eq-leads_to_events_example :
    is_ok (
      validate_event_based_gateway
        (base "gateway" [] ("f" ∷ []))
        (record { type = GatewayType.event_based; default_flow = none; instantiate = false })
        awaiting)
    ≡ (leads_to_event awaiting "f" && true)
validate-eq-leads_to_events_example =
    validate-eq-leads_to_events (base "gateway" [] ("f" ∷ []))
      (record { type = GatewayType.event_based; default_flow = none; instantiate = false }) awaiting

abbrev merging : ProcessDefinition
merging =
    definition_of
      (gateway (base "join" ("a" ∷ "b" ∷ []) [])
          (record { type = GatewayType.inclusive; default_flow = none; instantiate = false })
        ∷ [])
      (flow "a" "split" "join" ∷ flow "b" "split" "join" ∷ [])

join_found : find_inclusive_join_incoming merging ("a" ∷ "c" ∷ []) ≡ some ("join", "a" ∷ [])
unfolding whole_engine
join_found = refl

find_inclusive_join_incoming-IsDirect_example :
    (1 < length (entering merging ("a" ∷ "c" ∷ []) "join"))
    × ("a" ∷ [] ≡ filter (includes (entering merging ("a" ∷ "c" ∷ []) "join")) ("a" ∷ "c" ∷ []))
    × (0 < 1)
find_inclusive_join_incoming-IsDirect_example =
    find_inclusive_join_incoming-IsDirect merging ("a" ∷ "c" ∷ []) "join" ("a" ∷ []) join_found
