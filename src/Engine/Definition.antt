-- ===== src/Engine/Definition.antt =====
-- The searches of engine/ExecutionEngine.ts through a process definition and its sub-processes.
pub mod Search
pub mod Flows
pub mod Joins
use nexus_workflow.Common.{
  String, Bool, Option, none, some, List, [], ◌∷◌, ◌==◌, if◌then◌else◌, case_option, truthy,
  is_text, is_some, not, true, false, filter, find, map, length, includes, ltb, ◌&&◌,
}
use nexus_workflow.Model.Elements.{
  SequenceFlow, BpmnElement, BpmnFlowElement, BoundaryEvent, Elements, ProcessDefinition,
  EventDefinitionType, GatewayType, element_id, boundary_event, sub_process, gateway,
}
use nexus_workflow.Model.Errors.{element_not_found, flow_not_found}
use nexus_workflow.Engine.Monad.{Exec, require}

unfoldable mutual
  pub find_element_in_tree : Elements → String → Option BpmnFlowElement
  find_element_in_tree Elements.nil id = none
  find_element_in_tree (Elements.cons e es) id =
      if element_id e == id
      then some e
      else case_option (find_element_inside e id) (find_element_in_tree es id) (λ found. some found)

  -- The search of one element's own sub-process.
  pub find_element_inside : BpmnFlowElement → String → Option BpmnFlowElement
  find_element_inside (sub_process b tr es fs s) id = find_element_in_tree es id
  find_element_inside _ id = none

-- The loop of `findFlowInTree` over the elements, and its body.
unfoldable mutual
  pub find_flow_below : Elements → String → Option SequenceFlow
  find_flow_below Elements.nil id = none
  find_flow_below (Elements.cons e es) id =
      case_option (find_flow_inside e id) (find_flow_below es id) (λ found. some found)

  pub find_flow_inside : BpmnFlowElement → String → Option SequenceFlow
  find_flow_inside (sub_process b tr es fs s) id =
      case_option (find (λ f. f.id == id) fs) (find_flow_below es id) (λ found. some found)
  find_flow_inside _ id = none

unfoldable pub find_flow_in_tree : Elements → List SequenceFlow → String → Option SequenceFlow
unfolding find_flow_below
find_flow_in_tree elements flows id =
    case_option (find (λ f. f.id == id) flows) (find_flow_below elements id) (λ found. some found)

-- `direct.length > 0 ? direct : otherwise`
abbrev pub nonempty_or {ℓ} : {A : Type ℓ} → List A → List A → List A
nonempty_or [] otherwise = otherwise
nonempty_or (x ∷ xs) otherwise = x ∷ xs

-- The loops of `findFlowsBySource` and `findFlowsByTarget`: they differ in the end of the flow that
-- is compared.
unfoldable mutual
  pub find_flows_below : (SequenceFlow → String) → Elements → String → List SequenceFlow
  find_flows_below end Elements.nil element_id = []
  find_flows_below end (Elements.cons e es) element_id =
      nonempty_or (find_flows_inside end e element_id) (find_flows_below end es element_id)

  pub find_flows_inside : (SequenceFlow → String) → BpmnFlowElement → String → List SequenceFlow
  find_flows_inside end (sub_process b tr es fs s) element_id =
      nonempty_or (filter (λ f. end f == element_id) fs) (find_flows_below end es element_id)
  find_flows_inside end _ element_id = []

unfoldable pub find_flows_by_source : Elements → List SequenceFlow → String → List SequenceFlow
unfolding find_flows_below
find_flows_by_source elements flows element_id =
    nonempty_or (filter (λ f. f.source_ref == element_id) flows)
      (find_flows_below (λ f. f.source_ref) elements element_id)

unfoldable pub find_flows_by_target : Elements → List SequenceFlow → String → List SequenceFlow
unfolding find_flows_below
find_flows_by_target elements flows element_id =
    nonempty_or (filter (λ f. f.target_ref == element_id) flows)
      (find_flows_below (λ f. f.target_ref) elements element_id)

-- A boundary event with its id and outgoing flows.
abbrev pub Boundary : Type 0
Boundary = BpmnElement × BoundaryEvent

-- The filter of `findBoundariesInTree` over one level.
unfoldable pub attached_boundaries : Elements → String → List Boundary
attached_boundaries Elements.nil task_element_id = []
attached_boundaries (Elements.cons (boundary_event b e) es) task_element_id =
    let rest = attached_boundaries es task_element_id in
    if e.attached_to_ref == task_element_id then (b, e) ∷ rest else rest
attached_boundaries (Elements.cons _ es) task_element_id = attached_boundaries es task_element_id

-- The loop of `findBoundariesInTree`, and its body.
unfoldable mutual
  unfolding attached_boundaries

  pub find_boundaries_below : Elements → String → List Boundary
  find_boundaries_below Elements.nil task_element_id = []
  find_boundaries_below (Elements.cons e es) task_element_id =
      nonempty_or (find_boundaries_inside e task_element_id)
        (find_boundaries_below es task_element_id)

  pub find_boundaries_inside : BpmnFlowElement → String → List Boundary
  find_boundaries_inside (sub_process b tr es fs s) task_element_id =
      nonempty_or (attached_boundaries es task_element_id)
        (find_boundaries_below es task_element_id)
  find_boundaries_inside _ task_element_id = []

unfoldable pub find_boundaries_in_tree : Elements → String → List Boundary
unfolding find_boundaries_below
find_boundaries_in_tree elements task_element_id =
    nonempty_or (attached_boundaries elements task_element_id)
      (find_boundaries_below elements task_element_id)

abbrev is_error : EventDefinitionType → Bool
is_error EventDefinitionType.error = true
is_error _ = false

module _ (definition : ProcessDefinition) where
  unfoldable pub find_boundaries_for : String → List Boundary
  unfolding find_boundaries_in_tree
  find_boundaries_for task_element_id = find_boundaries_in_tree definition.elements task_element_id

  unfoldable pub get_element : String → Exec BpmnFlowElement
  unfolding find_element_in_tree require
  get_element id = require (find_element_in_tree definition.elements id) (element_not_found id)

  unfoldable pub get_flow : String → Exec SequenceFlow
  unfolding find_flow_in_tree require
  get_flow id =
      require (find_flow_in_tree definition.elements definition.sequence_flows id)
        (flow_not_found id)

  unfoldable pub get_outgoing_flows : String → List SequenceFlow
  unfolding find_flows_by_source
  get_outgoing_flows element_id =
      find_flows_by_source definition.elements definition.sequence_flows element_id

  unfoldable pub get_incoming_flows : String → List SequenceFlow
  unfolding find_flows_by_target
  get_incoming_flows element_id =
      find_flows_by_target definition.elements definition.sequence_flows element_id

  -- Exact error code first, then a boundary with no error code.
  unfoldable pub find_matching_error_boundary : String → String → Option Boundary
  unfolding find_boundaries_for
  find_matching_error_boundary task_element_id error_code =
      let boundaries =
        filter (λ b. is_error b.1.event_definition.type) (find_boundaries_for task_element_id) in
      case_option (find (λ b. is_text b.1.event_definition.error_code error_code) boundaries)
        (find (λ b. not (truthy b.1.event_definition.error_code)) boundaries) (λ exact. some exact)

  -- The incoming flows of a join gateway that the activated flows are.
  unfoldable pub join_candidate : List String → BpmnElement → Option (String × List String)
  unfolding get_incoming_flows
  join_candidate activated_flow_ids base =
      let incoming = map (λ f. f.id) (get_incoming_flows base.id) in
      let incoming_flows = filter (includes incoming) activated_flow_ids in
      let terminate =
        filter
          (λ fid.
            is_some (find (λ f. f.id == fid) definition.sequence_flows) && includes incoming fid)
          activated_flow_ids in
      if ltb 1 (length incoming) && ltb 0 (length terminate)
      then some (base.id, incoming_flows)
      else none

  unfoldable pub inclusive_candidate :
      List String → BpmnElement → GatewayType → Option (String × List String)
  unfolding join_candidate
  inclusive_candidate activated_flow_ids base GatewayType.inclusive =
      join_candidate activated_flow_ids base
  inclusive_candidate activated_flow_ids base _ = none

  -- The loop of `findInclusiveJoinIncoming` over the top level of elements.
  unfoldable pub find_join_among : List String → Elements → Option (String × List String)
  unfolding inclusive_candidate
  find_join_among activated_flow_ids Elements.nil = none
  find_join_among activated_flow_ids (Elements.cons (gateway b g) es) =
      case_option (inclusive_candidate activated_flow_ids b g.type)
        (find_join_among activated_flow_ids es) (λ found. some found)
  find_join_among activated_flow_ids (Elements.cons _ es) = find_join_among activated_flow_ids es

  unfoldable pub find_inclusive_join_incoming : List String → Option (String × List String)
  unfolding find_join_among
  find_inclusive_join_incoming activated_flow_ids =
      find_join_among activated_flow_ids definition.elements
