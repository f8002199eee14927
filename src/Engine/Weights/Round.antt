-- ===== src/Engine/Weights/Round.antt =====
-- One round of the execution loop (`processToken`, Engine.Handlers): the tokens that it queues weigh
-- no more than the element of the token that it takes.
use nexus_workflow.Common.{
  ℕ, String, Bool, true, false, not, ◌&&◌, ◌≡◌, ap, Option, none, some, arith, if◌then◌else◌,
  case_option, is_some, truthy,
}
use nexus_workflow.Model.Types.{Token, WaitConditionType}
use nexus_workflow.Model.Elements.{
  EventDefinition, BpmnElement, GatewayType, Gateway, BpmnFlowElement,
  MultiInstanceLoopCharacteristics, ProcessDefinition, start_event, end_event,
  intermediate_catch_event, intermediate_throw_event, boundary_event, service_task, user_task,
  script_task, manual_task, call_activity, gateway, sub_process, outgoing_flows,
}
use nexus_workflow.Engine.Definition.{get_element}
use nexus_workflow.Engine.Moves.{advance_token}
use nexus_workflow.Engine.Boundaries.{
  is_compensation, handle_intermediate_catch_event, handle_boundary_event_wait,
}
use nexus_workflow.Engine.Compensation.{handle_compensation_throw, handle_intermediate_throw_event}
use nexus_workflow.Engine.MultiInstance.{
  get_loop_characteristics, handle_multi_instance_child_completion,
}
use nexus_workflow.Engine.GatewayHandlers.{handle_gateway}
use nexus_workflow.Engine.Handlers.{finish_manual_task, process_element, process_token}
use nexus_workflow.Engine.Weights.{Costs}
use nexus_workflow.Engine.Weights.Rules.{Costs-throw, Costs-if, Costs-more, Costs-require_bind}
use nexus_workflow.Engine.Weights.Moves.{
  flows_weight, element_id-found, advance_token-Costs, suspend_token-Costs,
}
use nexus_workflow.Engine.Weights.Gateways.{
  handle_exclusive_gateway-Costs, handle_parallel_gateway-Costs, handle_inclusive_gateway-Costs,
}
use nexus_workflow.Engine.Weights.EventBased.{handle_event_based_gateway-Costs}
use nexus_workflow.Engine.Weights.Elements.{
  is_plain, gateway_weight, element_weight, all_heavy, found-heavy, catch_event-Costs,
  boundary_wait-Costs, handle_end_event-Costs, start_service_task-Costs, start_user_task-Costs,
  unless_multi_instance-Costs,
}

pub first_holds : (a b : Bool) → (a && b) ≡ true → a ≡ true
first_holds a b h = ground arith

module _ (weight : String → ℕ) (definition : ProcessDefinition) (t : Token)
    (h : truthy t.sub_process_instance_id ≡ false) where
  -- What follows a manual task without loop characteristics.
  finish_manual_task-Costs :
      (e : BpmnFlowElement)
      → not (is_some (get_loop_characteristics e)) ≡ true
      → Costs weight
          (flows_weight weight definition (outgoing_flows e))
          (finish_manual_task definition t e)
  unfolding finish_manual_task
  finish_manual_task-Costs e n =
      Costs-if weight _ (truthy t.parent_token_id) _ _ (by_loop (get_loop_characteristics e) n)
        (advance_token-Costs weight definition t e h)
    where
      by_loop :
          (o : Option MultiInstanceLoopCharacteristics)
          → not (is_some o) ≡ true
          → Costs weight (flows_weight weight definition (outgoing_flows e)) (
              case_option o
                (advance_token definition t e)
                (λ lc. handle_multi_instance_child_completion definition e lc t))
      by_loop none q = advance_token-Costs weight definition t e h
      by_loop (some lc) q = absurd (cc)

  handle_intermediate_throw_event-Costs :
      (b : BpmnElement) (d : EventDefinition)
      → not (is_compensation d.type) ≡ true
      → Costs weight
          (flows_weight weight definition b.outgoing_flows)
          (handle_intermediate_throw_event definition t b d)
  unfolding handle_intermediate_throw_event
  handle_intermediate_throw_event-Costs b d n = by_type (is_compensation d.type) n
    where
      by_type :
          (c : Bool)
          → not c ≡ true
          → Costs weight (flows_weight weight definition b.outgoing_flows) (
              if c
              then handle_compensation_throw definition t b d
              else advance_token definition t (intermediate_throw_event b d))
      by_type true q = absurd (cc)
      by_type false q = advance_token-Costs weight definition t (intermediate_throw_event b d) h

  handle_gateway-Costs :
      (type : GatewayType) (b : BpmnElement) (g : Gateway)
      → Costs weight
          (gateway_weight weight definition type b.id)
          (handle_gateway definition type t b g)
  unfolding handle_gateway
  handle_gateway-Costs GatewayType.exclusive b g =
      handle_exclusive_gateway-Costs weight definition t h b g
  handle_gateway-Costs GatewayType.parallel b g =
      handle_parallel_gateway-Costs weight definition t h b
  handle_gateway-Costs GatewayType.inclusive b g =
      handle_inclusive_gateway-Costs weight definition t h b g
  handle_gateway-Costs GatewayType.event_based b g =
      handle_event_based_gateway-Costs weight definition t b g

  process_element-Costs :
      (e : BpmnFlowElement)
      → is_plain e ≡ true
      → Costs weight (element_weight weight definition e) (process_element definition e t)
  unfolding process_element handle_intermediate_catch_event handle_boundary_event_wait
  process_element-Costs (start_event b d i) n =
      advance_token-Costs weight definition t (start_event b d i) h
  process_element-Costs (end_event b d) n = handle_end_event-Costs weight definition t h d n
  process_element-Costs (service_task b s) n =
      unless_multi_instance-Costs weight definition t h _ (service_task b s) _ (first_holds _ _ n)
        (start_service_task-Costs weight definition t h b s)
  process_element-Costs (user_task b u) n =
      unless_multi_instance-Costs weight definition t h _ (user_task b u) _ (first_holds _ _ n)
        (start_user_task-Costs weight definition t h b)
  process_element-Costs (script_task b s) n =
      unless_multi_instance-Costs weight definition t h _ (script_task b s) _ (first_holds _ _ n)
        (suspend_token-Costs weight _ t WaitConditionType.external)
  process_element-Costs (manual_task b m) n =
      unless_multi_instance-Costs weight definition t h _ (manual_task b m) _ (first_holds _ _ n)
        (finish_manual_task-Costs (manual_task b m) (first_holds _ _ n))
  process_element-Costs (intermediate_catch_event b d) n = catch_event-Costs weight _ d.type d t
  process_element-Costs (intermediate_throw_event b d) n =
      handle_intermediate_throw_event-Costs b d n
  process_element-Costs (boundary_event b e) n =
      boundary_wait-Costs weight _ e.event_definition.type e t
  process_element-Costs (gateway b g) n = handle_gateway-Costs g.type b g
  process_element-Costs (sub_process b tr es fs s) n = absurd (cc)
  process_element-Costs (call_activity b c) n = Costs-throw weight _ _

  -- A round costs at most the weight of the element.
  pub process_token-Costs :
      all_heavy weight definition definition.elements ≡ true
      → Costs weight (weight t.element_id) (process_token definition t)
  unfolding process_token get_element
  process_token-Costs heavy = Costs-require_bind weight _ _ _ _ λ e found.
      let (plain, weighs) =
        found-heavy weight definition definition.elements t.element_id e found heavy in
      Costs-more weight (element_weight weight definition e) _ _
        (ground
          (arith, ap weight (element_id-found weight definition t.element_id e found), weighs))
        (process_element-Costs e plain)
