-- ===== src/Engine/Weights/Elements.antt =====
-- `processToken` (Engine.Handlers) on a process without sub-processes, multi-instance activities and
-- compensation: what each element may put into the queue.
use nexus_workflow.Common.{
  ℕ, String, Bool, true, false, not, ◌&&◌, ◌≡◌, refl, subst, Option, none, some, arith, leb, ◌==◌,
  if◌then◌else◌, case_option, is_some, truthy,
}
use nexus_workflow.Model.Types.{Token}
use nexus_workflow.Model.Elements.{
  EventDefinition, EventDefinitionType, cancel, terminate, timer, BpmnElement, BoundaryEvent,
  ServiceTask, MultiInstanceLoopCharacteristics, GatewayType, BpmnFlowElement, Elements,
  ProcessDefinition, end_event, intermediate_throw_event, service_task, user_task, gateway,
  sub_process, element_id, outgoing_flows,
}
use nexus_workflow.Engine.Monad.{Exec}
use nexus_workflow.Engine.Definition.{find_element_in_tree, find_element_inside}
use nexus_workflow.Engine.SubProcess.{is_cancel}
use nexus_workflow.Engine.Boundaries.{is_compensation, catch_event, boundary_wait}
use nexus_workflow.Engine.MultiInstance.{get_loop_characteristics, handle_multi_instance_start}
use nexus_workflow.Engine.Handlers.{
  cancel_others, complete_if_done, end_event_reached, handle_end_event, start_service_task,
  start_user_task, unless_multi_instance,
}
use nexus_workflow.Engine.TaskCommands.{is_for_compensation}
use nexus_workflow.Engine.Weights.{Costs}
use nexus_workflow.Engine.Weights.Rules.{Costs-bind}
use nexus_workflow.Engine.Weights.Moves.{token_costs, flows_weight}
use nexus_workflow.Engine.Weights.Gateways.{leaving}
use nexus_workflow.Engine.Weights.EventBased.{branches, guarding, spawn_boundary_tokens-Costs}

-- The elements of a process without sub-processes, multi-instance activities and compensation.
abbrev pub is_plain : BpmnFlowElement → Bool
is_plain (end_event b d) = not (is_cancel d.type)
is_plain (intermediate_throw_event b d) = not (is_compensation d.type)
is_plain (sub_process b tr es fs s) = false
is_plain element =
    not (is_some (get_loop_characteristics element)) && not (is_for_compensation element)

pub inside-none :
    (x : BpmnFlowElement) (id : String) → is_plain x ≡ true → find_element_inside x id ≡ none
unfolding find_element_in_tree
inside-none (sub_process b tr es fs s) id h = absurd (cc)
inside-none _ id h = refl

pub both_of : (a b c : Bool) → (a && b && c) ≡ true → (a ≡ true) × (b ≡ true)
both_of a b c h = ground arith

pub all_of : (a b c : Bool) → (a && b && c) ≡ true → c ≡ true
all_of a b c h = ground arith

module _ (weight : String → ℕ) where
  cancel_others-Costs : (k : ℕ) (t : Token) → Costs weight k (cancel_others t)
  unfolding cancel_others
  cancel_others-Costs k t = search token_costs depth 16

  complete_if_done-Costs : (k : ℕ) → Costs weight k complete_if_done
  unfolding complete_if_done
  complete_if_done-Costs k = search token_costs depth 16

  pub catch_event-Costs :
      (k : ℕ) (type : EventDefinitionType) (d : EventDefinition) (t : Token)
      → Costs weight k (catch_event type d t)
  unfolding catch_event
  catch_event-Costs k timer d t = search token_costs
  catch_event-Costs k _ d t = search token_costs

  pub boundary_wait-Costs :
      (k : ℕ) (type : EventDefinitionType) (e : BoundaryEvent) (t : Token)
      → Costs weight k (boundary_wait type e t)
  unfolding boundary_wait
  boundary_wait-Costs k timer e t = search token_costs
  boundary_wait-Costs k _ e t = search token_costs

module _ (weight : String → ℕ) (definition : ProcessDefinition) where
  abbrev pub gateway_weight : GatewayType → String → ℕ
  gateway_weight GatewayType.event_based id = branches weight definition id
  gateway_weight _ id = leaving weight definition id

  -- The weight of all tokens that one token at the element may lead to in a round of the loop.
  abbrev pub element_weight : BpmnFlowElement → ℕ
  element_weight (service_task b t) = guarding weight definition b.id
  element_weight (user_task b t) = guarding weight definition b.id
  element_weight (gateway b g) = gateway_weight g.type b.id
  element_weight (end_event b d) = 0
  element_weight element = flows_weight weight definition (outgoing_flows element)

  -- An element weighs as much as what a token there queues, and as what follows it, at least.
  abbrev pub is_heavy : BpmnFlowElement → Bool
  is_heavy element =
      leb (element_weight element) (weight (element_id element))
      && leb (flows_weight weight definition (outgoing_flows element)) (weight (element_id element))

  abbrev pub all_heavy : Elements → Bool
  all_heavy Elements.nil = true
  all_heavy (Elements.cons e es) = is_plain e && is_heavy e && all_heavy es

  pub found-heavy :
      (es : Elements) (id : String) (e : BpmnFlowElement)
      → find_element_in_tree es id ≡ some e
      → all_heavy es ≡ true
      → (is_plain e ≡ true) × (is_heavy e ≡ true)
  unfolding find_element_in_tree
  found-heavy Elements.nil id e f h = absurd (cc)
  found-heavy (Elements.cons x es) id e f h =
      chosen (element_id x == id) (find_element_inside x id) (inside-none x id (ground (arith)))
        (ground (arith)) (found-heavy es id e) f
    where
      chosen :
          (b : Bool) (inside : Option BpmnFlowElement)
          → inside ≡ none
          → (is_plain x && is_heavy x) && all_heavy es ≡ true
          → (find_element_in_tree es id ≡ some e
              → all_heavy es ≡ true
              → (is_plain e ≡ true) × (is_heavy e ≡ true))
          → (if b
              then some x
              else case_option inside (find_element_in_tree es id) (λ found. some found))
            ≡ some e
          → (is_plain e ≡ true) × (is_heavy e ≡ true)
      chosen b (some y) n k rest g = absurd (cc)
      chosen true none n k rest g =
          let same : x ≡ e = cc in
          subst (λ y. (is_plain y ≡ true) × (is_heavy y ≡ true)) same
            (both_of (is_plain x) (is_heavy x) (all_heavy es) k)
      chosen false none n k rest g = rest g (all_of (is_plain x) (is_heavy x) (all_heavy es) k)

  module _ (t : Token) (h : truthy t.sub_process_instance_id ≡ false) where
    end_event_reached-Costs :
        (type : EventDefinitionType)
        → not (is_cancel type) ≡ true
        → Costs weight 0 (end_event_reached definition type t)
    unfolding end_event_reached
    end_event_reached-Costs cancel n = absurd (cc)
    end_event_reached-Costs terminate n = search (token_costs, cancel_others-Costs)
    end_event_reached-Costs _ n = rw h (complete_if_done-Costs weight 0)

    pub handle_end_event-Costs :
        (d : EventDefinition)
        → not (is_cancel d.type) ≡ true
        → Costs weight 0 (handle_end_event definition t d)
    unfolding handle_end_event
    handle_end_event-Costs d n =
        Costs-bind weight 0 _ _ (search token_costs) (λ _. end_event_reached-Costs d.type n)

    pub start_service_task-Costs :
        (b : BpmnElement) (s : ServiceTask)
        → Costs weight (guarding weight definition b.id) (start_service_task definition t b s)
    unfolding start_service_task
    start_service_task-Costs b s = Costs-bind weight _ _ _ (search token_costs) λ i.
        Costs-bind weight _ _ _ (search token_costs) λ _.
          Costs-bind weight _ _ _ (search token_costs)
            λ _. spawn_boundary_tokens-Costs weight definition t h b.id

    pub start_user_task-Costs :
        (b : BpmnElement)
        → Costs weight (guarding weight definition b.id) (start_user_task definition t b)
    unfolding start_user_task
    start_user_task-Costs b =
        Costs-bind weight _ _ _ (search token_costs)
          (λ _. spawn_boundary_tokens-Costs weight definition t h b.id)

    -- Without loop characteristics.
    pub unless_multi_instance-Costs :
        (k : ℕ) (e : BpmnFlowElement) (m : Exec (Unit {0}))
        → not (is_some (get_loop_characteristics e)) ≡ true
        → Costs weight k m
        → Costs weight k (unless_multi_instance definition t e m)
    unfolding unless_multi_instance
    unless_multi_instance-Costs k e m n p = by_loop (get_loop_characteristics e) n
      where
        by_loop :
            (o : Option MultiInstanceLoopCharacteristics)
            → not (is_some o) ≡ true
            → Costs weight k (
                case_option o m λ lc.
                  if truthy t.parent_token_id
                  then m
                  else handle_multi_instance_start definition e lc t)
        by_loop none q = p
        by_loop (some lc) q = absurd (cc)
