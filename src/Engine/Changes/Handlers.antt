-- ===== src/Engine/Changes/Handlers.antt =====
-- `processToken` and the execution loop (Engine.Handlers, Engine.Loop) are steps.
use nexus_workflow.Common.{ℕ, zero, suc, Option, none, some}
use nexus_workflow.Model.Types.{Token}
use nexus_workflow.Model.Elements.{
  ProcessDefinition, BpmnElement, BpmnFlowElement, EventDefinition, EventDefinitionType, cancel,
  terminate, ServiceTask, start_event, gateway,
}
use nexus_workflow.Engine.Monad.{Exec}
use nexus_workflow.Engine.Handlers.{
  cancel_others, complete_if_done, end_event_reached, handle_end_event, start_service_task,
  start_user_task, unless_multi_instance, finish_manual_task, process_element, process_token,
}
use nexus_workflow.Engine.Loop.{run_loop_from, run_loop}
use nexus_workflow.Engine.Changes.{Steps}
use nexus_workflow.Engine.Changes.MultiInstance.{multi_instance_rules}
use nexus_workflow.Engine.Changes.Gateways.{handle_gateway-Steps}

cancel_others-Steps : (t : Token) → Steps (cancel_others t)
unfolding cancel_others
cancel_others-Steps t = search multi_instance_rules depth 12

complete_if_done-Steps : Steps complete_if_done
unfolding complete_if_done
complete_if_done-Steps = search multi_instance_rules depth 12

module _ (definition : ProcessDefinition) where
  end_event_reached-Steps :
      (type : EventDefinitionType) (t : Token) → Steps (end_event_reached definition type t)
  unfolding end_event_reached
  end_event_reached-Steps cancel t = search multi_instance_rules
  end_event_reached-Steps terminate t = search (multi_instance_rules, cancel_others-Steps)
  end_event_reached-Steps _ t = search (multi_instance_rules, complete_if_done-Steps)

  handle_end_event-Steps :
      (t : Token) (d : EventDefinition) → Steps (handle_end_event definition t d)
  unfolding handle_end_event
  handle_end_event-Steps t d = search (multi_instance_rules, end_event_reached-Steps)

  start_service_task-Steps :
      (t : Token) (b : BpmnElement) (s : ServiceTask) → Steps (start_service_task definition t b s)
  unfolding start_service_task
  start_service_task-Steps t b s = search multi_instance_rules depth 12

  start_user_task-Steps : (t : Token) (b : BpmnElement) → Steps (start_user_task definition t b)
  unfolding start_user_task
  start_user_task-Steps t b = search multi_instance_rules

  unless_multi_instance-Steps :
      (t : Token) (e : BpmnFlowElement) (m : Exec (Unit {0}))
      → Steps m
      → Steps (unless_multi_instance definition t e m)
  unfolding unless_multi_instance
  unless_multi_instance-Steps t e m s = search multi_instance_rules

  finish_manual_task-Steps :
      (t : Token) (e : BpmnFlowElement) → Steps (finish_manual_task definition t e)
  unfolding finish_manual_task
  finish_manual_task-Steps t e = search multi_instance_rules

  ruleset element_rules = (
    multi_instance_rules, handle_gateway-Steps, handle_end_event-Steps, start_service_task-Steps,
    start_user_task-Steps, unless_multi_instance-Steps, finish_manual_task-Steps,
  )

  process_element-Steps : (e : BpmnFlowElement) (t : Token) → Steps (process_element definition e t)
  unfolding process_element
  process_element-Steps (start_event b d i) t = search element_rules
  process_element-Steps (gateway b g) t = handle_gateway-Steps definition g.type t b g
  process_element-Steps _ t = search element_rules

  pub process_token-Steps : (t : Token) → Steps (process_token definition t)
  unfolding process_token
  process_token-Steps t = search (multi_instance_rules, process_element-Steps)

  run_loop_from-Steps :
      (fuel : ℕ) (o : Option Token) → Steps (run_loop_from (process_token definition) fuel o)
  unfolding run_loop_from
  run_loop_from-Steps fuel none = search multi_instance_rules
  run_loop_from-Steps zero (some t) = search multi_instance_rules
  run_loop_from-Steps (suc fuel) (some t) =
      let rest : (o : Option Token) → Steps (run_loop_from (process_token definition) fuel o) =
        run_loop_from-Steps fuel in
      search (multi_instance_rules, process_token-Steps, rest) depth 12

  pub run_loop-Steps : (fuel : ℕ) → Steps (run_loop fuel definition)
  unfolding run_loop
  run_loop-Steps fuel = search (multi_instance_rules, run_loop_from-Steps)
