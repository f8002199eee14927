-- ===== src/Engine/Changes/Compensation.antt =====
-- The functions of Engine.Compensation are steps.
use nexus_workflow.Common.{String, Option, List, [], ◌∷◌}
use nexus_workflow.Model.Types.{Token, CompensationRecord}
use nexus_workflow.Model.Elements.{ProcessDefinition, BpmnElement, BpmnFlowElement, EventDefinition}
use nexus_workflow.Engine.Compensation.{
  spawn_handler, run_handlers, handle_compensation_throw, handle_intermediate_throw_event,
  record_compensation, record_compensation_if_needed, resume_throw_token,
  handle_compensation_handler_completion,
}
use nexus_workflow.Engine.Changes.{Steps}
use nexus_workflow.Engine.Changes.SubProcess.{sub_process_rules}

module _ (definition : ProcessDefinition) where
  spawn_handler-Steps :
      (i : String) (t : Token) (id : String) (r : CompensationRecord)
      → Steps (spawn_handler definition i t id r)
  unfolding spawn_handler
  spawn_handler-Steps i t id r = search sub_process_rules depth 16

  run_handlers-Steps :
      (i : String) (t : Token) (b : BpmnElement) (d : EventDefinition)
      (rs : List CompensationRecord)
      → Steps (run_handlers definition i t b d rs)
  unfolding run_handlers
  run_handlers-Steps i t b d [] = search sub_process_rules depth 12
  run_handlers-Steps i t b d (r ∷ rs) = search (sub_process_rules, spawn_handler-Steps) depth 12

  handle_compensation_throw-Steps :
      (t : Token) (b : BpmnElement) (d : EventDefinition)
      → Steps (handle_compensation_throw definition t b d)
  unfolding handle_compensation_throw
  handle_compensation_throw-Steps t b d = search (sub_process_rules, run_handlers-Steps) depth 12

  pub handle_intermediate_throw_event-Steps :
      (t : Token) (b : BpmnElement) (d : EventDefinition)
      → Steps (handle_intermediate_throw_event definition t b d)
  unfolding handle_intermediate_throw_event
  handle_intermediate_throw_event-Steps t b d =
      search (sub_process_rules, handle_compensation_throw-Steps)

  record_compensation-Steps :
      (t : Token) (id : String) (h : Option String) → Steps (record_compensation definition t id h)
  unfolding record_compensation
  record_compensation-Steps t id h = search sub_process_rules depth 12

  pub record_compensation_if_needed-Steps :
      (t : Token) (e : BpmnFlowElement) → Steps (record_compensation_if_needed definition t e)
  unfolding record_compensation_if_needed
  record_compensation_if_needed-Steps t e = search (sub_process_rules, record_compensation-Steps)

  resume_throw_token-Steps :
      (t : Token) (e : BpmnFlowElement) → Steps (resume_throw_token definition t e)
  unfolding resume_throw_token
  resume_throw_token-Steps t e = search sub_process_rules depth 12

  pub handle_compensation_handler_completion-Steps :
      (h t : Token) → Steps (handle_compensation_handler_completion definition h t)
  unfolding handle_compensation_handler_completion
  handle_compensation_handler_completion-Steps h t =
      search (sub_process_rules, resume_throw_token-Steps) depth 16

pub ruleset compensation_rules = (
  sub_process_rules, handle_intermediate_throw_event-Steps, record_compensation_if_needed-Steps,
  handle_compensation_handler_completion-Steps,
)
