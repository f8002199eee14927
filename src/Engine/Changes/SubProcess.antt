-- ===== src/Engine/Changes/SubProcess.antt =====
-- The functions of Engine.SubProcess are steps.
use nexus_workflow.Common.{String, Bool, [], ◌∷◌}
use nexus_workflow.Model.Types.{Token, Variables, CompensationRecord}
use nexus_workflow.Model.Elements.{ProcessDefinition, BpmnElement}
use nexus_workflow.Engine.Definition.{Boundary}
use nexus_workflow.Engine.SubProcess.{
  merge_nonempty, handle_sub_process, propagate_inner_scope, complete_sub_process,
  check_sub_process_completion, fire_boundary, fire_cancel_boundary, compensate_in_transaction,
  cancel_transaction, handle_transaction_cancel,
}
use nexus_workflow.Engine.Changes.{Steps}
use nexus_workflow.Engine.Changes.Boundaries.{boundary_rules}

pub merge_nonempty-Steps : (id : String) (vars : Variables) → Steps (merge_nonempty id vars)
merge_nonempty-Steps id [] = search boundary_rules
merge_nonempty-Steps id (v ∷ vars) = search boundary_rules

module _ (definition : ProcessDefinition) where
  pub handle_sub_process-Steps :
      (t : Token) (b : BpmnElement) (tr : Bool) (start : String)
      → Steps (handle_sub_process definition t b tr start)
  unfolding handle_sub_process
  handle_sub_process-Steps t b tr start = search boundary_rules depth 24

  propagate_inner_scope-Steps :
      (id : String) (t : Token) → Steps (propagate_inner_scope definition id t)
  unfolding propagate_inner_scope
  propagate_inner_scope-Steps id t = search (boundary_rules, merge_nonempty-Steps) depth 12

  complete_sub_process-Steps :
      (id : String) (t : Token) → Steps (complete_sub_process definition id t)
  unfolding complete_sub_process
  complete_sub_process-Steps id t = search (boundary_rules, propagate_inner_scope-Steps) depth 16

  pub check_sub_process_completion-Steps :
      (id : String) → Steps (check_sub_process_completion definition id)
  unfolding check_sub_process_completion
  check_sub_process_completion-Steps id =
      search (boundary_rules, complete_sub_process-Steps) depth 12

  fire_boundary-Steps :
      (t : Token) (b : Boundary) (bt : Token) → Steps (fire_boundary definition t b bt)
  unfolding fire_boundary
  fire_boundary-Steps t b bt = search boundary_rules depth 16

  pub fire_cancel_boundary-Steps :
      (t : Token) (id : String) → Steps (fire_cancel_boundary definition t id)
  unfolding fire_cancel_boundary
  fire_cancel_boundary-Steps t id = search (boundary_rules, fire_boundary-Steps) depth 12

  compensate_in_transaction-Steps :
      (i : String) (t : Token) (id : String) (r : CompensationRecord)
      → Steps (compensate_in_transaction definition i t id r)
  unfolding compensate_in_transaction
  compensate_in_transaction-Steps i t id r = search boundary_rules depth 16

  cancel_transaction-Steps : (t : Token) (id : String) → Steps (cancel_transaction definition t id)
  unfolding cancel_transaction
  cancel_transaction-Steps t id =
      search (boundary_rules, compensate_in_transaction-Steps, fire_cancel_boundary-Steps) depth 24

  pub handle_transaction_cancel-Steps : (t : Token) → Steps (handle_transaction_cancel definition t)
  unfolding handle_transaction_cancel
  handle_transaction_cancel-Steps t = search (boundary_rules, cancel_transaction-Steps)

pub ruleset sub_process_rules = (
  boundary_rules, merge_nonempty-Steps, handle_sub_process-Steps,
  check_sub_process_completion-Steps, fire_cancel_boundary-Steps, handle_transaction_cancel-Steps,
)
