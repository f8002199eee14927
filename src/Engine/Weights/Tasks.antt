-- ===== src/Engine/Weights/Tasks.antt =====
-- The commands that complete and fail a task (Engine.TaskCommands) on a process without sub-processes,
-- multi-instance activities and compensation, whose elements have weights.
use nexus_workflow.Common.{ℕ, String, Bool, ◌≡◌, refl, Option, none, some, [], ◌∷◌, arith}
use nexus_workflow.Common.Dict.{lookup, assign}
use nexus_workflow.Model.Types.{Variables, VariableScope, Token, CompensationRecord}
use nexus_workflow.Model.Elements.{BpmnFlowElement, ProcessDefinition}
use nexus_workflow.Engine.State.{ExecutionContext}
use nexus_workflow.Engine.Monad.{modify, require, ◌>>=◌}
use nexus_workflow.Engine.Scopes.{merge_variables}
use nexus_workflow.Engine.Records.{add_compensation_record}
use nexus_workflow.Engine.Boundaries.{
  cancel_where, cancel_boundary_tokens_for, cancel_host_task_and_boundaries,
}
use nexus_workflow.Engine.Compensation.{record_compensation, record_compensation_if_needed}
use nexus_workflow.Engine.TaskCommands.{
  require_waiting, emit_service_task_completed, auto_resume, merge_given, suspend_on_failure,
}
use nexus_workflow.Engine.Weights.{Ready, Spends, Costs}
use nexus_workflow.Engine.Weights.Rules.{Ready-insert, Costs-modify}
use nexus_workflow.Engine.Weights.Moves.{
  token_costs, flows_weight, advance_token-Costs, move_token_to_flows-Costs, element_id-found,
}

module _ (weight : String → ℕ) where
  pub cancel_where-Costs : (k : ℕ) (chosen : Token → Bool) → Costs weight k (cancel_where chosen)
  unfolding cancel_where
  cancel_where-Costs k chosen = search token_costs depth 16

  pub cancel_boundary_tokens_for-Costs :
      (k : ℕ) (id : String) → Costs weight k (cancel_boundary_tokens_for id)
  unfolding cancel_boundary_tokens_for
  cancel_boundary_tokens_for-Costs k id = search cancel_where-Costs

  pub cancel_host_task-Costs :
      (k : ℕ) (id firing : String) → Costs weight k (cancel_host_task_and_boundaries id firing)
  unfolding cancel_host_task_and_boundaries
  cancel_host_task-Costs k id firing = search cancel_where-Costs

  add_compensation_record-Costs :
      (k : ℕ) (r : CompensationRecord) → Costs weight k (add_compensation_record r)
  unfolding add_compensation_record
  add_compensation_record-Costs k r = Costs-modify weight k _ (λ c. refl) (λ c. refl) (λ c. refl)

  pub require_waiting-Costs :
      (k : ℕ) (id : String) (t : Token) → Costs weight k (require_waiting id t)
  unfolding require_waiting
  require_waiting-Costs k id t = search token_costs

  pub emit_completed-Costs : (k : ℕ) (t : Token) → Costs weight k (emit_service_task_completed t)
  unfolding emit_service_task_completed
  emit_completed-Costs k t = search token_costs

  pub auto_resume-Costs : (k : ℕ) → Costs weight k auto_resume
  unfolding auto_resume
  auto_resume-Costs k = search token_costs depth 12

  pub suspend_on_failure-Costs :
      (k : ℕ) (t : Token) (code message : String)
      → Costs weight k (suspend_on_failure t code message)
  unfolding suspend_on_failure
  suspend_on_failure-Costs k t code message = search token_costs depth 16

  -- A merge keeps the parent of the scope.
  merge_variables-Costs :
      (k : ℕ) (id : String) (vars : Variables) → Costs weight k (merge_variables id vars)
  unfolding merge_variables require modify ◌>>=◌
  merge_variables-Costs k id vars = record { at = λ c r. found c r (lookup id c.scope_map) refl }
    where
      found :
          (c : ExecutionContext) (r : Ready c) (o : Option VariableScope)
          → lookup id c.scope_map ≡ o
          → Spends weight k c (merge_variables id vars c)
      found c r none e = rw e tt
      found c r (some s) e = rw e (
        Ready-insert c id (record s { variables = assign s.variables vars }) (r.rooted id s e) r,
        omega arith,
      )

  pub merge_given-Costs :
      (k : ℕ) (id : String) (vars : Option Variables) → Costs weight k (merge_given id vars)
  merge_given-Costs k id none = search token_costs
  merge_given-Costs k id (some []) = search token_costs
  merge_given-Costs k id (some (v ∷ vars)) = search (token_costs, merge_variables-Costs)

  pub ruleset command_costs = (
    token_costs, cancel_where-Costs, cancel_boundary_tokens_for-Costs, cancel_host_task-Costs,
    require_waiting-Costs, emit_completed-Costs, auto_resume-Costs, suspend_on_failure-Costs,
    merge_given-Costs,
  )

module _ (weight : String → ℕ) (definition : ProcessDefinition) where
  record_compensation-Costs :
      (k : ℕ) (t : Token) (id : String) (handler : Option String)
      → Costs weight k (record_compensation definition t id handler)
  unfolding record_compensation
  record_compensation-Costs k t id handler =
      search (command_costs, add_compensation_record-Costs) depth 16

  pub record_if_needed-Costs :
      (k : ℕ) (t : Token) (e : BpmnFlowElement)
      → Costs weight k (record_compensation_if_needed definition t e)
  unfolding record_compensation_if_needed
  record_if_needed-Costs k t e = search (command_costs, record_compensation-Costs) depth 16
