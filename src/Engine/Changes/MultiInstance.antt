-- ===== src/Engine/Changes/MultiInstance.antt =====
-- The functions of Engine.MultiInstance are steps.
use nexus_workflow.Common.{ℕ, String, List, [], ◌∷◌}
use nexus_workflow.Model.Types.{Value, VariableValue, Variables, Token, LoopState}
use nexus_workflow.Model.Elements.{
  ProcessDefinition, BpmnFlowElement, MultiInstanceLoopCharacteristics,
}
use nexus_workflow.Engine.MultiInstance.{
  evaluate, spawn_multi_instance_child, complete_multi_instance, skip_multi_instance,
  start_sequential, start_parallel, start_multi_instance, handle_multi_instance_start,
  completion_condition_holds, next_iteration, handle_sequential_child_completion, stop_parallel,
  check_parallel_done, handle_parallel_child_completion, push_output, collect_output,
  complete_child, handle_multi_instance_child_completion,
}
use nexus_workflow.Engine.Changes.{Steps}
use nexus_workflow.Engine.Changes.Compensation.{compensation_rules}

evaluate-Steps : (e : String) (vars : Variables) → Steps (evaluate e vars)
unfolding evaluate
evaluate-Steps e vars = search compensation_rules

module _ (definition : ProcessDefinition) (e : BpmnFlowElement)
    (lc : MultiInstanceLoopCharacteristics) where
  spawn-Steps :
      (t : Token) (item : Value) → Steps (spawn_multi_instance_child definition e lc t item)
  unfolding spawn_multi_instance_child
  spawn-Steps t item = search compensation_rules depth 16

  complete-Steps : (t : Token) (n : ℕ) → Steps (complete_multi_instance definition e lc t n)
  unfolding complete_multi_instance
  complete-Steps t n = search compensation_rules depth 16

  skip_multi_instance-Steps : (t : Token) → Steps (skip_multi_instance definition e lc t)
  unfolding skip_multi_instance
  skip_multi_instance-Steps t = search compensation_rules depth 16

  start_sequential-Steps :
      (t w : Token) (first : Value) (rest : List Value)
      → Steps (start_sequential definition e lc t w first rest)
  unfolding start_sequential
  start_sequential-Steps t w first rest = search (compensation_rules, spawn-Steps) depth 16

  start_parallel-Steps :
      (t : Token) (items : List Value) → Steps (start_parallel definition e lc t items)
  unfolding start_parallel
  start_parallel-Steps t items = search (compensation_rules, spawn-Steps) depth 16

  start_multi_instance-Steps :
      (t : Token) (items : List Value) → Steps (start_multi_instance definition e lc t items)
  unfolding start_multi_instance
  start_multi_instance-Steps t [] = skip_multi_instance-Steps t
  start_multi_instance-Steps t (first ∷ rest) =
      search (compensation_rules, start_sequential-Steps, start_parallel-Steps) depth 16

  pub handle_multi_instance_start-Steps :
      (t : Token) → Steps (handle_multi_instance_start definition e lc t)
  unfolding handle_multi_instance_start
  handle_multi_instance_start-Steps t =
      search (compensation_rules, evaluate-Steps, start_multi_instance-Steps) depth 12

  condition-Steps : (t : Token) → Steps (completion_condition_holds definition e lc t)
  unfolding completion_condition_holds
  condition-Steps t = search (compensation_rules, evaluate-Steps) depth 12

  next_iteration-Steps :
      (t : Token) (l : LoopState) (n : ℕ) → Steps (next_iteration definition e lc t l n)
  unfolding next_iteration
  next_iteration-Steps t l n = search (compensation_rules, complete-Steps, spawn-Steps) depth 12

  sequential-Steps : (c p : Token) → Steps (handle_sequential_child_completion definition e lc c p)
  unfolding handle_sequential_child_completion
  sequential-Steps c p =
      search (compensation_rules, condition-Steps, complete-Steps, next_iteration-Steps) depth 12

  stop_parallel-Steps : (p : Token) → Steps (stop_parallel definition e lc p)
  unfolding stop_parallel
  stop_parallel-Steps p = search (compensation_rules, complete-Steps) depth 16

  check_parallel_done-Steps : (p : Token) → Steps (check_parallel_done definition e lc p)
  unfolding check_parallel_done
  check_parallel_done-Steps p = search (compensation_rules, complete-Steps) depth 12

  parallel-Steps : (c p : Token) → Steps (handle_parallel_child_completion definition e lc c p)
  unfolding handle_parallel_child_completion
  parallel-Steps c p =
      search (compensation_rules, condition-Steps, stop_parallel-Steps, check_parallel_done-Steps)
        depth 12

  push_output-Steps : (p : Token) (v : VariableValue) → Steps (push_output definition e lc p v)
  unfolding push_output
  push_output-Steps p v = search compensation_rules depth 12

  collect_output-Steps : (c p : Token) → Steps (collect_output definition e lc c p)
  unfolding collect_output
  collect_output-Steps c p = search (compensation_rules, push_output-Steps) depth 12

  complete_child-Steps : (c p : Token) → Steps (complete_child definition e lc c p)
  unfolding complete_child
  complete_child-Steps c p =
      search (compensation_rules, collect_output-Steps, sequential-Steps, parallel-Steps) depth 12

  pub handle_multi_instance_child_completion-Steps :
      (c : Token) → Steps (handle_multi_instance_child_completion definition e lc c)
  unfolding handle_multi_instance_child_completion
  handle_multi_instance_child_completion-Steps c =
      search (compensation_rules, complete_child-Steps) depth 12

pub ruleset multi_instance_rules = (
  compensation_rules, handle_multi_instance_start-Steps,
  handle_multi_instance_child_completion-Steps,
)
