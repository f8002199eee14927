-- ===== src/Engine/Changes/Commands.antt =====
-- The commands (Engine.InstanceCommands, TaskCommands and EventCommands) are steps.
use nexus_workflow.Common.{ℕ, String, true, Option, none, some, arith}
use nexus_workflow.Model.Types.{Variables, Token, ProcessInstance, ProcessError, InstanceStatus}
use nexus_workflow.Model.Elements.{
  ProcessDefinition, BpmnFlowElement, MultiInstanceLoopCharacteristics, boundary_event,
}
use nexus_workflow.Engine.Definition.{Boundary}
use nexus_workflow.Engine.Moves.{skip}
use nexus_workflow.Engine.InstanceCommands.{
  is_active_instance, is_suspended_instance, handle_suspend_instance, handle_resume_instance,
  handle_cancel_instance,
}
use nexus_workflow.Engine.TaskCommands.{
  require_waiting, emit_service_task_completed, auto_resume, merge_given, complete_plain_task,
  complete_child_task, complete_handler_or_plain, complete_with_parent, complete_task,
  handle_complete_task, catch_failure, suspend_on_failure, handle_fail_service_task,
}
use nexus_workflow.Engine.EventCommands.{
  fire_boundary_timer, handle_fire_timer, trigger_waiting, handle_deliver_message,
  handle_broadcast_signal,
}
use nexus_workflow.Engine.Changes.{SameIdentity, Steps}
use nexus_workflow.Engine.Changes.Rules.{Steps-pure, Steps-bind, Steps-throw, Steps-set_instance}
use nexus_workflow.Engine.Changes.Primitives.{emit-Steps}
use nexus_workflow.Engine.Changes.Boundaries.{cancel_where-Steps}
use nexus_workflow.Engine.Changes.MultiInstance.{multi_instance_rules}
use nexus_workflow.Engine.Changes.Handlers.{run_loop-Steps}

SameIdentity-status :
    (s : InstanceStatus) (i : ProcessInstance) → SameIdentity i (record i { status = s })
SameIdentity-status s i = ground arith

SameIdentity-failed :
    (s : InstanceStatus) (e : Option ProcessError) (i : ProcessInstance)
    → SameIdentity i (record i { status = s; error_info = e })
SameIdentity-failed s e i = ground arith

pub handle_suspend_instance-Steps : Steps handle_suspend_instance
unfolding handle_suspend_instance
handle_suspend_instance-Steps =
    Steps-set_instance (λ i. is_active_instance i.status) _ _ _
      (SameIdentity-status InstanceStatus.suspended) (λ i. emit-Steps _) (λ i. Steps-throw _)

pub handle_resume_instance-Steps : Steps handle_resume_instance
unfolding handle_resume_instance
handle_resume_instance-Steps =
    Steps-set_instance (λ i. is_suspended_instance i.status) _ _ _
      (SameIdentity-status InstanceStatus.active) (λ i. emit-Steps _) (λ i. Steps-throw _)

pub handle_cancel_instance-Steps : Steps handle_cancel_instance
unfolding handle_cancel_instance
handle_cancel_instance-Steps = Steps-bind _ _ (cancel_where-Steps _) λ _.
    Steps-set_instance (λ i. true) _ _ (λ i. skip) (SameIdentity-status InstanceStatus.terminated)
      (λ i. emit-Steps _) (λ i. Steps-pure tt)

auto_resume-Steps : Steps auto_resume
unfolding auto_resume
auto_resume-Steps =
    Steps-set_instance (λ i. is_suspended_instance i.status) _ _ _
      (SameIdentity-status InstanceStatus.active) (λ i. emit-Steps _) (λ i. Steps-pure tt)

require_waiting-Steps : (id : String) (t : Token) → Steps (require_waiting id t)
unfolding require_waiting
require_waiting-Steps id t = search multi_instance_rules

emit_service_task_completed-Steps : (t : Token) → Steps (emit_service_task_completed t)
unfolding emit_service_task_completed
emit_service_task_completed-Steps t = search multi_instance_rules

merge_given-Steps : (id : String) (vars : Option Variables) → Steps (merge_given id vars)
merge_given-Steps id none = search multi_instance_rules
merge_given-Steps id (some vars) = search multi_instance_rules

ruleset command_rules = (
  multi_instance_rules, run_loop-Steps, auto_resume-Steps, require_waiting-Steps,
  emit_service_task_completed-Steps, merge_given-Steps,
)

module _ (fuel : ℕ) (definition : ProcessDefinition) where
  complete_plain_task-Steps :
      (t : Token) (e : BpmnFlowElement) → Steps (complete_plain_task fuel definition t e)
  unfolding complete_plain_task
  complete_plain_task-Steps t e = search command_rules depth 12

  complete_child_task-Steps :
      (t : Token) (e : BpmnFlowElement) (lc : MultiInstanceLoopCharacteristics)
      → Steps (complete_child_task fuel definition t e lc)
  unfolding complete_child_task
  complete_child_task-Steps t e lc = search command_rules depth 12

  complete_handler_or_plain-Steps :
      (t : Token) (e : BpmnFlowElement) (p : Token)
      → Steps (complete_handler_or_plain fuel definition t e p)
  unfolding complete_handler_or_plain
  complete_handler_or_plain-Steps t e p = search (command_rules, complete_plain_task-Steps) depth 12

  complete_with_parent-Steps :
      (t : Token) (e : BpmnFlowElement) (p : Token)
      → Steps (complete_with_parent fuel definition t e p)
  unfolding complete_with_parent
  complete_with_parent-Steps t e p =
      search (command_rules, complete_handler_or_plain-Steps, complete_child_task-Steps)

  complete_task-Steps :
      (t : Token) (e : BpmnFlowElement) → Steps (complete_task fuel definition t e)
  unfolding complete_task
  complete_task-Steps t e =
      search (command_rules, complete_plain_task-Steps, complete_with_parent-Steps) depth 12

  pub handle_complete_task-Steps :
      (id : String) (vars : Option Variables) → Steps (handle_complete_task fuel definition id vars)
  unfolding handle_complete_task
  handle_complete_task-Steps id vars = search (command_rules, complete_task-Steps) depth 16

  catch_failure-Steps :
      (t : Token) (code : String) (b : Boundary) → Steps (catch_failure fuel definition t code b)
  unfolding catch_failure
  catch_failure-Steps t code b = search command_rules depth 20

  suspend_on_failure-Steps :
      (t : Token) (code message : String) → Steps (suspend_on_failure t code message)
  unfolding suspend_on_failure
  suspend_on_failure-Steps t code message =
      Steps-set_instance (λ i. true) _ _ (λ i. skip)
        (SameIdentity-failed InstanceStatus.suspended _) (λ i. search command_rules)
        (λ i. Steps-pure tt)

  pub handle_fail_service_task-Steps :
      (id code message : String) → Steps (handle_fail_service_task fuel definition id code message)
  unfolding handle_fail_service_task
  handle_fail_service_task-Steps id code message =
      search (command_rules, catch_failure-Steps, suspend_on_failure-Steps) depth 16

  fire_boundary_timer-Steps :
      (id : String) (t : Token) (e : BpmnFlowElement)
      → Steps (fire_boundary_timer fuel definition id t e)
  unfolding fire_boundary_timer
  fire_boundary_timer-Steps id t (boundary_event b e) = search command_rules depth 12
  fire_boundary_timer-Steps id t _ = search command_rules depth 12

  pub handle_fire_timer-Steps : (id : String) → Steps (handle_fire_timer fuel definition id)
  unfolding handle_fire_timer
  handle_fire_timer-Steps id =
      search (command_rules, fire_boundary_timer-Steps, handle_complete_task-Steps) depth 16

  trigger_waiting-Steps :
      (vars : Option Variables) (t : Token) → Steps (trigger_waiting definition vars t)
  unfolding trigger_waiting
  trigger_waiting-Steps vars t = search command_rules depth 16

  pub handle_deliver_message-Steps :
      (name : String) (vars : Option Variables)
      → Steps (handle_deliver_message fuel definition name vars)
  unfolding handle_deliver_message
  handle_deliver_message-Steps name vars = search (command_rules, trigger_waiting-Steps) depth 12

  pub handle_broadcast_signal-Steps :
      (name : String) (vars : Option Variables)
      → Steps (handle_broadcast_signal fuel definition name vars)
  unfolding handle_broadcast_signal
  handle_broadcast_signal-Steps name vars = search (command_rules, trigger_waiting-Steps) depth 12
