-- ===== src/Engine/InstanceCommands.antt =====
-- The commands that suspend, resume and cancel an instance, in engine/ExecutionEngine.ts.
use nexus_workflow.Common.{Bool, true, false, if◌then◌else◌}
use nexus_workflow.Model.Types.{is_live, InstanceStatus}
use nexus_workflow.Model.Events.{
  process_instance_resumed, process_instance_suspended, process_instance_terminated,
}
use nexus_workflow.Model.Errors.{cannot_suspend, cannot_resume}
use nexus_workflow.Engine.Monad.{Exec, throw, ◌>>=◌, ◌>>◌}
use nexus_workflow.Engine.Context.{emit, require_instance, set_instance}
use nexus_workflow.Engine.Boundaries.{cancel_where}

abbrev pub is_active_instance : InstanceStatus → Bool
is_active_instance InstanceStatus.active = true
is_active_instance _ = false

abbrev pub is_suspended_instance : InstanceStatus → Bool
is_suspended_instance InstanceStatus.suspended = true
is_suspended_instance _ = false

unfoldable pub handle_suspend_instance : Exec (Unit {0})
handle_suspend_instance = do
  i ← require_instance
  if is_active_instance i.status
      then (do
        set_instance (record i { status = InstanceStatus.suspended })
        emit (process_instance_suspended i.id))
      else throw (cannot_suspend i.status)

unfoldable pub handle_resume_instance : Exec (Unit {0})
handle_resume_instance = do
  i ← require_instance
  if is_suspended_instance i.status
      then (do
        set_instance (record i { status = InstanceStatus.active })
        emit (process_instance_resumed i.id))
      else throw (cannot_resume i.status)

unfoldable pub handle_cancel_instance : Exec (Unit {0})
handle_cancel_instance = do
  cancel_where (λ t. is_live t.status)
  i ← require_instance
  set_instance (record i { status = InstanceStatus.terminated })
  emit (process_instance_terminated i.id "cancelled by admin")
