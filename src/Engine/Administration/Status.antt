-- ===== src/Engine/Administration/Status.antt =====
-- `SuspendInstance` and `ResumeInstance` of engine/ExecutionEngine.ts.
use nexus_workflow.Common.{ℕ, some, [], ◌∷◌, ◌≡◌, ap, sym, ◌∙◌, arith, if◌then◌else◌}
use nexus_workflow.Common.Dict.Rebuild.{values-index_by}
use nexus_workflow.Model.Types.{InstanceStatus, join_gateway_id}
use nexus_workflow.Model.Elements.{ProcessDefinition}
use nexus_workflow.Model.Events.{process_instance_suspended, process_instance_resumed}
use nexus_workflow.Model.Errors.{ok, threw, cannot_suspend, cannot_resume}
use nexus_workflow.Engine.State.{EngineState, EngineResult, ExecuteOptions, new_context}
use nexus_workflow.Engine.Monad.{require, ◌>>=◌}
use nexus_workflow.Engine.Context.{require_instance, set_instance, emit, to_result}
use nexus_workflow.Engine.InstanceCommands.{
  is_active_instance, is_suspended_instance, handle_suspend_instance, handle_resume_instance,
}
use nexus_workflow.Engine.Commands.{suspend_instance, resume_instance, dispatch, execute}
use nexus_workflow.Engine.Safety.Tokens.{IsWellFormed}

-- The state in which only the instance is another.
abbrev pub with_status : InstanceStatus → EngineState → EngineState
with_status status s = record s { process_instance = record s.process_instance { status = status } }

abbrev pub after_suspend : EngineState → EngineResult
after_suspend s = record {
  new_state = with_status InstanceStatus.suspended s;
  events = process_instance_suspended s.process_instance.id ∷ [];
}

abbrev pub after_resume : EngineState → EngineResult
after_resume s = record {
  new_state = with_status InstanceStatus.active s;
  events = process_instance_resumed s.process_instance.id ∷ [];
}

module _ (fuel : ℕ) (definition : ProcessDefinition) (options : ExecuteOptions) where
  execute-suspend :
      (s : EngineState)
      → IsWellFormed s
      → execute fuel definition suspend_instance (some s) options ≡ (
          if is_active_instance s.process_instance.status
          then ok (after_suspend s)
          else threw (cannot_suspend s.process_instance.status))
  unfolding execute dispatch new_context handle_suspend_instance require_instance require
      set_instance emit to_result ◌>>=◌
  execute-suspend s w = ground (
    arith,
    values-index_by (λ t. t.id) s.tokens w.distinct_tokens,
    values-index_by (λ x. x.id) s.scopes w.distinct_scopes,
    values-index_by join_gateway_id s.gateway_join_states w.distinct_joins,
  )

  execute-resume :
      (s : EngineState)
      → IsWellFormed s
      → execute fuel definition resume_instance (some s) options ≡ (
          if is_suspended_instance s.process_instance.status
          then ok (after_resume s)
          else threw (cannot_resume s.process_instance.status))
  unfolding execute dispatch new_context handle_resume_instance require_instance require
      set_instance emit to_result ◌>>=◌
  execute-resume s w = ground (
    arith,
    values-index_by (λ t. t.id) s.tokens w.distinct_tokens,
    values-index_by (λ x. x.id) s.scopes w.distinct_scopes,
    values-index_by join_gateway_id s.gateway_join_states w.distinct_joins,
  )

  -- `SuspendInstance` and `ResumeInstance` on a well-formed state, in all cases: the one is accepted when
  -- the instance is active, the other when it is suspended; then only the status changes, to suspended
  -- or to active, and one event says so. With any other status they throw.
  pub execute-changes_status :
      (s : EngineState)
      → IsWellFormed s
      → (execute fuel definition suspend_instance (some s) options ≡ (
          if is_active_instance s.process_instance.status
          then ok (after_suspend s)
          else threw (cannot_suspend s.process_instance.status)))
        × (execute fuel definition resume_instance (some s) options ≡ (
            if is_suspended_instance s.process_instance.status
            then ok (after_resume s)
            else threw (cannot_resume s.process_instance.status)))
  execute-changes_status s w = (execute-suspend s w, execute-resume s w)

  -- A well-formed state whose instance has been suspended is, when it is resumed, the state that it
  -- was before.
  pub resume-suspend :
      (s : EngineState) (r : EngineResult)
      → IsWellFormed s
      → execute fuel definition suspend_instance (some s) options ≡ ok r
      → execute fuel definition resume_instance (some r.new_state) options
        ≡ ok
            (record { new_state = s; events = process_instance_resumed s.process_instance.id ∷ [] })
  resume-suspend s r w h =
      let (was_active, e) =
        suspended_from s.process_instance.status (sym (execute-suspend s w) ∙ h) in
      ap (λ state. execute fuel definition resume_instance (some state) options)
        (ap (λ x. x.new_state) e)
      ∙ execute-resume (with_status InstanceStatus.suspended s) (record {
        distinct_tokens = w.distinct_tokens;
        distinct_scopes = w.distinct_scopes;
        distinct_joins = w.distinct_joins;
      })
      ∙ ap
          (λ status. ok (record {
            new_state = with_status status s;
            events = process_instance_resumed s.process_instance.id ∷ [];
          }))
          (sym was_active)
    where
      suspended_from :
          (status : InstanceStatus)
          → (if is_active_instance status
              then ok (after_suspend s)
              else threw (cannot_suspend s.process_instance.status))
            ≡ ok r
          → (status ≡ InstanceStatus.active) × (r ≡ after_suspend s)
      suspended_from status k = ground arith
