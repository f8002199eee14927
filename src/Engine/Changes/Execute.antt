-- ===== src/Engine/Changes/Execute.antt =====
-- `execute` (Engine.Commands) as a sequence of steps from the context that it makes of the given state.
use nexus_workflow.Common.{ℕ, String, Option, none, some, ◌≡◌, refl, ap, ◌∙◌, arith}
use nexus_workflow.Common.Dict.{values}
use nexus_workflow.Model.Types.{Variables}
use nexus_workflow.Model.Elements.{ProcessDefinition}
use nexus_workflow.Model.Errors.{Outcome, ok, threw, loops}
use nexus_workflow.Engine.State.{
  EngineState, EngineResult, ExecuteOptions, ExecutionContext, new_context,
}
use nexus_workflow.Engine.Monad.{map_outcome, continue, require, ◌>>=◌}
use nexus_workflow.Engine.Context.{now, new_id, set_instance, require_instance, to_result}
use nexus_workflow.Engine.Scopes.{save_scope}
use nexus_workflow.Engine.Commands.{
  EngineCommand, start_process, complete_service_task, fail_service_task, complete_user_task,
  fire_timer, deliver_message, broadcast_signal, suspend_instance, resume_instance, cancel_instance,
  run_from_start, handle_start_process, dispatch, execute,
}
use nexus_workflow.Engine.Changes.{
  ticked, named, put_scope, began, Changes, next, here, Ends, Steps,
}
use nexus_workflow.Engine.Changes.Rules.{Ends-trans}
use nexus_workflow.Engine.Changes.MultiInstance.{multi_instance_rules}
use nexus_workflow.Engine.Changes.Handlers.{run_loop-Steps}
use nexus_workflow.Engine.Changes.Commands.{
  handle_suspend_instance-Steps, handle_resume_instance-Steps, handle_cancel_instance-Steps,
  handle_complete_task-Steps, handle_fail_service_task-Steps, handle_fire_timer-Steps,
  handle_deliver_message-Steps, handle_broadcast_signal-Steps,
}

-- `StartProcess` comes with no state, as the callers of `execute` give it.
abbrev pub Fits : EngineCommand → Option EngineState → Type 0
Fits (start_process vars ck bk) (some state) = ⊥
Fits command state = Unit

module _ (fuel : ℕ) (definition : ProcessDefinition) where
  run_from_start-Steps :
      (instance_id scope_id : String) → Steps (run_from_start fuel definition instance_id scope_id)
  unfolding run_from_start
  run_from_start-Steps instance_id scope_id = search (multi_instance_rules, run_loop-Steps) depth 16

  start-Ends :
      (vars : Option Variables) (ck bk : Option String) (c : ExecutionContext)
      → c.process_instance ≡ none
      → Ends c (handle_start_process fuel definition vars ck bk c)
  unfolding handle_start_process now new_id save_scope set_instance ◌>>=◌
  start-Ends vars ck bk c e =
      Ends-trans _
        (next (next (next (next (next here (ticked c)) (named _)) (named _)) (put_scope _ _))
          (began _ _ e))
        ((run_from_start-Steps _ _).at _)

  dispatch-Ends :
      (command : EngineCommand) (state : Option EngineState) (options : ExecuteOptions)
      → Fits command state
      → Ends
          (new_context state options)
          (dispatch fuel definition command (new_context state options))
  unfolding dispatch new_context
  dispatch-Ends (start_process vars ck bk) none options h = start-Ends vars ck bk _ refl
  dispatch-Ends (start_process vars ck bk) (some state) options h = elim h [ ]
  dispatch-Ends (complete_service_task id vars) state options h =
      (handle_complete_task-Steps fuel definition id vars).at _
  dispatch-Ends (fail_service_task id code message) state options h =
      (handle_fail_service_task-Steps fuel definition id code message).at _
  dispatch-Ends (complete_user_task id by vars) state options h =
      (handle_complete_task-Steps fuel definition id vars).at _
  dispatch-Ends (fire_timer id) state options h = (handle_fire_timer-Steps fuel definition id).at _
  dispatch-Ends (deliver_message name vars) state options h =
      (handle_deliver_message-Steps fuel definition name vars).at _
  dispatch-Ends (broadcast_signal name vars) state options h =
      (handle_broadcast_signal-Steps fuel definition name vars).at _
  dispatch-Ends suspend_instance state options h = handle_suspend_instance-Steps.at _
  dispatch-Ends resume_instance state options h = handle_resume_instance-Steps.at _
  dispatch-Ends cancel_instance state options h = handle_cancel_instance-Steps.at _

-- The result is what the last context holds.
pub record IsResultOf (c : ExecutionContext) (r : EngineResult) : Type 0 where
  pub of_instance : c.process_instance ≡ some r.new_state.process_instance
  pub of_tokens : r.new_state.tokens ≡ values c.token_map
  pub of_scopes : r.new_state.scopes ≡ values c.scope_map
  pub of_joins : r.new_state.gateway_join_states ≡ values c.join_state_map
  pub of_records : r.new_state.compensation_records ≡ c.compensation_list
  pub of_events : r.events ≡ c.events

to_result-IsResultOf :
    (c d : ExecutionContext) (r : EngineResult) → to_result c ≡ ok (r, d) → IsResultOf c r
unfolding to_result require_instance require ◌>>=◌
to_result-IsResultOf c d r h = ground arith

-- A command that returns has taken steps from the context of its state to that of its result.
pub execute-Changes :
    (fuel : ℕ) (definition : ProcessDefinition) (command : EngineCommand)
    (state : Option EngineState) (options : ExecuteOptions) (r : EngineResult)
    → Fits command state
    → execute fuel definition command state options ≡ ok r
    → (c : ExecutionContext) × Changes (new_context state options) c × IsResultOf c r
unfolding execute ◌>>=◌
execute-Changes fuel definition command state options r fits h =
    go (dispatch fuel definition command (new_context state options))
      (dispatch-Ends fuel definition command state options fits) h
  where
    finish :
        (c : ExecutionContext) (o : Outcome (EngineResult × ExecutionContext))
        → to_result c ≡ o
        → map_outcome (λ x. x.0) o ≡ ok r
        → IsResultOf c r
    finish c (ok (s, d)) e k = to_result-IsResultOf c d r (e ∙ ap (λ x. ok (x, d)) (inj k))
      where
        inj : ok s ≡ ok r → s ≡ r
        inj q = cc
    finish c (threw x) e k = absurd (cc)
    finish c loops e k = absurd (cc)

    go :
        (o : Outcome (Unit {0} × ExecutionContext))
        → Ends (new_context state options) o
        → map_outcome (λ x. x.0) (continue o (λ _. to_result)) ≡ ok r
        → (c : ExecutionContext) × Changes (new_context state options) c × IsResultOf c r
    go (ok (u, c)) p k = (c, p, finish c (to_result c) refl k)
    go (threw x) p k = absurd (cc)
    go loops p k = absurd (cc)
