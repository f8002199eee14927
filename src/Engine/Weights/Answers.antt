-- ===== src/Engine/Weights/Answers.antt =====
-- `execute` (Engine.Commands) answers: on a process without sub-processes, multi-instance activities
-- and compensation, whose elements have weights, no command runs out of a fuel that its state gives.
use nexus_workflow.Common.{
  ℕ, ◌+◌, ◌≤◌, String, Bool, true, false, not, ◌&&◌, ◌≡◌, ◌≢◌, refl, Option, none, some, [], arith,
  all, truthy,
}
use nexus_workflow.Common.Dict.{values, index_by}
use nexus_workflow.Model.Types.{VariableScope, ProcessInstance, Token}
use nexus_workflow.Model.Elements.{ProcessDefinition}
use nexus_workflow.Model.Errors.{Outcome, ok, threw, loops}
use nexus_workflow.Engine.State.{EngineState, ExecuteOptions, ExecutionContext, new_context}
use nexus_workflow.Engine.Monad.{map_outcome, continue, require, ◌>>=◌}
use nexus_workflow.Engine.Context.{to_result, require_instance}
use nexus_workflow.Engine.InstanceCommands.{
  handle_suspend_instance, handle_resume_instance, handle_cancel_instance,
}
use nexus_workflow.Engine.Commands.{
  EngineCommand, start_process, complete_service_task, fail_service_task, complete_user_task,
  fire_timer, deliver_message, broadcast_signal, suspend_instance, resume_instance, cancel_instance,
  dispatch, execute,
}
use nexus_workflow.Engine.Weights.{is_outer, Answers, Ready, total}
use nexus_workflow.Engine.Weights.Elements.{all_heavy}
use nexus_workflow.Engine.Weights.Contexts.{
  elements_weight, all-values-index_by, lookup-passes, total-index_by, is_known, all-known,
}
use nexus_workflow.Engine.Weights.Start.{handle_start_process-Halts}
use nexus_workflow.Engine.Weights.Tasks.{command_costs}
use nexus_workflow.Engine.Weights.Completion.{
  Ending-free, handle_complete_task-ends, handle_fail_service_task-ends,
}
use nexus_workflow.Engine.Weights.Triggers.{
  handle_deliver_message-ends, handle_broadcast_signal-ends,
}
use nexus_workflow.Engine.Weights.Timers.{handle_fire_timer-ends}

abbrev is_root : VariableScope → Bool
is_root s = not (truthy s.parent_scope_id)

-- A state without a sub-process: no token is in one, and no scope has a parent.
abbrev pub is_flat : Option EngineState → Bool
is_flat none = true
is_flat (some s) = all is_outer s.tokens && all is_root s.scopes

-- The weight of the tokens of a state.
abbrev pub state_weight : (String → ℕ) → Option EngineState → ℕ
state_weight weight none = 0
state_weight weight (some s) = total weight s.tokens

module _ (weight : String → ℕ) (definition : ProcessDefinition)
    (heavy : all_heavy weight definition definition.elements ≡ true) (options : ExecuteOptions)
    (answers : Answers options.evaluate) where
  -- What is known of the context in which a command begins.
  record Begins (fuel : ℕ) (c : ExecutionContext) : Type 0 where
    ready : Ready c
    empty : total weight c.pending_queue ≤ 0
    outer : all is_outer (values c.token_map) ≡ true
    light : total weight (values c.token_map) ≤ fuel
    known : all (is_known weight definition fuel) (values c.token_map) ≡ true

  new_context-Begins :
      (fuel : ℕ) (state : Option EngineState)
      → is_flat state ≡ true
      → state_weight weight state ≤ fuel
      → Begins fuel (new_context state options)
  unfolding new_context
  new_context-Begins fuel none h n = record {
    ready = record { answers = answers; rooted = λ id s e. absurd (cc); outer = refl };
    empty = omega arith;
    outer = refl;
    light = omega arith;
    known = refl;
  }
  new_context-Begins fuel (some s) h n =
      let tokens = index_by (λ (t : Token). t.id) [] s.tokens in
      let scopes = index_by (λ (x : VariableScope). x.id) [] s.scopes in
      let top : all is_outer (values tokens) ≡ true =
        all-values-index_by is_outer (λ t. t.id) [] s.tokens refl (ground arith) in
      let roots : all is_root (values scopes) ≡ true =
        all-values-index_by is_root (λ x. x.id) [] s.scopes refl (ground arith) in
      let small : total weight (values tokens) ≤ fuel =
        omega (arith, n, total-index_by weight (λ t. t.id) [] s.tokens) in
      record {
        ready = record {
          answers = answers;
          rooted = λ id x e. not_true _ (lookup-passes is_root id x scopes roots e);
          outer = refl;
        };
        empty = omega arith;
        outer = top;
        light = small;
        known = all-known weight definition fuel (values tokens) top small;
      }
    where
      not_true : (b : Bool) → not b ≡ true → b ≡ false
      not_true b k = ground arith

  dispatch-ends :
      (fuel : ℕ) (command : EngineCommand) (c : ExecutionContext)
      → elements_weight weight definition.elements ≤ fuel
      → Begins fuel c
      → dispatch fuel definition command c ≢ loops
  unfolding dispatch
  dispatch-ends fuel (start_process vars ck bk) c n b =
      (handle_start_process-Halts weight definition heavy fuel vars ck bk n).at c b.ready b.empty
  dispatch-ends fuel (complete_service_task id vars) c n b =
      handle_complete_task-ends weight definition heavy fuel id vars c b.ready b.empty b.known
  dispatch-ends fuel (fail_service_task id code message) c n b =
      handle_fail_service_task-ends weight definition heavy fuel id code message c n b.ready b.empty
        b.known
  dispatch-ends fuel (complete_user_task id by vars) c n b =
      handle_complete_task-ends weight definition heavy fuel id vars c b.ready b.empty b.known
  dispatch-ends fuel (fire_timer id) c n b =
      handle_fire_timer-ends weight definition heavy fuel id c b.ready b.empty b.known
  dispatch-ends fuel (deliver_message name vars) c n b =
      handle_deliver_message-ends weight definition heavy fuel name vars c b.ready b.empty b.outer
        b.light
  dispatch-ends fuel (broadcast_signal name vars) c n b =
      handle_broadcast_signal-ends weight definition heavy fuel name vars c b.ready b.empty b.outer
        b.light
  dispatch-ends fuel suspend_instance c n b =
      (Ending-free weight definition heavy fuel handle_suspend_instance
          (unfold handle_suspend_instance in search command_costs depth 12)).at
        c b.ready b.empty
  dispatch-ends fuel resume_instance c n b =
      (Ending-free weight definition heavy fuel handle_resume_instance
          (unfold handle_resume_instance in search command_costs depth 12)).at
        c b.ready b.empty
  dispatch-ends fuel cancel_instance c n b =
      (Ending-free weight definition heavy fuel handle_cancel_instance
          (unfold handle_cancel_instance in search command_costs depth 12)).at
        c b.ready b.empty

  to_result-ends : (c : ExecutionContext) → to_result c ≢ loops
  to_result-ends c = with_instance c.process_instance refl
    where
      with_instance : (o : Option ProcessInstance) → c.process_instance ≡ o → to_result c ≢ loops
      with_instance none e k =
          absurd (unfold to_result require_instance require ◌>>=◌ in ground arith)
      with_instance (some i) e k =
          absurd (unfold to_result require_instance require ◌>>=◌ in ground arith)

  result-ends :
      (r : Outcome (Unit {0} × ExecutionContext))
      → r ≢ loops
      → map_outcome (λ x. x.0) (continue r (λ _. to_result)) ≢ loops
  result-ends (ok (u, d)) h = answered (to_result d) (to_result-ends d)
    where
      answered : {A B : Type 0} (o : Outcome (A × B)) → o ≢ loops → map_outcome (λ x. x.0) o ≢ loops
      answered (ok x) k e = absurd (cc)
      answered (threw x) k e = absurd (cc)
      answered loops k e = k refl
  result-ends (threw x) h = λ e. absurd (cc)
  result-ends loops h = λ e. h refl

  -- On a process without sub-processes, multi-instance activities and compensation, whose elements have
  -- weights that bound what follows them (so that no path leads back to an element), and with an
  -- evaluator that answers every call, every command on a state without sub-processes has an answer, a
  -- result or an error: the fuel is enough when it is the weight of the elements and of the state's
  -- tokens, or more.
  pub execute-answers :
      (command : EngineCommand) (state : Option EngineState) (fuel : ℕ)
      → is_flat state ≡ true
      → elements_weight weight definition.elements + state_weight weight state ≤ fuel
      → execute fuel definition command state options ≢ loops
  unfolding execute ◌>>=◌
  execute-answers command state fuel flat enough =
      result-ends (dispatch fuel definition command (new_context state options)) (
        dispatch-ends fuel command (new_context state options) (omega (arith, enough))
          (new_context-Begins fuel state flat (omega (arith, enough))))
