-- ===== src/Engine/Safety/Fuel.antt =====
-- The fuel of `execute` (engine/ExecutionEngine.ts): commands with more of it.
use nexus_workflow.Common.{
  ℕ, zero, suc, ◌+◌, String, Bool, true, false, Option, none, some, ◌≡◌, ◌≢◌, refl, ap, sym, ◌∙◌,
  arith, if◌then◌else◌, case_option,
}
use nexus_workflow.Model.Types.{Variables, Token}
use nexus_workflow.Model.Elements.{
  ProcessDefinition, BpmnFlowElement, MultiInstanceLoopCharacteristics, boundary_event,
}
use nexus_workflow.Model.Errors.{Outcome, ok, threw, loops}
use nexus_workflow.Engine.State.{EngineState, ExecuteOptions, ExecutionContext, new_context}
use nexus_workflow.Engine.Monad.{Exec, map_outcome, continue, ◌>>=◌}
use nexus_workflow.Engine.Context.{dequeue_pending, to_result}
use nexus_workflow.Engine.Definition.{Boundary}
use nexus_workflow.Engine.Handlers.{process_token}
use nexus_workflow.Engine.Loop.{run_loop}
use nexus_workflow.Engine.TaskCommands.{
  complete_plain_task, complete_child_task, complete_handler_or_plain, complete_with_parent,
  complete_task, handle_complete_task, catch_failure, handle_fail_service_task,
}
use nexus_workflow.Engine.EventCommands.{
  fire_boundary_timer, handle_fire_timer, handle_deliver_message, handle_broadcast_signal,
}
use nexus_workflow.Engine.Commands.{
  EngineCommand, start_process, complete_service_task, fail_service_task, complete_user_task,
  fire_timer, deliver_message, broadcast_signal, suspend_instance, resume_instance, cancel_instance,
  run_from_start, handle_start_process, dispatch, execute,
}
use nexus_workflow.Engine.Safety.Queue.{run_loop_from-more}

-- Where the first does not run out of fuel, the second does the same.
record Extends {A : Type 0} (m n : Exec A) : Type 0 where
  at : (c : ExecutionContext) → m c ≢ loops → n c ≡ m c

Extends-same : {A : Type 0} (m : Exec A) → Extends m m
Extends-same m = record { at = λ c h. refl }

Extends-if :
    {A : Type 0} (b : Bool) (m n m' n' : Exec A)
    → Extends m m'
    → Extends n n'
    → Extends (if b then m else n) (if b then m' else n')
Extends-if true m n m' n' s t = s
Extends-if false m n m' n' s t = t

Extends-option :
    {A B : Type 0} (o : Option B) (m m' : Exec A) (f f' : B → Exec A)
    → Extends m m'
    → ((b : B) → Extends (f b) (f' b))
    → Extends (case_option o m f) (case_option o m' f')
Extends-option none m m' f f' s t = s
Extends-option (some b) m m' f f' s t = t b

module _ {A B : Type 0} where
  continue-Extends :
      (r s : Outcome (A × ExecutionContext)) (f f' : A → Exec B)
      → (r ≢ loops → s ≡ r)
      → ((a : A) → Extends (f a) (f' a))
      → continue r f ≢ loops
      → continue s f' ≡ continue r f
  continue-Extends (ok (a, d)) s f f' e t h =
      ap (λ o. continue o f') (e (λ k. absurd (cc))) ∙ (t a).at d h
  continue-Extends (threw x) s f f' e t h = ap (λ o. continue o f') (e (λ k. absurd (cc)))
  continue-Extends loops s f f' e t h = elim (h refl) [ ]

  Extends-bind :
      (m m' : Exec A) (f f' : A → Exec B)
      → Extends m m'
      → ((a : A) → Extends (f a) (f' a))
      → Extends (m >>= f) (m' >>= f')
  unfolding ◌>>=◌
  Extends-bind m m' f f' s t = record {
    at = λ c h. continue-Extends (m c) (m' c) f f' (s.at c) t h;
  }

ruleset extends_rules = (Extends-same, Extends-if, Extends-option, Extends-bind)

module _ (fuel : ℕ) (definition : ProcessDefinition) where
  run_loop-Extends : Extends (run_loop fuel definition) (run_loop (suc fuel) definition)
  unfolding run_loop
  run_loop-Extends =
      Extends-bind dequeue_pending dequeue_pending _ _ (Extends-same dequeue_pending)
        (λ o. record { at = λ c h. run_loop_from-more (process_token definition) fuel o c h })

  complete_plain_task-Extends :
      (t : Token) (e : BpmnFlowElement)
      → Extends
          (complete_plain_task fuel definition t e)
          (complete_plain_task (suc fuel) definition t e)
  unfolding complete_plain_task
  complete_plain_task-Extends t e = search (extends_rules, run_loop-Extends) depth 16

  complete_child_task-Extends :
      (t : Token) (e : BpmnFlowElement) (lc : MultiInstanceLoopCharacteristics)
      → Extends
          (complete_child_task fuel definition t e lc)
          (complete_child_task (suc fuel) definition t e lc)
  unfolding complete_child_task
  complete_child_task-Extends t e lc = search (extends_rules, run_loop-Extends) depth 16

  complete_handler_or_plain-Extends :
      (t : Token) (e : BpmnFlowElement) (p : Token)
      → Extends
          (complete_handler_or_plain fuel definition t e p)
          (complete_handler_or_plain (suc fuel) definition t e p)
  unfolding complete_handler_or_plain
  complete_handler_or_plain-Extends t e p =
      search (extends_rules, run_loop-Extends, complete_plain_task-Extends) depth 16

  complete_with_parent-Extends :
      (t : Token) (e : BpmnFlowElement) (p : Token)
      → Extends
          (complete_with_parent fuel definition t e p)
          (complete_with_parent (suc fuel) definition t e p)
  unfolding complete_with_parent
  complete_with_parent-Extends t e p =
      search (extends_rules, complete_handler_or_plain-Extends, complete_child_task-Extends) depth
        16

  complete_task-Extends :
      (t : Token) (e : BpmnFlowElement)
      → Extends (complete_task fuel definition t e) (complete_task (suc fuel) definition t e)
  unfolding complete_task
  complete_task-Extends t e =
      search (extends_rules, complete_plain_task-Extends, complete_with_parent-Extends) depth 16

  handle_complete_task-Extends :
      (id : String) (vars : Option Variables)
      → Extends
          (handle_complete_task fuel definition id vars)
          (handle_complete_task (suc fuel) definition id vars)
  unfolding handle_complete_task
  handle_complete_task-Extends id vars = search (extends_rules, complete_task-Extends) depth 16

  catch_failure-Extends :
      (t : Token) (code : String) (b : Boundary)
      → Extends
          (catch_failure fuel definition t code b)
          (catch_failure (suc fuel) definition t code b)
  unfolding catch_failure
  catch_failure-Extends t code (base, e) = search (extends_rules, run_loop-Extends) depth 20

  handle_fail_service_task-Extends :
      (id code message : String)
      → Extends
          (handle_fail_service_task fuel definition id code message)
          (handle_fail_service_task (suc fuel) definition id code message)
  unfolding handle_fail_service_task
  handle_fail_service_task-Extends id code message =
      search (extends_rules, catch_failure-Extends) depth 16

  fire_boundary_timer-Extends :
      (id : String) (t : Token) (e : BpmnFlowElement)
      → Extends
          (fire_boundary_timer fuel definition id t e)
          (fire_boundary_timer (suc fuel) definition id t e)
  unfolding fire_boundary_timer
  fire_boundary_timer-Extends id t (boundary_event base e) =
      search (extends_rules, run_loop-Extends) depth 16
  fire_boundary_timer-Extends id t _ = search (extends_rules, run_loop-Extends) depth 16

  handle_fire_timer-Extends :
      (id : String)
      → Extends (handle_fire_timer fuel definition id) (handle_fire_timer (suc fuel) definition id)
  unfolding handle_fire_timer
  handle_fire_timer-Extends id =
      search (extends_rules, handle_complete_task-Extends, fire_boundary_timer-Extends) depth 16

  handle_deliver_message-Extends :
      (name : String) (vars : Option Variables)
      → Extends
          (handle_deliver_message fuel definition name vars)
          (handle_deliver_message (suc fuel) definition name vars)
  unfolding handle_deliver_message
  handle_deliver_message-Extends name vars = search (extends_rules, run_loop-Extends) depth 16

  handle_broadcast_signal-Extends :
      (name : String) (vars : Option Variables)
      → Extends
          (handle_broadcast_signal fuel definition name vars)
          (handle_broadcast_signal (suc fuel) definition name vars)
  unfolding handle_broadcast_signal
  handle_broadcast_signal-Extends name vars = search (extends_rules, run_loop-Extends) depth 16

  run_from_start-Extends :
      (i s : String)
      → Extends (run_from_start fuel definition i s) (run_from_start (suc fuel) definition i s)
  unfolding run_from_start
  run_from_start-Extends i s = search (extends_rules, run_loop-Extends) depth 20

  handle_start_process-Extends :
      (vars : Option Variables) (ck bk : Option String)
      → Extends
          (handle_start_process fuel definition vars ck bk)
          (handle_start_process (suc fuel) definition vars ck bk)
  unfolding handle_start_process
  handle_start_process-Extends vars ck bk = search (extends_rules, run_from_start-Extends) depth 20

  dispatch-Extends :
      (command : EngineCommand)
      → Extends (dispatch fuel definition command) (dispatch (suc fuel) definition command)
  unfolding dispatch
  dispatch-Extends (start_process vars ck bk) = handle_start_process-Extends vars ck bk
  dispatch-Extends (complete_service_task id vars) = handle_complete_task-Extends id vars
  dispatch-Extends (fail_service_task id code message) =
      handle_fail_service_task-Extends id code message
  dispatch-Extends (complete_user_task id by vars) = handle_complete_task-Extends id vars
  dispatch-Extends (fire_timer id) = handle_fire_timer-Extends id
  dispatch-Extends (deliver_message name vars) = handle_deliver_message-Extends name vars
  dispatch-Extends (broadcast_signal name vars) = handle_broadcast_signal-Extends name vars
  dispatch-Extends suspend_instance = Extends-same _
  dispatch-Extends resume_instance = Extends-same _
  dispatch-Extends cancel_instance = Extends-same _

map_outcome-loops : {A B : Type 0} (f : A → B) (r : Outcome A) → map_outcome f r ≢ loops → r ≢ loops
map_outcome-loops f r h k = h (ap (map_outcome f) k)

module _ (definition : ProcessDefinition) (command : EngineCommand) (state : Option EngineState)
    (options : ExecuteOptions) where
  execute-more :
      (fuel : ℕ)
      → execute fuel definition command state options ≢ loops
      → execute (suc fuel) definition command state options
        ≡ execute fuel definition command state options
  unfolding execute
  execute-more fuel h = ap (map_outcome (λ r. r.0)) (
      (Extends-bind (dispatch fuel definition command) (dispatch (suc fuel) definition command)
          (λ _. to_result) (λ _. to_result) (dispatch-Extends fuel definition command)
          (λ _. Extends-same to_result)).at
        (new_context state options) (map_outcome-loops (λ r. r.0) _ h))

  pub execute-fuel :
      (fuel more : ℕ)
      → execute fuel definition command state options ≢ loops
      → execute (more + fuel) definition command state options
        ≡ execute fuel definition command state options
  execute-fuel fuel zero h = ap (λ n. execute n definition command state options) (omega arith)
  execute-fuel fuel (suc more) h =
      ap (λ n. execute n definition command state options) (omega arith)
      ∙ execute-more (more + fuel) (λ k. h (sym (execute-fuel fuel more h) ∙ k))
      ∙ execute-fuel fuel more h
