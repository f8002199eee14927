-- ===== src/Tests/Runs.antt =====
-- Runs of `execute`, and the theorems on all commands at those runs.
use nexus_workflow.Common.{
  ℕ, ◌≢◌, String, arith, ◌==◌, if◌then◌else◌, ◌+◌, pos, true, ◌≡◌, refl, none, some, [], ◌∷◌,
  includes,
}
use nexus_workflow.Model.Types.{completed, InstanceStatus, BpmnElementType, WaitConditionType}
use nexus_workflow.Model.Events.{
  service_task_completed, process_instance_completed, process_instance_started, token_moved,
  token_waiting,
}
use nexus_workflow.Model.Errors.{Outcome, ok, loops}
use nexus_workflow.Engine.State.{EngineResult, ExecutionContext, new_context}
use nexus_workflow.Engine.Loop.{run_loop}
use nexus_workflow.Engine.Commands.{execute, start_process, complete_user_task}
use nexus_workflow.Engine.Changes.{SameIdentity}
use nexus_workflow.Engine.Safety.Tokens.{
  token_ids, scope_ids, execute-IsWellFormed, IsWellFormed, execute-keeps_ids,
}
use nexus_workflow.Engine.Safety.Instance.{execute-SameIdentity}
use nexus_workflow.Engine.Safety.Fuel.{execute-fuel}
use nexus_workflow.Engine.Weights.{Answers}
use nexus_workflow.Engine.Weights.Elements.{all_heavy}
use nexus_workflow.Engine.Weights.Answers.{execute-answers}
use nexus_workflow.Tests.Samples.{
  options, approval, running_state, running_instance, start_token, task_token,
}
use nexus_workflow.Tests.Unfold.{whole_engine}

abbrev started : EngineResult
started = record {
  new_state = running_state;
  events =
      process_instance_started "i" "definition" 1
      ∷ token_moved "i" "iiii" "start" "task" BpmnElementType.user_task
      ∷ token_waiting "i" "iiii" "task"
          (record { type = WaitConditionType.user_task; correlation_data = none })
      ∷ [];
}

start_runs : execute 10 approval (start_process none none none) none options ≡ ok started
unfolding whole_engine
start_runs = refl

-- `approval` after the user task is completed.
abbrev pub finished : EngineResult
finished = record {
  new_state = record {
    process_instance = record running_instance {
      status = InstanceStatus.completed;
      completed_at = some 5;
    };
    tokens =
        start_token
        ∷ record task_token { status = completed; updated_at = 1 }
        ∷ record {
          id = "i";
          instance_id = "i";
          element_id = "end";
          element_type = BpmnElementType.end_event;
          status = completed;
          scope_id = "ii";
          arrived_via_flow_id = some "f2";
          parent_token_id = none;
          sub_process_instance_id = none;
          waiting_for = none;
          loop_state = none;
          created_at = 2;
          updated_at = 4;
        }
        ∷ [];
    scopes = record { id = "ii"; parent_scope_id = none; variables = [] } ∷ [];
    gateway_join_states = [];
    compensation_records = [];
  };
  events =
      service_task_completed "i" "iiii" "task" 0
      ∷ token_moved "i" "i" "task" "end" BpmnElementType.end_event
      ∷ process_instance_completed "i" (pos 5)
      ∷ [];
}

pub finish_runs :
    execute 10 approval (complete_user_task "iiii" "bob" none) (some running_state) options
    ≡ ok finished
unfolding whole_engine
finish_runs = refl

execute-IsWellFormed_example : IsWellFormed running_state
execute-IsWellFormed_example =
    execute-IsWellFormed 10 approval (start_process none none none) options started none tt
      start_runs

execute-keeps_ids_example :
    (includes (token_ids running_state) "iiii" ≡ true
      → includes (token_ids finished.new_state) "iiii" ≡ true)
    × (includes (scope_ids running_state) "iiii" ≡ true
        → includes (scope_ids finished.new_state) "iiii" ≡ true)
execute-keeps_ids_example =
    execute-keeps_ids 10 approval (complete_user_task "iiii" "bob" none) options finished
      running_state tt finish_runs "iiii"

execute-SameIdentity_example :
    SameIdentity running_state.process_instance finished.new_state.process_instance
execute-SameIdentity_example =
    execute-SameIdentity 10 approval (complete_user_task "iiii" "bob" none) options finished
      running_state tt finish_runs

abbrev queued_context : ExecutionContext
queued_context = record (new_context (some running_state) options) {
  pending_queue = task_token ∷ [];
}

-- The loop takes the token again: it is suspended once more.
abbrev looped_context : ExecutionContext
looped_context = record (new_context (some running_state) options) {
  token_map = ("iii", start_token) ∷ ("iiii", record task_token { updated_at = 0 }) ∷ [];
  events =
      token_waiting "i" "iiii" "task"
        (record { type = WaitConditionType.user_task; correlation_data = none })
      ∷ [];
  ticks = 1;
}

loop_runs : run_loop 10 approval queued_context ≡ ok (tt, looped_context)
unfolding whole_engine
loop_runs = refl

execute-fuel_example :
    execute (90 + 10) approval (complete_user_task "iiii" "bob" none) (some running_state) options
    ≡ execute 10 approval (complete_user_task "iiii" "bob" none) (some running_state) options
execute-fuel_example =
    execute-fuel approval (complete_user_task "iiii" "bob" none) (some running_state) options 10 90
      (λ e. finished_answers finish_runs e)
  where
    finished_answers : {o : Outcome EngineResult} → o ≡ ok finished → o ≡ loops → ⊥
    finished_answers p q = absurd (cc)

-- Each element of `approval` weighs what follows it.
abbrev weights : String → ℕ
weights id = if id == "start" then 2 else (if id == "task" then 1 else 0)

execute-answers_example :
    execute 11 approval (complete_user_task "iiii" "bob" none) (some running_state) options ≢ loops
execute-answers_example =
    execute-answers weights approval heavy options answering (complete_user_task "iiii" "bob" none)
      (some running_state) 11 refl (omega arith)
  where
    heavy : all_heavy weights approval approval.elements ≡ true
    heavy = unfold whole_engine in refl

    answering : Answers options.evaluate
    answering e v h = absurd (cc)
