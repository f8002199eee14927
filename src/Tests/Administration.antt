-- ===== src/Tests/Administration.antt =====
-- The theorems on the commands and searches of the engine at a running instance.
use nexus_workflow.Common.{
  ℕ, String, true, false, ◌≡◌, refl, Option, none, some, List, [], ◌∷◌, not, all, any, includes,
  filter, ◌==◌, eqb, ◌<◌, arith, truthy, case_option, if◌then◌else◌, ◌&&◌, ◌⊎◌,
}
use nexus_workflow.Common.Dict.{Dict, lookup}
use nexus_workflow.Model.Types.{
  Token, InstanceStatus, TokenStatus, is_waiting, str, VariableScope, CompensationRecord, Variables,
  VariableType,
}
use nexus_workflow.Model.Elements.{BpmnFlowElement, EventDefinitionType, element_id}
use nexus_workflow.Model.Events.{process_instance_resumed}
use nexus_workflow.Model.Errors.{ok, threw, cannot_resume, token_not_waiting, element_not_found}
use nexus_workflow.Engine.State.{ExecutionContext}
use nexus_workflow.Engine.Scopes.{parent_scope, resolve}
use nexus_workflow.Engine.Scopes.Resolution.{visible, resolve-visible}
use nexus_workflow.Engine.Records.{consume_compensation_records}
use nexus_workflow.Engine.Records.Order.{IsLatestFirst, completed_at, consume-order}
use nexus_workflow.Engine.Definition.{get_element, get_outgoing_flows, get_incoming_flows}
use nexus_workflow.Engine.Definition.Search.{tree_ids, get_element-finds}
use nexus_workflow.Engine.Definition.Flows.{all_flows, is_empty, get_flows-finds}
use nexus_workflow.Engine.Handlers.{handle_end_event}
use nexus_workflow.Engine.Handlers.Completion.{
  with_completed, completed_instance, handle_end_event-completes,
}
use nexus_workflow.Engine.Handlers.Termination.{is_live_at, handle_end_event-terminates}
use nexus_workflow.Engine.Commands.{
  execute, suspend_instance, resume_instance, cancel_instance, complete_user_task,
}
use nexus_workflow.Engine.Safety.Tokens.{IsWellFormed}
use nexus_workflow.Engine.Administration.Status.{
  after_suspend, execute-changes_status, resume-suspend,
}
use nexus_workflow.Engine.Administration.Cancellation.{after_cancel, execute-cancel}
use nexus_workflow.Engine.Administration.Refusals.{
  completes_user_task, token_of, execute-refusal, accepted-waits,
}
use nexus_workflow.Tests.Samples.{
  options, approval, running_state, running_context, running_instance, start_token, task_token,
  event_of,
}
use nexus_workflow.Tests.Unfold.{whole_engine}
use nexus_workflow.Tests.Runs.{finished, finish_runs}

running_state-IsWellFormed : IsWellFormed running_state
running_state-IsWellFormed = record {
  distinct_tokens = (refl, (refl, tt));
  distinct_scopes = (refl, tt);
  distinct_joins = tt;
}

execute-changes_status_example :
    (execute 10 approval suspend_instance (some running_state) options
      ≡ ok (after_suspend running_state))
    × (execute 10 approval resume_instance (some running_state) options
        ≡ threw (cannot_resume InstanceStatus.active))
execute-changes_status_example =
    execute-changes_status 10 approval options running_state running_state-IsWellFormed

suspend_runs :
    execute 10 approval suspend_instance (some running_state) options
    ≡ ok (after_suspend running_state)
unfolding whole_engine
suspend_runs = refl

resume-suspend_example :
    execute 10 approval resume_instance (some (after_suspend running_state).new_state) options
    ≡ ok (record { new_state = running_state; events = process_instance_resumed "i" ∷ [] })
resume-suspend_example =
    resume-suspend 10 approval options running_state (after_suspend running_state)
      running_state-IsWellFormed suspend_runs

execute-cancel_example :
    execute 10 approval cancel_instance (some running_state) options
    ≡ ok (after_cancel options running_state)
execute-cancel_example = execute-cancel 10 approval options running_state running_state-IsWellFormed

execute-refusal_example :
    execute 10 approval (complete_user_task "iii" "bob" none) (some running_state) options
    ≡ threw (token_not_waiting "iii" TokenStatus.completed)
execute-refusal_example =
    execute-refusal 10 approval options "iii" (complete_user_task "iii" "bob" none) running_state
      (token_not_waiting "iii" TokenStatus.completed) completes_user_task running_state-IsWellFormed
      refl

accepted-waits_example :
    (t : Token) × (token_of "iiii" running_state ≡ some t) × (is_waiting t.status ≡ true)
accepted-waits_example =
    accepted-waits 10 approval options "iiii" (complete_user_task "iiii" "bob" none) running_state
      finished completes_user_task running_state-IsWellFormed finish_runs

-- The user task stands for the end event here: its token is the only live one.
handle_end_event-completes_example :
    (after : ExecutionContext) × (handle_end_event approval task_token
        (event_of EventDefinitionType.none_event)
        running_context
      ≡ ok (tt, after))
    × (after.token_map ≡ (with_completed task_token running_context).token_map)
    × (after.pending_queue ≡ [])
    × (after.process_instance
        ≡ some (completed_instance (with_completed task_token running_context) running_instance))
handle_end_event-completes_example =
    handle_end_event-completes approval task_token (event_of EventDefinitionType.none_event)
      running_context running_instance refl refl refl

handle_end_event-terminates_example :
    (after : ExecutionContext) × (handle_end_event approval start_token
        (event_of EventDefinitionType.terminate)
        running_context
      ≡ ok (tt, after))
    × ((id : String) → is_live_at id after.token_map ≡ false)
    × ((time : ℕ) × (after.process_instance
          ≡ some (record running_instance {
            status = InstanceStatus.completed;
            completed_at = some time;
          })))
    × (after.pending_queue ≡ [])
handle_end_event-terminates_example =
    handle_end_event-terminates approval start_token (event_of EventDefinitionType.terminate)
      running_context running_instance refl refl (refl, (refl, tt))

get_element-finds_example :
    ((includes (tree_ids approval.elements) "task" ≡ true)
      × ((e : BpmnFlowElement) × (get_element approval "task" running_context
            ≡ ok (e, running_context))
          × ((element_id e == "task") ≡ true)))
    ⊎ ((includes (tree_ids approval.elements) "task" ≡ false)
        × (get_element approval "task" running_context ≡ threw (element_not_found "task")))
get_element-finds_example = get_element-finds approval "task" running_context

get_flows-finds_example :
    ((all (λ f. f.source_ref == "task") (get_outgoing_flows approval "task") ≡ true)
      × (is_empty (get_outgoing_flows approval "task")
          ≡ not (any (λ f. f.source_ref == "task") (all_flows approval))))
    × ((all (λ f. f.target_ref == "task") (get_incoming_flows approval "task") ≡ true)
        × (is_empty (get_incoming_flows approval "task")
            ≡ not (any (λ f. f.target_ref == "task") (all_flows approval))))
get_flows-finds_example = get_flows-finds approval "task"

abbrev record_at : String → String → ℕ → CompensationRecord
record_at activity_id token_id time = record {
  instance_id = "i";
  activity_id = activity_id;
  token_id = token_id;
  handler_id = "undo";
  completed_at = time;
}

abbrev recorded_context : ExecutionContext
recorded_context = record running_context {
  compensation_list =
      record_at "book" "a" 1
      ∷ record_at "pay" "b" 2
      ∷ record_at "book" "c" 3
      ∷ record_at "book" "d" 3
      ∷ [];
}

consume-order_example :
    (rs : List CompensationRecord) × (consume_compensation_records "book" recorded_context
      ≡ ok (rs, record recorded_context { compensation_list = record_at "pay" "b" 2 ∷ [] }))
    × IsLatestFirst rs
    × ((time : ℕ)
        → completed_at time rs
          ≡ filter
              (λ r. r.activity_id == "book" && eqb r.completed_at time)
              recorded_context.compensation_list)
consume-order_example = consume-order "book" recorded_context

abbrev outer : VariableScope
outer = record {
  id = "outer";
  parent_scope_id = none;
  variables = ("x", record { type = VariableType.string; value = str "outside" }) ∷ [];
}

abbrev inner : VariableScope
inner = record {
  id = "inner";
  parent_scope_id = some "outer";
  variables = ("x", record { type = VariableType.string; value = str "inside" }) ∷ [];
}

abbrev nested : Dict VariableScope
nested = ("outer", outer) ∷ ("inner", inner) ∷ []

abbrev depth : VariableScope → ℕ
depth scope =
    case_option scope.parent_scope_id 0
      (λ id. if "outer" == id then 1 else (if "inner" == id then 2 else 0))

depth-parent : (s p : VariableScope) → parent_scope nested s ≡ some p → depth p < depth s
depth-parent s p h = by_id s.parent_scope_id h
  where
    same_depth : (x : VariableScope) → some x ≡ some p → depth p ≡ depth x
    same_depth x k = ground arith

    by_id :
        (o : Option String)
        → (if truthy o then case_option o none (λ id. lookup id nested) else none) ≡ some p
        → depth p
          < case_option o 0 (λ id. if "outer" == id then 1 else (if "inner" == id then 2 else 0))
    by_id none k = absurd (cc)
    by_id (some id) k = ground (arith, same_depth outer, same_depth inner)

resolve-visible_example :
    (vars : Variables) × (resolve nested "inner" ≡ ok vars)
    × ((name : String) → lookup name vars ≡ visible nested name 2 (some inner) none)
resolve-visible_example = resolve-visible nested depth depth-parent "inner" (λ s h. ground arith)
