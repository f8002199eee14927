-- ===== src/Tests/Failures.antt =====
-- The theorems on failing and interrupted tasks at a running instance.
use nexus_workflow.Common.{true, not, ◌||◌, none, some, [], ◌∷◌, ◌≡◌, refl, all, ◌==◌}
use nexus_workflow.Common.Dict.{values}
use nexus_workflow.Model.Errors.{ok}
use nexus_workflow.Engine.State.{ExecutionContext}
use nexus_workflow.Engine.Definition.{find_matching_error_boundary}
use nexus_workflow.Engine.Boundaries.{cancel_host_task_and_boundaries}
use nexus_workflow.Engine.Commands.{execute, fail_service_task}
use nexus_workflow.Engine.Administration.Cancellation.{cancelled_at}
use nexus_workflow.Engine.Administration.Failure.{after_failure, execute-failure}
use nexus_workflow.Engine.Administration.Interruption.{waits_on, interruption}
use nexus_workflow.Tests.Samples.{
  options, approval, running_state, running_context, running_instance, start_token, task_token,
}
use nexus_workflow.Tests.Unfold.{whole_engine}

no_boundary : find_matching_error_boundary approval "task" "timeout" ≡ none
unfolding whole_engine
no_boundary = refl

execute-failure_example :
    execute 10 approval
      (fail_service_task "iiii" "timeout" "no answer")
      (some running_state)
      options
    ≡ ok (after_failure task_token "timeout" "no answer" running_state)
execute-failure_example =
    execute-failure 10 approval options running_state "iiii" "timeout" "no answer" task_token
      (record {
        distinct_tokens = (refl, (refl, tt));
        distinct_scopes = (refl, tt);
        distinct_joins = tt;
      })
      refl refl no_boundary

interruption_example :
    (d : ExecutionContext) × (cancel_host_task_and_boundaries "task" "v" running_context
      ≡ ok (tt, d))
    × (values d.token_map ≡ start_token ∷ cancelled_at 0 task_token ∷ [])
    × (all (λ t. t.id == "v" || not (waits_on "task" t)) (values d.token_map) ≡ true)
    × (d.process_instance ≡ some running_instance)
    × (d.pending_queue ≡ [])
interruption_example = interruption "task" "v" running_context (refl, (refl, tt)) (refl, (refl, tt))
