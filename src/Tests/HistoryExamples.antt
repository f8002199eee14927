-- ===== src/Tests/HistoryExamples.antt =====
-- The history of a cycle at a concrete state, whose scopes are each other's parents.
use nexus_workflow.Common.{
  ℕ, String, true, ◌&&◌, ◌≡◌, refl, none, some, List, [], ◌∷◌, eqb, filter, map,
}
use nexus_workflow.Model.Types.{VariableScope, Token, completed, BpmnElementType}
use nexus_workflow.Model.Events.{error_thrown}
use nexus_workflow.Model.Errors.{ok}
use nexus_workflow.Engine.State.{EngineState}
use nexus_workflow.Store.State.{HistoryStatus, HistoryEntry}
use nexus_workflow.History.{derive_history}
use nexus_workflow.History.Order.{in_order, visits_at}
use nexus_workflow.History.Visits.{visit, visit_of, ended_in_cycle, derive_history-visits}
use nexus_workflow.Tests.Samples.{running_state, start_token, task_token}
use nexus_workflow.Tests.Unfold.{whole_engine}

abbrev done_token : Token
done_token = record task_token { status = completed; updated_at = 9 }

abbrev scope : String → String → VariableScope
scope id parent = record { id = id; parent_scope_id = some parent; variables = [] }

abbrev finished_state : EngineState
finished_state = record running_state {
  tokens = start_token ∷ done_token ∷ [];
  scopes = scope "ii" "other" ∷ scope "other" "ii" ∷ [];
}

-- The start was over before the cycle.
only_the_task :
    derive_history
      (λ v. 0)
      (some running_state)
      finished_state
      (error_thrown "i" "iiii" "E1" true ∷ [])
      none
    ≡ ok (
        record {
          id = "iiii";
          instance_id = "i";
          token_id = "iiii";
          element_id = "task";
          element_type = BpmnElementType.user_task;
          status = HistoryStatus.error;
          started_at = task_token.created_at;
          completed_at = 9;
          variables_snapshot = none;
          forced = none;
        }
        ∷ [])
unfolding whole_engine derive_history
only_the_task = refl

derive_history-visits_example :
    (entries : List HistoryEntry) × (derive_history
        (λ v. 0)
        (some running_state)
        finished_state
        []
        none
      ≡ ok entries)
    × (in_order entries ≡ true)
    × ((s c : ℕ)
        → map visit (visits_at s c entries)
          ≡ map (visit_of []) (
              filter
                (λ t.
                  ended_in_cycle (some running_state) t
                  && (eqb t.created_at s && eqb t.updated_at c))
                finished_state.tokens))
derive_history-visits_example =
    derive_history-visits (λ v. 0) (some running_state) finished_state [] none
