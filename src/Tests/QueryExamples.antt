-- ===== src/Tests/QueryExamples.antt =====
-- The queries of the in-memory store at a store with three instances.
use nexus_workflow.Common.{String, none, some, [], ◌∷◌, ◌≡◌, refl}
use nexus_workflow.Model.Types.{ProcessInstance, InstanceStatus}
use nexus_workflow.Model.Errors.{loops}
use nexus_workflow.Store.State.{StateStore, empty_store}
use nexus_workflow.Store.Queries.{many, InstanceQuery, summary_of, find_instances, get_scope_chain}
use nexus_workflow.Store.Queries.Pages.{first_pages, find_instances-pages}
use nexus_workflow.Tests.Samples.{running_instance}

abbrev instance_with : String → InstanceStatus → ProcessInstance
instance_with id status = record running_instance { id = id; status = status }

abbrev one_suspended : StateStore
one_suspended = record empty_store {
  instances =
      ("a", instance_with "a" InstanceStatus.active)
      ∷ ("b", instance_with "b" InstanceStatus.suspended)
      ∷ ("c", instance_with "c" InstanceStatus.completed)
      ∷ [];
}

-- One on a page, of those that are active or completed.
abbrev not_suspended : InstanceQuery
not_suspended = record {
  definition_id = some "definition";
  status = some (many (InstanceStatus.active ∷ InstanceStatus.completed ∷ []));
  correlation_key = some "";
  business_key = none;
  started_after = none;
  started_before = some 7;
  page = 1;
  page_size = 1;
}

second_page :
    (find_instances not_suspended one_suspended).items
    ≡ summary_of (instance_with "c" InstanceStatus.completed) ∷ []
unfolding find_instances
second_page = refl

find_instances-pages_example :
    (first_pages 2 not_suspended one_suspended
      ≡ summary_of (instance_with "a" InstanceStatus.active)
        ∷ summary_of (instance_with "c" InstanceStatus.completed)
        ∷ [])
    × ((find_instances not_suspended one_suspended).total ≡ 2)
find_instances-pages_example = find_instances-pages 2 not_suspended one_suspended

-- Two scopes that are each other's parents.
endless_chain :
    get_scope_chain "x" (record empty_store {
      scopes =
          ("x", record { id = "x"; parent_scope_id = some "y"; variables = [] })
          ∷ ("y", record { id = "y"; parent_scope_id = some "x"; variables = [] })
          ∷ [];
    })
    ≡ loops
unfolding get_scope_chain
endless_chain = refl
