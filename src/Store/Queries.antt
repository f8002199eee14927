-- ===== src/Store/Queries.antt =====
-- The reads of nexus-workflow-core/src/adapters/InMemoryStateStore.ts by a filter, and the walk through
-- the scopes. The filters are those of nexus-workflow-core/src/interfaces/StateStore.ts.
pub mod Pages
use nexus_workflow.Common.{
  ℕ, zero, suc, ◌*◌, ◌-◌, String, Bool, true, false, not, ◌&&◌, Option, none, some, List, [], ◌∷◌,
  ◌==◌, leb, map, filter, any, includes, length, if◌then◌else◌, case_option, truthy, is_text,
  same_text,
}
use nexus_workflow.Common.Dict.{Dict, lookup, values}
use nexus_workflow.Model.Types.{
  VariableScope, ProcessInstance, InstanceStatus, GatewayJoinState, CompensationRecord,
}
use nexus_workflow.Model.Elements.{ProcessDefinition}
use nexus_workflow.Model.Errors.{Outcome, ok, loops}
use nexus_workflow.Engine.Monad.{map_outcome}
use nexus_workflow.Store.State.{
  StateStore, HistoryEntry, EventSubscription, EventSubscriptionType, EventSubscriptionStatus,
  UserTaskRecord, UserTaskStatus,
}
use nexus_workflow.Store.Operations.{join_instance_id}

pub record PagedResult {ℓ} (A : Type ℓ) : Type ℓ where
  pub items : List A
  pub total : ℕ
  pub page : ℕ
  pub page_size : ℕ

abbrev pub drop {ℓ} : {A : Type ℓ} → ℕ → List A → List A
drop zero xs = xs
drop (suc n) [] = []
drop (suc n) (x ∷ xs) = drop n xs

abbrev pub take {ℓ} : {A : Type ℓ} → ℕ → List A → List A
take zero xs = []
take (suc n) [] = []
take (suc n) (x ∷ xs) = x ∷ take n xs

-- `results.slice(page * pageSize, (page + 1) * pageSize)`
abbrev pub page_of {ℓ} : {A : Type ℓ} → ℕ → ℕ → List A → List A
page_of page page_size results =
    take (suc page * page_size - page * page_size) (drop (page * page_size) results)

-- The texts of the literal types.
abbrev pub instance_status_text : InstanceStatus → String
instance_status_text InstanceStatus.pending = "pending"
instance_status_text InstanceStatus.active = "active"
instance_status_text InstanceStatus.suspended = "suspended"
instance_status_text InstanceStatus.completed = "completed"
instance_status_text InstanceStatus.terminated = "terminated"
instance_status_text InstanceStatus.error = "error"

abbrev pub task_status_text : UserTaskStatus → String
task_status_text UserTaskStatus.open_ = "open"
task_status_text UserTaskStatus.claimed = "claimed"
task_status_text UserTaskStatus.completed = "completed"
task_status_text UserTaskStatus.cancelled = "cancelled"

abbrev pub subscription_type_text : EventSubscriptionType → String
subscription_type_text EventSubscriptionType.message = "message"
subscription_type_text EventSubscriptionType.signal = "signal"
subscription_type_text EventSubscriptionType.timer = "timer"
subscription_type_text EventSubscriptionType.error = "error"

abbrev is_active_subscription : EventSubscriptionStatus → Bool
is_active_subscription EventSubscriptionStatus.active = true
is_active_subscription _ = false

-- `Array.isArray(status) ? status : [status]`
pub data OneOrMany (A : Type 0) : Type 0 where
  one : A → OneOrMany A
  many : List A → OneOrMany A

abbrev pub listed : {A : Type 0} → OneOrMany A → List A
listed (one a) = a ∷ []
listed (many as_) = as_

pub record InstanceQuery : Type 0 where
  pub definition_id : Option String
  pub status : Option (OneOrMany InstanceStatus)
  pub correlation_key : Option String
  pub business_key : Option String
  pub started_after : Option ℕ
  pub started_before : Option ℕ
  pub page : ℕ
  pub page_size : ℕ

pub record UserTaskQuery : Type 0 where
  pub instance_id : Option String
  pub assignee : Option String
  pub candidate_group : Option String
  pub status : Option (OneOrMany UserTaskStatus)
  pub page : ℕ
  pub page_size : ℕ

pub record SubscriptionFilter : Type 0 where
  pub type : Option EventSubscriptionType
  pub message_name : Option String
  pub signal_name : Option String
  pub correlation_value : Option String
  pub instance_id : Option String

pub record ProcessInstanceSummary : Type 0 where
  pub id : String
  pub definition_id : String
  pub definition_version : ℕ
  pub status : InstanceStatus
  pub correlation_key : Option String
  pub business_key : Option String
  pub started_at : ℕ
  pub completed_at : Option ℕ

pub record ProcessDefinitionSummary : Type 0 where
  pub id : String
  pub version : ℕ
  pub name : Option String
  pub deployed_at : ℕ
  pub is_deployable : Bool

-- `if (field) results = results.filter(...)` for a text and for another field.
abbrev pub narrow_text {ℓ} : {A : Type ℓ} → Option String → (String → A → Bool) → List A → List A
narrow_text none p results = results
narrow_text (some x) p results = if truthy (some x) then filter (p x) results else results

abbrev pub narrow {ℓ κ} : {A : Type ℓ} {B : Type κ} → Option B → (B → A → Bool) → List A → List A
narrow none p results = results
narrow (some x) p results = filter (p x) results

abbrev pub has_status : OneOrMany InstanceStatus → ProcessInstance → Bool
has_status statuses i =
    includes (map instance_status_text (listed statuses)) (instance_status_text i.status)

abbrev pub has_task_status : OneOrMany UserTaskStatus → UserTaskRecord → Bool
has_task_status statuses t =
    includes (map task_status_text (listed statuses)) (task_status_text t.status)

abbrev pub summary_of : ProcessInstance → ProcessInstanceSummary
summary_of i = record {
  id = i.id;
  definition_id = i.definition_id;
  definition_version = i.definition_version;
  status = i.status;
  correlation_key = i.correlation_key;
  business_key = i.business_key;
  started_at = i.started_at;
  completed_at = i.completed_at;
}

-- The filters of `findInstances`, one after the other.
unfoldable pub narrow_instances : InstanceQuery → List ProcessInstance → List ProcessInstance
narrow_instances q all_ =
    let by_definition = narrow_text q.definition_id (λ id i. i.definition_id == id) all_ in
    let by_key = narrow_text q.correlation_key (λ k i. is_text i.correlation_key k) by_definition in
    let by_business = narrow_text q.business_key (λ k i. is_text i.business_key k) by_key in
    let by_status = narrow q.status has_status by_business in
    let after = narrow q.started_after (λ time i. leb time i.started_at) by_status in
    narrow q.started_before (λ time i. leb i.started_at time) after

unfoldable pub find_instances : InstanceQuery → StateStore → PagedResult ProcessInstanceSummary
unfolding narrow_instances
find_instances q s =
    let results = narrow_instances q (values s.instances) in
    record {
      items = map summary_of (page_of q.page q.page_size results);
      total = length results;
      page = q.page;
      page_size = q.page_size;
    }

unfoldable pub narrow_tasks : UserTaskQuery → List UserTaskRecord → List UserTaskRecord
narrow_tasks q all_ =
    let by_instance = narrow_text q.instance_id (λ id t. t.instance_id == id) all_ in
    let by_assignee = narrow_text q.assignee (λ a t. is_text t.assignee a) by_instance in
    let by_group =
      narrow_text q.candidate_group
        (λ g t. case_option t.candidate_groups false (λ groups. includes groups g)) by_assignee in
    narrow q.status has_task_status by_group

unfoldable pub query_user_tasks : UserTaskQuery → StateStore → PagedResult UserTaskRecord
unfolding narrow_tasks
query_user_tasks q s =
    let results = narrow_tasks q (values s.user_tasks) in
    record {
      items = page_of q.page q.page_size results;
      total = length results;
      page = q.page;
      page_size = q.page_size;
    }

-- `filter.f && s.f !== filter.f`, for which a subscription is left out.
abbrev differs : Option String → Option String → Bool
differs wanted actual = truthy wanted && not (same_text actual wanted)

unfoldable pub find_subscriptions : SubscriptionFilter → StateStore → List EventSubscription
find_subscriptions f s =
    filter
      (λ x.
        is_active_subscription x.status
        && case_option f.type true
            (λ type. subscription_type_text x.type == subscription_type_text type)
        && not (differs f.message_name x.message_name)
        && not (differs f.signal_name x.signal_name)
        && not (differs f.correlation_value x.correlation_value)
        && not (differs f.instance_id (some x.instance_id)))
      (values s.subscriptions)

unfoldable pub list_gateway_states : String → StateStore → List GatewayJoinState
list_gateway_states instance_id s =
    filter (λ g. join_instance_id g == instance_id) (values s.gateway_states)

abbrev same_bool : Bool → Bool → Bool
same_bool true b = b
same_bool false b = not b

-- `isDeployable` of the filter, if there is one.
unfoldable pub list_definitions : Option Bool → StateStore → List ProcessDefinitionSummary
list_definitions is_deployable s =
    map
      (λ d. record {
        id = d.id;
        version = d.version;
        name = d.name;
        deployed_at = d.deployed_at;
        is_deployable = d.is_deployable;
      })
      (narrow is_deployable (λ b d. same_bool d.is_deployable b) (values s.definitions))

unfoldable pub get_user_task : String → StateStore → Option UserTaskRecord
get_user_task id s = lookup id s.user_tasks

unfoldable pub get_history : String → StateStore → List HistoryEntry
get_history instance_id s = case_option (lookup instance_id s.history) [] (λ es. es)

unfoldable pub list_compensation_records : String → StateStore → List CompensationRecord
list_compensation_records instance_id s =
    case_option (lookup instance_id s.compensation_records) [] (λ rs. rs)

-- The loop of `getScopeChain`, on fuel.
unfoldable pub scopes_from :
    Dict VariableScope → ℕ → Option VariableScope → Outcome (List VariableScope)
scopes_from scopes fuel none = ok []
scopes_from scopes zero (some scope) = loops
scopes_from scopes (suc fuel) (some scope) =
    let rest = scopes_from scopes fuel (
      if truthy scope.parent_scope_id
      then case_option scope.parent_scope_id none (λ id. lookup id scopes)
      else none) in
    map_outcome (λ chain. scope ∷ chain) rest

-- A chain without a repetition has no more scopes than are stored.
unfoldable pub get_scope_chain : String → StateStore → Outcome (List VariableScope)
unfolding scopes_from
get_scope_chain leaf_scope_id s =
    scopes_from s.scopes (length s.scopes) (lookup leaf_scope_id s.scopes)
