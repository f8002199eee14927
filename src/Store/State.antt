-- ===== src/Store/State.antt =====
-- The types of nexus-workflow-core/src/model/types.ts that only the store holds, and the fields of
-- nexus-workflow-core/src/adapters/InMemoryStateStore.ts. Dates are milliseconds.
use nexus_workflow.Common.{ℕ, String, Option, List, []}
use nexus_workflow.Common.Dict.{Dict}
use nexus_workflow.Model.Types.{
  Variables, VariableScope, Token, BpmnElementType, ProcessInstance, GatewayJoinState,
  CompensationRecord,
}
use nexus_workflow.Model.Events.{ForcedAction}
use nexus_workflow.Model.Elements.{ProcessDefinition}

pub data HistoryStatus : Type 0 where
  completed cancelled error : HistoryStatus

pub record Forced : Type 0 where
  pub action : ForcedAction
  pub by : String
  pub reason : String
  pub on_behalf_of : Option String

pub record HistoryEntry : Type 0 where
  pub id : String
  pub instance_id : String
  pub token_id : String
  pub element_id : String
  pub element_type : BpmnElementType
  pub status : HistoryStatus
  pub started_at : ℕ
  pub completed_at : ℕ
  pub variables_snapshot : Option Variables
  pub forced : Option Forced

pub data EventSubscriptionStatus : Type 0 where
  active resolved cancelled : EventSubscriptionStatus

pub data EventSubscriptionType : Type 0 where
  message signal timer error : EventSubscriptionType

pub record EventSubscription : Type 0 where
  pub id : String
  pub instance_id : String
  pub token_id : String
  pub type : EventSubscriptionType
  pub message_name : Option String
  pub signal_name : Option String
  pub correlation_value : Option String
  pub error_code : Option String
  pub timer_id : Option String
  pub status : EventSubscriptionStatus
  pub created_at : ℕ

pub data UserTaskStatus : Type 0 where
  open_ claimed completed cancelled : UserTaskStatus

pub record UserTaskRecord : Type 0 where
  pub id : String
  pub instance_id : String
  pub token_id : String
  pub element_id : String
  pub name : String
  pub description : Option String
  pub assignee : Option String
  pub candidate_groups : Option (List String)
  pub due_date : Option ℕ
  pub priority : ℕ
  pub input_variables : Variables
  pub form_key : Option String
  pub status : UserTaskStatus
  pub created_at : ℕ
  pub claimed_at : Option ℕ
  pub completed_at : Option ℕ

pub record ScheduledTimer : Type 0 where
  pub id : String
  pub instance_id : String
  pub token_id : String
  pub fire_at : ℕ
  pub created_at : ℕ

pub record StateStore : Type 0 where
  pub definitions : Dict ProcessDefinition
  pub instances : Dict ProcessInstance
  pub tokens : Dict (List Token)
  pub scopes : Dict VariableScope
  pub user_tasks : Dict UserTaskRecord
  pub subscriptions : Dict EventSubscription
  pub gateway_states : Dict GatewayJoinState
  pub history : Dict (List HistoryEntry)
  pub timers : Dict ScheduledTimer
  pub compensation_records : Dict (List CompensationRecord)

abbrev pub empty_store : StateStore
empty_store = record {
  definitions = [];
  instances = [];
  tokens = [];
  scopes = [];
  user_tasks = [];
  subscriptions = [];
  gateway_states = [];
  history = [];
  timers = [];
  compensation_records = [];
}
