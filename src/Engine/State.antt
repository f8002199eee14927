-- ===== src/Engine/State.antt =====
-- What `execute` is given and returns, and the fields of the class `ExecutionContext`
-- (nexus-workflow-core/src/engine/ExecutionEngine.ts). `generateId` and `now` answer their n-th
-- call, so the context counts the calls.
use nexus_workflow.Common.{ℕ, String, Option, none, some, List, []}
use nexus_workflow.Common.Dict.{Dict, index_by}
use nexus_workflow.Model.Types.{
  Value, Variables, VariableScope, Token, ProcessInstance, GatewayJoinState, join_gateway_id,
  CompensationRecord,
}
use nexus_workflow.Model.Events.{ExecutionEvent}
use nexus_workflow.Model.Errors.{Outcome}

pub record EngineState : Type 0 where
  pub process_instance : ProcessInstance
  pub tokens : List Token
  pub scopes : List VariableScope
  pub gateway_join_states : List GatewayJoinState
  pub compensation_records : List CompensationRecord

pub record EngineResult : Type 0 where
  pub new_state : EngineState
  pub events : List ExecutionEvent

-- `evaluate` is the `ExpressionEvaluator`, which may throw.
pub record ExecuteOptions : Type 0 where
  pub generate_id : ℕ → String
  pub now : ℕ → ℕ
  pub evaluate : String → Variables → Outcome Value

-- `ids` and `ticks` count the calls of `generateId` and `now`.
pub record ExecutionContext : Type 0 where
  pub process_instance : Option ProcessInstance
  pub token_map : Dict Token
  pub scope_map : Dict VariableScope
  pub join_state_map : Dict GatewayJoinState
  pub compensation_list : List CompensationRecord
  pub events : List ExecutionEvent
  pub pending_queue : List Token
  pub options : ExecuteOptions
  pub ids : ℕ
  pub ticks : ℕ

-- The constructor.
unfoldable pub new_context : Option EngineState → ExecuteOptions → ExecutionContext
new_context none options = record {
  process_instance = none;
  token_map = [];
  scope_map = [];
  join_state_map = [];
  compensation_list = [];
  events = [];
  pending_queue = [];
  options = options;
  ids = 0;
  ticks = 0;
}
new_context (some state) options = record {
  process_instance = some state.process_instance;
  token_map = index_by (λ t. t.id) [] state.tokens;
  scope_map = index_by (λ s. s.id) [] state.scopes;
  join_state_map = index_by join_gateway_id [] state.gateway_join_states;
  compensation_list = state.compensation_records;
  events = [];
  pending_queue = [];
  options = options;
  ids = 0;
  ticks = 0;
}
