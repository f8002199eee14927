-- ===== src/Model/Types.antt =====
-- The records of nexus-workflow-core/src/model/types.ts that a running instance is made of.
-- A `Date` is its number of milliseconds. An absent optional flag is `false`, as every test reads it.
use nexus_workflow.Common.{
  ℕ, String, Bool, true, false, not, Option, none, some, List, [], ◌∷◌, eqb, ◌==◌,
}
use nexus_workflow.Common.Dict.{Dict}

-- A JavaScript value. `other` is any truthy value that is no array, told apart by a tag: an
-- object, a function, a number that is negative or not whole.
mutual
  pub data Value : Type 0 where
    undefined null nan : Value
    bool : Bool → Value
    num : ℕ → Value
    str : String → Value
    arr : Values → Value
    other : ℕ → Value

  pub data Values : Type 0 where
    nil : Values
    cons : Value → Values → Values

-- `Boolean(v)`
abbrev pub to_boolean : Value → Bool
to_boolean undefined = false
to_boolean null = false
to_boolean nan = false
to_boolean (bool b) = b
to_boolean (num n) = not (eqb n 0)
to_boolean (str s) = not (s == "")
to_boolean (arr vs) = true
to_boolean (other n) = true

abbrev pub to_list : Values → List Value
to_list nil = []
to_list (cons v vs) = v ∷ to_list vs

abbrev pub of_list : List Value → Values
of_list [] = nil
of_list (v ∷ vs) = cons v (of_list vs)

-- The items of a value for which `Array.isArray` holds.
abbrev pub as_array : Value → Option (List Value)
as_array (arr vs) = some (to_list vs)
as_array _ = none

pub data VariableType : Type 0 where
  string number boolean object array null : VariableType

pub record VariableValue : Type 0 where
  pub type : VariableType
  pub value : Value

-- `Record<string, VariableValue>`
abbrev pub Variables : Type 0
Variables = Dict VariableValue

pub record VariableScope : Type 0 where
  pub id : String
  pub parent_scope_id : Option String
  pub variables : Variables

pub data TokenStatus : Type 0 where
  active waiting suspended cancelled completed : TokenStatus

abbrev pub is_waiting : TokenStatus → Bool
is_waiting waiting = true
is_waiting _ = false

abbrev pub is_completed : TokenStatus → Bool
is_completed completed = true
is_completed _ = false

-- `status === 'active' || status === 'waiting'`
abbrev pub is_live : TokenStatus → Bool
is_live active = true
is_live waiting = true
is_live _ = false

-- `status === 'completed' || status === 'cancelled'`
abbrev pub is_done : TokenStatus → Bool
is_done completed = true
is_done cancelled = true
is_done _ = false

pub data WaitConditionType : Type 0 where
  user_task message signal timer external : WaitConditionType

pub record WaitCondition : Type 0 where
  pub type : WaitConditionType
  pub correlation_data : Option (Dict Value)

pub data BpmnElementType : Type 0 where
  start_event end_event intermediate_catch_event intermediate_throw_event boundary_event
        service_task user_task script_task manual_task call_activity exclusive_gateway
        parallel_gateway inclusive_gateway event_based_gateway sub_process sequence_flow :
      BpmnElementType

pub record LoopState : Type 0 where
  pub collection : List Value
  pub index : ℕ
  pub iterations_ran : ℕ

pub record Token : Type 0 where
  pub id : String
  pub instance_id : String
  pub element_id : String
  pub element_type : BpmnElementType
  pub status : TokenStatus
  pub scope_id : String
  pub arrived_via_flow_id : Option String
  pub parent_token_id : Option String
  pub sub_process_instance_id : Option String
  pub waiting_for : Option WaitCondition
  pub loop_state : Option LoopState
  pub created_at : ℕ
  pub updated_at : ℕ

pub data InstanceStatus : Type 0 where
  pending active suspended completed terminated error : InstanceStatus

pub record ProcessError : Type 0 where
  pub code : String
  pub message : String
  pub element_id : Option String
  pub token_id : Option String

pub record ProcessInstance : Type 0 where
  pub id : String
  pub definition_id : String
  pub definition_version : ℕ
  pub status : InstanceStatus
  pub root_scope_id : String
  pub correlation_key : Option String
  pub business_key : Option String
  pub parent_instance_id : Option String
  pub parent_token_id : Option String
  pub started_at : ℕ
  pub completed_at : Option ℕ
  pub error_info : Option ProcessError
  pub version : Option ℕ

pub record ParallelGatewayJoinState : Type 0 where
  pub gateway_id : String
  pub instance_id : String
  pub activation_id : String
  pub arrived_from_flows : List String
  pub expected_flows : List String

pub record InclusiveGatewayJoinState : Type 0 where
  pub gateway_id : String
  pub instance_id : String
  pub activation_id : String
  pub activated_incoming_flows : List String
  pub arrived_from_flows : List String

pub data GatewayJoinState : Type 0 where
  parallel : ParallelGatewayJoinState → GatewayJoinState
  inclusive : InclusiveGatewayJoinState → GatewayJoinState

abbrev pub join_gateway_id : GatewayJoinState → String
join_gateway_id (parallel js) = js.gateway_id
join_gateway_id (inclusive js) = js.gateway_id

pub record CompensationRecord : Type 0 where
  pub instance_id : String
  pub activity_id : String
  pub token_id : String
  pub handler_id : String
  pub completed_at : ℕ
