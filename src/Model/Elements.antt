-- ===== src/Model/Elements.antt =====
-- The process definition of nexus-workflow-core/src/model/types.ts: elements, flows, and the tree
-- that sub-processes make of them.
use nexus_workflow.Common.{ℕ, String, Bool, Option, List}
use nexus_workflow.Model.Types.{BpmnElementType}

pub data EventDefinitionType : Type 0 where
  none_event timer message signal error terminate compensation cancel escalation conditional link :
      EventDefinitionType

pub record EventDefinition : Type 0 where
  pub type : EventDefinitionType
  pub timer_expression : Option String
  pub message_name : Option String
  pub signal_name : Option String
  pub error_code : Option String
  pub link_name : Option String
  pub compensation_activity_ref : Option String

pub record SequenceFlow : Type 0 where
  pub id : String
  pub source_ref : String
  pub target_ref : String
  pub condition_expression : Option String
  pub is_default : Bool

pub record BpmnElement : Type 0 where
  pub id : String
  pub name : Option String
  pub incoming_flows : List String
  pub outgoing_flows : List String

pub data ProcessInputType : Type 0 where
  string number boolean : ProcessInputType

pub record ProcessInput : Type 0 where
  pub name : String
  pub hint : Option String
  pub type : Option ProcessInputType

pub record MultiInstanceLoopCharacteristics : Type 0 where
  pub is_sequential : Bool
  pub input_collection : String
  pub input_element : Option String
  pub output_element : Option String
  pub output_collection : Option String
  pub completion_condition : Option String

pub record VariableMapping : Type 0 where
  pub source : String
  pub target : String
  pub expression : Option String

pub record RetryConfig : Type 0 where
  pub max_retries : ℕ
  pub retry_delay : ℕ
  pub backoff_factor : Option ℕ

pub record ServiceTask : Type 0 where
  pub task_type : Option String
  pub input_mappings : List VariableMapping
  pub output_mappings : List VariableMapping
  pub retry_config : Option RetryConfig
  pub loop_characteristics : Option MultiInstanceLoopCharacteristics
  pub is_for_compensation : Bool

pub record UserTask : Type 0 where
  pub assignee : Option String
  pub candidate_groups : List String
  pub due_date : Option String
  pub priority : Option ℕ
  pub form_key : Option String
  pub loop_characteristics : Option MultiInstanceLoopCharacteristics
  pub is_for_compensation : Bool

pub record ScriptTask : Type 0 where
  pub script_language : String
  pub script : String
  pub loop_characteristics : Option MultiInstanceLoopCharacteristics
  pub is_for_compensation : Bool

pub record ManualTask : Type 0 where
  pub loop_characteristics : Option MultiInstanceLoopCharacteristics
  pub is_for_compensation : Bool

pub record CallActivity : Type 0 where
  pub called_element : String
  pub called_element_version : Option ℕ
  pub input_mappings : List VariableMapping
  pub output_mappings : List VariableMapping

pub record BoundaryEvent : Type 0 where
  pub attached_to_ref : String
  pub cancel_activity : Bool
  pub event_definition : EventDefinition

pub data GatewayType : Type 0 where
  exclusive parallel inclusive event_based : GatewayType

pub record Gateway : Type 0 where
  pub type : GatewayType
  pub default_flow : Option String
  pub instantiate : Bool

-- The union `BpmnFlowElement`: each member with its `BpmnElement` part first. A list of elements is
-- a type of the block, since a sub-process holds one.
mutual
  pub data BpmnFlowElement : Type 0 where
    start_event : BpmnElement → EventDefinition → List ProcessInput → BpmnFlowElement
    end_event : BpmnElement → EventDefinition → BpmnFlowElement
    intermediate_catch_event : BpmnElement → EventDefinition → BpmnFlowElement
    intermediate_throw_event : BpmnElement → EventDefinition → BpmnFlowElement
    boundary_event : BpmnElement → BoundaryEvent → BpmnFlowElement
    service_task : BpmnElement → ServiceTask → BpmnFlowElement
    user_task : BpmnElement → UserTask → BpmnFlowElement
    script_task : BpmnElement → ScriptTask → BpmnFlowElement
    manual_task : BpmnElement → ManualTask → BpmnFlowElement
    call_activity : BpmnElement → CallActivity → BpmnFlowElement
    gateway : BpmnElement → Gateway → BpmnFlowElement
    -- isTransaction, elements, sequenceFlows, startEventId
    sub_process : BpmnElement → Bool → Elements → List SequenceFlow → String → BpmnFlowElement

  pub data Elements : Type 0 where
    nil : Elements
    cons : BpmnFlowElement → Elements → Elements

pub record ProcessDefinition : Type 0 where
  pub id : String
  pub version : ℕ
  pub name : Option String
  pub elements : Elements
  pub sequence_flows : List SequenceFlow
  pub start_event_id : String
  pub deployed_at : ℕ
  pub is_deployable : Bool

abbrev pub element_base : BpmnFlowElement → BpmnElement
element_base (start_event b d i) = b
element_base (end_event b d) = b
element_base (intermediate_catch_event b d) = b
element_base (intermediate_throw_event b d) = b
element_base (boundary_event b e) = b
element_base (service_task b t) = b
element_base (user_task b t) = b
element_base (script_task b t) = b
element_base (manual_task b t) = b
element_base (call_activity b t) = b
element_base (gateway b g) = b
element_base (sub_process b tr es fs s) = b

abbrev pub gateway_element_type : GatewayType → BpmnElementType
gateway_element_type exclusive = BpmnElementType.exclusive_gateway
gateway_element_type parallel = BpmnElementType.parallel_gateway
gateway_element_type inclusive = BpmnElementType.inclusive_gateway
gateway_element_type event_based = BpmnElementType.event_based_gateway

-- The field `type` of an element.
abbrev pub element_type : BpmnFlowElement → BpmnElementType
element_type (start_event b d i) = BpmnElementType.start_event
element_type (end_event b d) = BpmnElementType.end_event
element_type (intermediate_catch_event b d) = BpmnElementType.intermediate_catch_event
element_type (intermediate_throw_event b d) = BpmnElementType.intermediate_throw_event
element_type (boundary_event b e) = BpmnElementType.boundary_event
element_type (service_task b t) = BpmnElementType.service_task
element_type (user_task b t) = BpmnElementType.user_task
element_type (script_task b t) = BpmnElementType.script_task
element_type (manual_task b t) = BpmnElementType.manual_task
element_type (call_activity b t) = BpmnElementType.call_activity
element_type (gateway b g) = gateway_element_type g.type
element_type (sub_process b tr es fs s) = BpmnElementType.sub_process

abbrev pub element_id : BpmnFlowElement → String
element_id e = (element_base e).id

abbrev pub outgoing_flows : BpmnFlowElement → List String
outgoing_flows e = (element_base e).outgoing_flows
