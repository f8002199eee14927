-- ===== src/Tests/Samples.antt =====
-- Small process definitions.
use nexus_workflow.Common.{ℕ, zero, suc, String, true, false, none, some, List, [], ◌∷◌}
use nexus_workflow.Model.Types.{
  bool, Token, waiting, completed, ProcessInstance, InstanceStatus, BpmnElementType,
  WaitConditionType,
}
use nexus_workflow.Model.Elements.{
  EventDefinitionType, none_event, EventDefinition, SequenceFlow, BpmnElement, UserTask,
  GatewayType, BpmnFlowElement, Elements, nil, cons, ProcessDefinition, start_event, end_event,
  user_task, gateway,
}
use nexus_workflow.Model.Errors.{ok}
use nexus_workflow.Engine.State.{EngineState, ExecuteOptions, ExecutionContext}

abbrev pub numbered : ℕ → String
numbered zero = "i"
numbered (suc n) = String.◌∷◌ "i" (numbered n)

-- Ids are numbered, the clock counts, and every condition holds.
abbrev pub options : ExecuteOptions
options = record { generate_id = numbered; now = λ n. n; evaluate = λ e v. ok (bool true) }

abbrev pub event_of : EventDefinitionType → EventDefinition
event_of type = record {
  type = type;
  timer_expression = none;
  message_name = none;
  signal_name = none;
  error_code = none;
  link_name = none;
  compensation_activity_ref = none;
}

abbrev pub base : String → List String → List String → BpmnElement
base id incoming outgoing = record {
  id = id;
  name = none;
  incoming_flows = incoming;
  outgoing_flows = outgoing;
}

abbrev pub flow : String → String → String → SequenceFlow
flow id source target = record {
  id = id;
  source_ref = source;
  target_ref = target;
  condition_expression = none;
  is_default = false;
}

abbrev pub plain_user_task : UserTask
plain_user_task = record {
  assignee = none;
  candidate_groups = [];
  due_date = none;
  priority = none;
  form_key = none;
  loop_characteristics = none;
  is_for_compensation = false;
}

abbrev pub elements_of : List BpmnFlowElement → Elements
elements_of [] = nil
elements_of (e ∷ es) = cons e (elements_of es)

abbrev pub definition_of : List BpmnFlowElement → List SequenceFlow → ProcessDefinition
definition_of es flows = record {
  id = "definition";
  version = 1;
  name = none;
  elements = elements_of es;
  sequence_flows = flows;
  start_event_id = "start";
  deployed_at = 0;
  is_deployable = true;
}

-- start, user task, end
abbrev pub approval : ProcessDefinition
approval =
    definition_of
      (start_event (base "start" [] ("f1" ∷ [])) (event_of none_event) []
        ∷ user_task (base "task" ("f1" ∷ []) ("f2" ∷ [])) plain_user_task
        ∷ end_event (base "end" ("f2" ∷ []) []) (event_of none_event)
        ∷ [])
      (flow "f1" "start" "task" ∷ flow "f2" "task" "end" ∷ [])

-- start, a parallel split into a terminate end event and a user task
abbrev pub racing : ProcessDefinition
racing =
    definition_of
      (start_event (base "start" [] ("f1" ∷ [])) (event_of none_event) []
        ∷ gateway (base "split" ("f1" ∷ []) ("f2" ∷ "f3" ∷ []))
            (record { type = GatewayType.parallel; default_flow = none; instantiate = false })
        ∷ end_event (base "stop" ("f2" ∷ []) []) (event_of EventDefinitionType.terminate)
        ∷ user_task (base "task" ("f3" ∷ []) []) plain_user_task
        ∷ [])
      (flow "f1" "start" "split" ∷ flow "f2" "split" "stop" ∷ flow "f3" "split" "task" ∷ [])

-- `approval`, started: the user task waits.
abbrev pub running_instance : ProcessInstance
running_instance = record {
  id = "i";
  definition_id = "definition";
  definition_version = 1;
  status = InstanceStatus.active;
  root_scope_id = "ii";
  correlation_key = none;
  business_key = none;
  parent_instance_id = none;
  parent_token_id = none;
  started_at = 0;
  completed_at = none;
  error_info = none;
  version = none;
}

abbrev pub start_token : Token
start_token = record {
  id = "iii";
  instance_id = "i";
  element_id = "start";
  element_type = BpmnElementType.start_event;
  status = completed;
  scope_id = "ii";
  arrived_via_flow_id = none;
  parent_token_id = none;
  sub_process_instance_id = none;
  waiting_for = none;
  loop_state = none;
  created_at = 1;
  updated_at = 3;
}

abbrev pub task_token : Token
task_token = record {
  id = "iiii";
  instance_id = "i";
  element_id = "task";
  element_type = BpmnElementType.user_task;
  status = waiting;
  scope_id = "ii";
  arrived_via_flow_id = some "f1";
  parent_token_id = none;
  sub_process_instance_id = none;
  waiting_for = some (record { type = WaitConditionType.user_task; correlation_data = none });
  loop_state = none;
  created_at = 4;
  updated_at = 6;
}

abbrev pub running_state : EngineState
running_state = record {
  process_instance = running_instance;
  tokens = start_token ∷ task_token ∷ [];
  scopes = record { id = "ii"; parent_scope_id = none; variables = [] } ∷ [];
  gateway_join_states = [];
  compensation_records = [];
}

-- A context of that state, with no scope.
abbrev pub running_context : ExecutionContext
running_context = record {
  process_instance = some running_instance;
  token_map = ("iii", start_token) ∷ ("iiii", task_token) ∷ [];
  scope_map = [];
  join_state_map = [];
  compensation_list = [];
  events = [];
  pending_queue = [];
  options = options;
  ids = 0;
  ticks = 0;
}
