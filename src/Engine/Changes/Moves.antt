-- ===== src/Engine/Changes/Moves.antt =====
-- Moving, completing, cancelling and suspending tokens (engine/ExecutionEngine.ts) are steps.
use nexus_workflow.Common.{ℕ, String, true, some, List, arith}
use nexus_workflow.Model.Types.{
  Token, WaitCondition, WaitConditionType, InstanceStatus, ProcessInstance,
}
use nexus_workflow.Model.Elements.{BpmnFlowElement, ProcessDefinition}
use nexus_workflow.Engine.Definition.{get_element, get_flow}
use nexus_workflow.Engine.Context.{now, require_instance}
use nexus_workflow.Engine.Moves.{
  skip, complete_token, cancel_token, suspend_token, suspend_token_with_condition,
  complete_instance, move_token_to_flow, move_token_to_flows, advance_token, advance_token_flows,
}
use nexus_workflow.Engine.Changes.{SameIdentity, Steps}
use nexus_workflow.Engine.Changes.Rules.{Steps-pure, Steps-bind, Steps-set_instance}
use nexus_workflow.Engine.Changes.Primitives.{
  primitive_rules, now-Steps, emit-Steps, require_instance-Steps,
}

pub complete_token-Steps : (t : Token) → Steps (complete_token t)
unfolding complete_token
complete_token-Steps t = search primitive_rules depth 12

pub cancel_token-Steps : (time : ℕ) (t : Token) → Steps (cancel_token time t)
unfolding cancel_token
cancel_token-Steps time t = search primitive_rules depth 12

pub suspend_with-Steps : (t : Token) (c : WaitCondition) → Steps (suspend_token_with_condition t c)
unfolding suspend_token_with_condition
suspend_with-Steps t c = search primitive_rules depth 12

pub suspend_token-Steps : (t : Token) (w : WaitConditionType) → Steps (suspend_token t w)
unfolding suspend_token
suspend_token-Steps t w = search suspend_with-Steps

pub get_element-Steps :
    (definition : ProcessDefinition) (id : String) → Steps (get_element definition id)
unfolding get_element
get_element-Steps definition id = search primitive_rules

pub get_flow-Steps : (definition : ProcessDefinition) (id : String) → Steps (get_flow definition id)
unfolding get_flow
get_flow-Steps definition id = search primitive_rules

pub ruleset token_rules = (
  primitive_rules, complete_token-Steps, cancel_token-Steps, suspend_with-Steps,
  suspend_token-Steps, get_element-Steps, get_flow-Steps,
)

module _ (definition : ProcessDefinition) where
  pub move_token_to_flow-Steps :
      (t : Token) (f : String) → Steps (move_token_to_flow definition t f)
  unfolding move_token_to_flow
  move_token_to_flow-Steps t f = search token_rules depth 20

  pub move_token_to_flows-Steps :
      (t : Token) (fs : List String) → Steps (move_token_to_flows definition t fs)
  unfolding move_token_to_flows
  move_token_to_flows-Steps t fs = search (primitive_rules, move_token_to_flow-Steps)

  pub advance_token-Steps : (t : Token) (e : BpmnFlowElement) → Steps (advance_token definition t e)
  unfolding advance_token
  advance_token-Steps t e = search (token_rules, move_token_to_flows-Steps)

  pub advance_token_flows-Steps : (t : Token) → Steps (advance_token_flows definition t)
  unfolding advance_token_flows
  advance_token_flows-Steps t = search (token_rules, move_token_to_flows-Steps)

SameIdentity-completed :
    (i : ProcessInstance) (time : ℕ)
    → SameIdentity i (record i { status = InstanceStatus.completed; completed_at = some time })
SameIdentity-completed i time = ground arith

pub complete_instance-Steps : Steps complete_instance
unfolding complete_instance
complete_instance-Steps = record {
  at =
      (Steps-bind require_instance _ require_instance-Steps λ started.
        Steps-bind now _ now-Steps λ time.
          Steps-set_instance (λ i. true)
            (λ i. record i { status = InstanceStatus.completed; completed_at = some time }) _
            (λ i. skip) (λ i. SameIdentity-completed i time) (λ i. emit-Steps _)
            (λ i. Steps-pure tt)).at;
}

pub ruleset move_rules = (
  token_rules, move_token_to_flow-Steps, move_token_to_flows-Steps, advance_token-Steps,
  advance_token_flows-Steps, complete_instance-Steps,
)
