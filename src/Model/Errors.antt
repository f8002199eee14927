-- ===== src/Model/Errors.antt =====
-- The errors that the engine throws (nexus-workflow-core/src/model/errors.ts): one constructor for
-- each `throw`, with what its message names, and the result of code that may throw.
use nexus_workflow.Common.{String}
use nexus_workflow.Model.Types.{TokenStatus, InstanceStatus, BpmnElementType}
use nexus_workflow.Model.Elements.{EventDefinitionType}

pub data EngineError : Type 0 where
  -- Gateways
  exclusive_without_flows exclusive_without_match : String → EngineError
  inclusive_without_flows inclusive_without_match : String → EngineError
  parallel_without_flows : String → EngineError
  event_based_instantiates event_based_without_flows : String → EngineError
  event_based_unknown_flow event_based_wrong_target : String → String → EngineError
  event_based_unsupported_event : String → String → String → EventDefinitionType → EngineError
  gateway_without_incoming inclusive_join_without_split : String → EngineError
  -- The definition
  element_not_found flow_not_found : String → EngineError
  -- Commands and elements
  token_not_waiting : String → TokenStatus → EngineError
  cannot_suspend cannot_resume : InstanceStatus → EngineError
  unsupported_element_type : BpmnElementType → EngineError
  unsupported_catch_event unsupported_boundary_event : EventDefinitionType → EngineError
  collection_not_array : String → EngineError
  token_not_found scope_not_found : String → EngineError
  no_active_instance : EngineError
  -- A property of `undefined` was read: a join state of the other kind stood under the gateway's id.
  join_state_mismatch : String → EngineError
  -- What the expression evaluator threw, its message.
  evaluation_failed : String → EngineError

-- The classes of model/errors.ts that the engine throws itself, and the others that pass through.
pub data ErrorClass : Type 0 where
  definition_error runtime_error type_error evaluator_error : ErrorClass

pub class_of : EngineError → ErrorClass
class_of (exclusive_without_match g) = definition_error
class_of (inclusive_without_match g) = definition_error
class_of (event_based_instantiates g) = definition_error
class_of (event_based_without_flows g) = definition_error
class_of (event_based_unknown_flow g f) = definition_error
class_of (event_based_wrong_target g f) = definition_error
class_of (event_based_unsupported_event g f i t) = definition_error
class_of (element_not_found i) = definition_error
class_of (flow_not_found i) = definition_error
class_of (join_state_mismatch g) = type_error
class_of (evaluation_failed m) = evaluator_error
class_of _ = runtime_error

-- `loops` is a loop of the source that has not ended within the given fuel.
pub data Outcome {ℓ} (A : Type ℓ) : Type ℓ where
  ok : A → Outcome A
  threw : EngineError → Outcome A
  loops : Outcome A

infixl 10 ◌>>=◌
abbrev pub ◌>>=◌ {ℓ κ} : {A : Type ℓ} {B : Type κ} → Outcome A → (A → Outcome B) → Outcome B
ok a >>= f = f a
threw e >>= f = threw e
loops >>= f = loops
