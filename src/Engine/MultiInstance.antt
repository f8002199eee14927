-- ===== src/Engine/MultiInstance.antt =====
-- Multi-instance tasks, in engine/ExecutionEngine.ts.
use nexus_workflow.Common.{
  ℕ, ◌+◌, String, Bool, true, false, ◌&&◌, Option, none, some, List, [], ◌∷◌, ◌++◌, leb, length,
  get_elem?, filter, find, all, if◌then◌else◌, case_option, truthy, is_text, or_else,
}
use nexus_workflow.Common.Dict.{lookup}
use nexus_workflow.Model.Types.{
  Value, undefined, arr, to_boolean, of_list, as_array, VariableType, VariableValue, Variables,
  Token, is_waiting, is_completed, is_done, waiting, WaitConditionType, LoopState,
}
use nexus_workflow.Model.Elements.{
  MultiInstanceLoopCharacteristics, BpmnFlowElement, ProcessDefinition, service_task, user_task,
  script_task, manual_task, element_id, element_type, outgoing_flows,
}
use nexus_workflow.Model.Events.{multi_instance_started, multi_instance_completed}
use nexus_workflow.Model.Errors.{collection_not_array}
use nexus_workflow.Engine.Monad.{Exec, lift, gets, for_each, require, ◌>>=◌, ◌>>◌}
use nexus_workflow.Engine.Context.{
  now, new_id, emit, update_token, create_token, enqueue_pending, get_all_tokens, require_instance,
}
use nexus_workflow.Engine.Scopes.{save_scope, resolve_scope, merge_variables}
use nexus_workflow.Engine.Moves.{
  skip, complete_token, cancel_token, move_token_to_flows, advance_token,
}
use nexus_workflow.Engine.Boundaries.{cancel_boundary_tokens_for}

-- `ctx.expressionEvaluator.evaluate(expression, { variables })`
unfoldable pub evaluate : String → Variables → Exec Value
evaluate expression variables = do
  outcome ← gets (λ ctx. ctx.options.evaluate expression variables)
  lift outcome

abbrev pub get_loop_characteristics : BpmnFlowElement → Option MultiInstanceLoopCharacteristics
get_loop_characteristics (service_task b t) = t.loop_characteristics
get_loop_characteristics (user_task b t) = t.loop_characteristics
get_loop_characteristics (script_task b t) = t.loop_characteristics
get_loop_characteristics (manual_task b t) = t.loop_characteristics
get_loop_characteristics _ = none

abbrev is_child_of : Token → Token → Bool
is_child_of parent t = is_text t.parent_token_id parent.id

-- The items of a variable's value, or none of them.
abbrev items_of : Option VariableValue → List Value
items_of v = case_option v [] (λ x. or_else (as_array x.value) [])

abbrev array_value : List Value → VariableValue
array_value items = record { type = VariableType.array; value = arr (of_list items) }

-- `lc.inputElement ? { [lc.inputElement]: { type: 'object', value: item } } : {}`
abbrev loop_variables : MultiInstanceLoopCharacteristics → Value → Variables
loop_variables lc item =
    if truthy lc.input_element
    then (or_else lc.input_element "", record { type = VariableType.object; value = item }) ∷ []
    else []

module _ (definition : ProcessDefinition) (element : BpmnFlowElement)
    (lc : MultiInstanceLoopCharacteristics) where
  unfoldable pub spawn_multi_instance_child : Token → Value → Exec (Unit {0})
  spawn_multi_instance_child parent item = do
    scope_id ← new_id
    save_scope (record {
      id = scope_id;
      parent_scope_id = some parent.scope_id;
      variables = loop_variables lc item;
    })
    child ←
        create_token parent.instance_id (element_id element) (element_type element) scope_id none
    update_token (record child { parent_token_id = some parent.id })
    enqueue_pending (record child { parent_token_id = some parent.id })

  unfoldable pub complete_multi_instance : Token → ℕ → Exec (Unit {0})
  complete_multi_instance parent iterations_ran = do
    complete_token parent
    i ← require_instance
    emit (multi_instance_completed i.id parent.id (element_id element) iterations_ran)
    cancel_boundary_tokens_for (element_id element)
    move_token_to_flows definition parent (outgoing_flows element)

  -- `handleMultiInstanceStart` with no item: the task is skipped.
  unfoldable pub skip_multi_instance : Token → Exec (Unit {0})
  skip_multi_instance token = do
    complete_token token
    i ← require_instance
    emit (multi_instance_completed i.id token.id (element_id element) 0)
    advance_token definition token element

  unfoldable pub start_sequential : Token → Token → Value → List Value → Exec (Unit {0})
  start_sequential token waiting_token first rest = do
    update_token (record waiting_token {
      loop_state = some (record { collection = first ∷ rest; index = 0; iterations_ran = 0 });
    })
    i ← require_instance
    emit (multi_instance_started i.id token.id (element_id element) (length (first ∷ rest)) true)
    spawn_multi_instance_child token first

  unfoldable pub start_parallel : Token → List Value → Exec (Unit {0})
  start_parallel token collection = do
    i ← require_instance
    emit (multi_instance_started i.id token.id (element_id element) (length collection) false)
    if truthy lc.output_collection
        then merge_variables token.scope_id ((or_else lc.output_collection "", array_value []) ∷ [])
        else skip
    for_each collection (spawn_multi_instance_child token)

  -- `handleMultiInstanceStart` once the collection is known to be an array.
  unfoldable pub start_multi_instance : Token → List Value → Exec (Unit {0})
  start_multi_instance token [] = skip_multi_instance token
  start_multi_instance token (first ∷ rest) = do
    time ← now
    let waiting_token = record token {
      status = waiting;
      waiting_for = some (record { type = WaitConditionType.external; correlation_data = none });
      updated_at = time;
    }
    update_token waiting_token
    if lc.is_sequential
        then start_sequential token waiting_token first rest
        else start_parallel token (first ∷ rest)

  unfoldable pub handle_multi_instance_start : Token → Exec (Unit {0})
  handle_multi_instance_start token = do
    scope ← resolve_scope token.scope_id
    raw ← evaluate lc.input_collection scope
    collection ← require (as_array raw) (collection_not_array lc.input_collection)
    start_multi_instance token collection

  -- `lc.completionCondition` holds in the child's scope; with no condition it does not.
  unfoldable pub completion_condition_holds : Token → Exec Value
  completion_condition_holds child = do
    scope ← resolve_scope child.scope_id
    evaluate (or_else lc.completion_condition "") scope

  unfoldable pub next_iteration : Token → LoopState → ℕ → Exec (Unit {0})
  next_iteration parent loop iterations_ran =
      if leb (length loop.collection) (loop.index + 1)
      then complete_multi_instance parent iterations_ran
      else (do
        update_token (record parent {
          loop_state = some (record {
            collection = loop.collection;
            index = loop.index + 1;
            iterations_ran = iterations_ran;
          });
        })
        spawn_multi_instance_child parent
            (or_else (get_elem? loop.collection (loop.index + 1)) undefined))

  unfoldable pub handle_sequential_child_completion : Token → Token → Exec (Unit {0})
  handle_sequential_child_completion child parent = case_option parent.loop_state skip λ loop.
      if truthy lc.completion_condition
      then (do
        result ← completion_condition_holds child
        if to_boolean result
            then complete_multi_instance parent (loop.iterations_ran + 1)
            else next_iteration parent loop (loop.iterations_ran + 1))
      else next_iteration parent loop (loop.iterations_ran + 1)

  -- The completion condition holds: the waiting siblings are cancelled.
  unfoldable pub stop_parallel : Token → Exec (Unit {0})
  stop_parallel parent = do
    tokens ← get_all_tokens
    time ← now
    for_each (filter (λ t. is_child_of parent t && is_waiting t.status) tokens) (cancel_token time)
    after ← get_all_tokens
    complete_multi_instance parent
        (length (filter (λ t. is_child_of parent t && is_completed t.status) after))

  unfoldable pub check_parallel_done : Token → Exec (Unit {0})
  check_parallel_done parent = do
    tokens ← get_all_tokens
    let siblings = filter (is_child_of parent) tokens
    if all (λ t. is_done t.status) siblings
        then complete_multi_instance parent (length (filter (λ t. is_completed t.status) siblings))
        else skip

  unfoldable pub handle_parallel_child_completion : Token → Token → Exec (Unit {0})
  handle_parallel_child_completion child parent =
      if truthy lc.completion_condition
      then (do
        result ← completion_condition_holds child
        if to_boolean result then stop_parallel parent else check_parallel_done parent)
      else check_parallel_done parent

  -- `outputVal.value`, pushed onto the array in the parent's scope.
  unfoldable pub push_output : Token → VariableValue → Exec (Unit {0})
  push_output parent output = do
    parent_scope ← resolve_scope parent.scope_id
    let name : String = or_else lc.output_collection ""
    merge_variables parent.scope_id
        ((name, array_value (items_of (lookup name parent_scope) ++ output.value ∷ [])) ∷ [])

  unfoldable pub collect_output : Token → Token → Exec (Unit {0})
  collect_output child parent =
      if truthy lc.output_element && truthy lc.output_collection
      then (do
        child_scope ← resolve_scope child.scope_id
        case_option (lookup (or_else lc.output_element "") child_scope) skip (push_output parent))
      else skip

  -- `handleMultiInstanceChildCompletion` once the parent token is found.
  unfoldable pub complete_child : Token → Token → Exec (Unit {0})
  complete_child child parent = do
    complete_token child
    collect_output child parent
    if lc.is_sequential
        then handle_sequential_child_completion child parent
        else handle_parallel_child_completion child parent

  unfoldable pub handle_multi_instance_child_completion : Token → Exec (Unit {0})
  handle_multi_instance_child_completion child = do
    tokens ← get_all_tokens
    case_option (find (λ t. is_text child.parent_token_id t.id) tokens) skip (complete_child child)
