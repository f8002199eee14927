-- ===== src/Engine/SubProcess.antt =====
-- Sub-processes and transactions, in engine/ExecutionEngine.ts.
use nexus_workflow.Common.{
  String, Bool, false, true, not, ◌&&◌, none, some, List, [], ◌∷◌, ◌==◌, find, if◌then◌else◌,
  case_option, truthy, is_text, or_else,
}
use nexus_workflow.Model.Types.{
  Token, is_waiting, is_live, BpmnElementType, WaitConditionType, CompensationRecord, Variables,
}
use nexus_workflow.Model.Elements.{
  EventDefinitionType, BpmnElement, ProcessDefinition, element_type,
}
use nexus_workflow.Model.Events.{
  token_moved, boundary_event_triggered, sub_process_started, sub_process_completed,
  transaction_cancelled,
}
use nexus_workflow.Engine.Monad.{Exec, pure, for_each, collect, ◌>>=◌, ◌>>◌}
use nexus_workflow.Engine.Context.{
  now, new_id, emit, update_token, create_token, enqueue_pending, get_all_tokens, require_instance,
}
use nexus_workflow.Engine.Scopes.{save_scope, resolve_scope, merge_variables}
use nexus_workflow.Engine.Records.{consume_all_compensation_records}
use nexus_workflow.Engine.Definition.{
  Boundary, find_element_in_tree, find_boundaries_for, get_element,
}
use nexus_workflow.Engine.Moves.{
  skip, complete_token, cancel_token, suspend_token, move_token_to_flows, advance_token,
}
use nexus_workflow.Engine.Boundaries.{spawn_boundary_tokens}

abbrev pub is_cancel : EventDefinitionType → Bool
is_cancel EventDefinitionType.cancel = true
is_cancel _ = false

-- `Object.keys(vars).length > 0` guards the merge.
abbrev pub merge_nonempty : String → Variables → Exec (Unit {0})
merge_nonempty scope_id [] = skip
merge_nonempty scope_id (v ∷ vars) = merge_variables scope_id (v ∷ vars)

-- `t.elementId === id && t.status === 'waiting'`
abbrev pub waits_at : String → Token → Bool
waits_at id t = t.element_id == id && is_waiting t.status

abbrev pub is_empty {ℓ} : {A : Type ℓ} → List A → Bool
is_empty [] = true
is_empty (x ∷ xs) = false

module _ (definition : ProcessDefinition) where
  -- The element's own fields: `isTransaction` and `startEventId`.
  unfoldable pub handle_sub_process : Token → BpmnElement → Bool → String → Exec (Unit {0})
  handle_sub_process token base is_transaction start_event_id = do
    i ← require_instance
    child_scope_id ← new_id
    save_scope
        (record { id = child_scope_id; parent_scope_id = some token.scope_id; variables = [] })
    suspend_token token WaitConditionType.external
    if is_transaction then spawn_boundary_tokens definition token base.id else skip
    emit (sub_process_started i.id token.id base.id)
    inner_base ← create_token i.id start_event_id BpmnElementType.start_event child_scope_id none
    let inner = record inner_base { sub_process_instance_id = some base.id }
    update_token inner
    enqueue_pending inner

  -- The scope of the first inner token, merged into the scope of the outer one.
  unfoldable pub propagate_inner_scope : String → Token → Exec (Unit {0})
  propagate_inner_scope sub_process_instance_id outer = do
    tokens ← get_all_tokens
    case_option (find (λ t. is_text t.sub_process_instance_id sub_process_instance_id) tokens) skip
        λ first. do
          inner_vars ← resolve_scope first.scope_id
          merge_nonempty outer.scope_id inner_vars

  unfoldable pub complete_sub_process : String → Token → Exec (Unit {0})
  complete_sub_process sub_process_instance_id outer = do
    i ← require_instance
    propagate_inner_scope sub_process_instance_id outer
    emit (sub_process_completed i.id outer.id sub_process_instance_id)
    element ← get_element definition sub_process_instance_id
    advance_token definition outer element

  unfoldable pub check_sub_process_completion : String → Exec (Unit {0})
  check_sub_process_completion sub_process_instance_id = do
    tokens ← get_all_tokens
    case_option
        (find (λ t. is_text t.sub_process_instance_id sub_process_instance_id && is_live t.status)
          tokens)
        (case_option (find (waits_at sub_process_instance_id) tokens) skip
          (complete_sub_process sub_process_instance_id))
        (λ live. skip)

  -- `fireCancelBoundary` once the boundary event and its token are found.
  unfoldable pub fire_boundary : Token → Boundary → Token → Exec (Unit {0})
  fire_boundary outer (base, e) boundary_token = do
    complete_token boundary_token
    emit (boundary_event_triggered outer.instance_id boundary_token.id base.id true)
    time ← now
    cancel_token time outer
    move_token_to_flows definition boundary_token base.outgoing_flows

  unfoldable pub fire_cancel_boundary : Token → String → Exec (Unit {0})
  fire_cancel_boundary outer sub_process_element_id =
      case_option
        (find (λ b. is_cancel b.1.event_definition.type)
          (find_boundaries_for definition sub_process_element_id))
        skip
        λ boundary. do
          tokens ← get_all_tokens
          case_option (find (waits_at boundary.0.id) tokens) skip (fire_boundary outer boundary)

  -- The body of the loop over the compensation records: the activity, if its handler was found.
  unfoldable pub compensate_in_transaction :
      String → Token → String → CompensationRecord → Exec (List String)
  compensate_in_transaction instance_id cancelling sub_process_instance_id r =
      case_option (find_element_in_tree definition.elements r.handler_id) (pure []) λ handler. do
        token ←
            create_token instance_id r.handler_id (element_type handler) cancelling.scope_id none
        let tagged = record token {
          parent_token_id = some cancelling.id;
          sub_process_instance_id = some sub_process_instance_id;
        }
        update_token tagged
        emit (
            token_moved instance_id tagged.id cancelling.element_id r.handler_id
              (element_type handler))
        enqueue_pending tagged
        pure (r.activity_id ∷ [])

  -- `handleTransactionCancel` once the token is known to be inside a sub-process.
  unfoldable pub cancel_transaction : Token → String → Exec (Unit {0})
  cancel_transaction cancelling sub_process_instance_id = do
    i ← require_instance
    time ← now
    tokens ← get_all_tokens
    for_each tokens (λ t.
        if not (t.id == cancelling.id)
          && is_text t.sub_process_instance_id sub_process_instance_id
          && is_live t.status
        then cancel_token time t
        else skip)
    after ← get_all_tokens
    records ← consume_all_compensation_records
    compensated ←
        collect records (compensate_in_transaction i.id cancelling sub_process_instance_id)
    emit (transaction_cancelled i.id cancelling.id sub_process_instance_id compensated)
    case_option (find (waits_at sub_process_instance_id) after) skip λ outer.
        if is_empty records then fire_cancel_boundary outer sub_process_instance_id else skip

  unfoldable pub handle_transaction_cancel : Token → Exec (Unit {0})
  handle_transaction_cancel cancelling =
      if truthy cancelling.sub_process_instance_id
      then cancel_transaction cancelling (or_else cancelling.sub_process_instance_id "")
      else skip
