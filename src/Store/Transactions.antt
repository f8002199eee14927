-- ===== src/Store/Transactions.antt =====
-- `executeTransaction` of nexus-workflow-core/src/adapters/InMemoryStateStore.ts.
use nexus_workflow.Common.{String, Option, none, some, List, [], ◌∷◌, ◌++◌, ◌≡◌, refl, ap, ◌∙◌}
use nexus_workflow.Model.Types.{
  VariableScope, Token, ProcessInstance, GatewayJoinState, CompensationRecord,
}
use nexus_workflow.Model.Elements.{ProcessDefinition}
use nexus_workflow.Store.State.{
  StateStore, HistoryEntry, EventSubscription, UserTaskRecord, ScheduledTimer,
}
use nexus_workflow.Store.Operations.{
  StoreError, Stored, stored, refused, save_definition, create_instance, update_instance,
  save_tokens, save_scope, put_user_task, save_subscription, delete_subscription,
  save_gateway_state, delete_gateway_state, append_history, save_timer, delete_timer,
  save_compensation_record, delete_compensation_record,
}

-- interfaces/StateStore.ts
pub data StoreOperation : Type 0 where
  saves_definition : ProcessDefinition → StoreOperation
  creates_instance updates_instance : ProcessInstance → StoreOperation
  saves_tokens : List Token → StoreOperation
  saves_scope : VariableScope → StoreOperation
  creates_user_task updates_user_task : UserTaskRecord → StoreOperation
  saves_subscription : EventSubscription → StoreOperation
  deletes_subscription : String → StoreOperation
  saves_gateway_state : GatewayJoinState → StoreOperation
  deletes_gateway_state : String → String → StoreOperation
  appends_history : HistoryEntry → StoreOperation
  saves_timer : ScheduledTimer → StoreOperation
  deletes_timer : String → StoreOperation
  saves_compensation_record : CompensationRecord → StoreOperation
  deletes_compensation_record : String → String → StoreOperation

-- The `switch` of `executeTransaction`.
unfoldable pub apply_operation : StoreOperation → StateStore → Stored
apply_operation (saves_definition d) s = stored (save_definition d s)
apply_operation (creates_instance i) s = stored (create_instance i s)
apply_operation (updates_instance i) s = update_instance i s
apply_operation (saves_tokens ts) s = stored (save_tokens ts s)
apply_operation (saves_scope x) s = stored (save_scope x s)
apply_operation (creates_user_task t) s = stored (put_user_task t s)
apply_operation (updates_user_task t) s = stored (put_user_task t s)
apply_operation (saves_subscription x) s = stored (save_subscription x s)
apply_operation (deletes_subscription id) s = stored (delete_subscription id s)
apply_operation (saves_gateway_state g) s = stored (save_gateway_state g s)
apply_operation (deletes_gateway_state g i) s = stored (delete_gateway_state g i s)
apply_operation (appends_history e) s = stored (append_history e s)
apply_operation (saves_timer t) s = stored (save_timer t s)
apply_operation (deletes_timer id) s = stored (delete_timer id s)
apply_operation (saves_compensation_record r) s = stored (save_compensation_record r s)
apply_operation (deletes_compensation_record i t) s = stored (delete_compensation_record i t s)

-- The store after a transaction, and what it threw: the operations before a throw have been carried
-- out, as the store is changed in place.
abbrev pub Executed : Type 0
Executed = StateStore × Option StoreError

abbrev pub and_then : Stored → StateStore → (StateStore → Executed) → Executed
and_then (stored s) before rest = rest s
and_then (refused e) before rest = (before, some e)

unfoldable pub execute_transaction : List StoreOperation → StateStore → Executed
unfolding apply_operation
execute_transaction [] s = (s, none)
execute_transaction (op ∷ ops) s =
    and_then (apply_operation op s) s (λ t. execute_transaction ops t)

-- A transaction that goes on after another.
abbrev continued : Executed → List StoreOperation → Executed
continued (s, none) ops = execute_transaction ops s
continued (s, some e) ops = (s, some e)

-- A list of operations and a further list have the effect of the first, and then, unless it threw, of
-- the second on what it left.
pub execute-append :
    (ops more : List StoreOperation) (s : StateStore)
    → execute_transaction (ops ++ more) s ≡ continued (execute_transaction ops s) more
unfolding execute_transaction
execute-append [] more s = refl
execute-append (op ∷ ops) more s = by_result (apply_operation op s) (λ t. execute-append ops more t)
  where
    by_result :
        (r : Stored)
        → ((t : StateStore)
            → execute_transaction (ops ++ more) t ≡ continued (execute_transaction ops t) more)
        → and_then r s (λ t. execute_transaction (ops ++ more) t)
          ≡ continued (and_then r s (λ t. execute_transaction ops t)) more
    by_result (stored t) rest = rest t
    by_result (refused e) rest = refl

-- A transaction is not undone when it throws: where the operations before an update succeed and the
-- update is refused, the transaction throws and the store keeps all that the operations before the
-- update did.
pub transaction-keeps_prefix :
    (ops more : List StoreOperation) (i : ProcessInstance) (s t : StateStore) (e : StoreError)
    → execute_transaction ops s ≡ (t, none)
    → update_instance i t ≡ refused e
    → execute_transaction (ops ++ updates_instance i ∷ more) s ≡ (t, some e)
unfolding execute_transaction
transaction-keeps_prefix ops more i s t e h r =
    execute-append ops (updates_instance i ∷ more) s
    ∙ ap (λ x. continued x (updates_instance i ∷ more)) h
    ∙ refusal
  where
    refusal : execute_transaction (updates_instance i ∷ more) t ≡ (t, some e)
    refusal = ap (λ x. and_then x t (λ u. execute_transaction more u)) r
