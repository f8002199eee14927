-- ===== src/Engine/Context.antt =====
-- The methods of the class `ExecutionContext` of nexus-workflow-core/src/engine/ExecutionEngine.ts
-- on tokens, the instance, the queue, the events and the join states.
use nexus_workflow.Common.{ℕ, suc, String, Option, none, some, List, [], ◌∷◌, ◌++◌, length}
use nexus_workflow.Common.Dict.{lookup, insert, erase, values}
use nexus_workflow.Model.Types.{
  BpmnElementType, Token, active, ProcessInstance, GatewayJoinState, join_gateway_id,
}
use nexus_workflow.Model.Events.{ExecutionEvent}
use nexus_workflow.Model.Errors.{token_not_found, no_active_instance}
use nexus_workflow.Engine.State.{EngineResult}
use nexus_workflow.Engine.Monad.{Exec, pure, gets, modify, require, ◌>>=◌, ◌>>◌}

unfoldable pub now : Exec ℕ
unfolding ◌>>=◌
now = do
  time ← gets (λ ctx. ctx.options.now ctx.ticks)
  modify (λ ctx. record ctx { ticks = suc ctx.ticks })
  pure time

unfoldable pub new_id : Exec String
unfolding ◌>>=◌
new_id = do
  id ← gets (λ ctx. ctx.options.generate_id ctx.ids)
  modify (λ ctx. record ctx { ids = suc ctx.ids })
  pure id

unfoldable pub emit : ExecutionEvent → Exec (Unit {0})
unfolding modify
emit event = modify (λ ctx. record ctx { events = ctx.events ++ event ∷ [] })

unfoldable pub update_token : Token → Exec (Unit {0})
unfolding modify
update_token token = modify (λ ctx. record ctx { token_map = insert token.id token ctx.token_map })

-- `arrivedViaFlowId` is `none` where the source leaves the argument out.
unfoldable pub create_token :
    String → String → BpmnElementType → String → Option String → Exec Token
unfolding new_id now update_token
create_token instance_id element_id element_type scope_id arrived_via_flow_id = do
  id ← new_id
  created_at ← now
  updated_at ← now
  let token : Token = record {
    id = id;
    instance_id = instance_id;
    element_id = element_id;
    element_type = element_type;
    status = active;
    scope_id = scope_id;
    arrived_via_flow_id = arrived_via_flow_id;
    parent_token_id = none;
    sub_process_instance_id = none;
    waiting_for = none;
    loop_state = none;
    created_at = created_at;
    updated_at = updated_at;
  }
  update_token token
  pure token

unfoldable pub require_token : String → Exec Token
unfolding require ◌>>=◌
require_token id = do
  token ← gets (λ ctx. lookup id ctx.token_map)
  require token (token_not_found id)

unfoldable pub require_instance : Exec ProcessInstance
unfolding require ◌>>=◌
require_instance = do found ← gets (λ ctx. ctx.process_instance); require found no_active_instance

unfoldable pub set_instance : ProcessInstance → Exec (Unit {0})
unfolding modify
set_instance i = modify (λ ctx. record ctx { process_instance = some i })

unfoldable pub get_all_tokens : Exec (List Token)
unfolding gets
get_all_tokens = gets (λ ctx. values ctx.token_map)

unfoldable pub enqueue_pending : Token → Exec (Unit {0})
unfolding modify
enqueue_pending token =
    modify (λ ctx. record ctx { pending_queue = ctx.pending_queue ++ token ∷ [] })

abbrev pub head? {ℓ} : {A : Type ℓ} → List A → Option A
head? [] = none
head? (x ∷ xs) = some x

abbrev pub tail {ℓ} : {A : Type ℓ} → List A → List A
tail [] = []
tail (x ∷ xs) = xs

unfoldable pub dequeue_pending : Exec (Option Token)
unfolding ◌>>=◌
dequeue_pending = do
  token ← gets (λ ctx. head? ctx.pending_queue)
  modify (λ ctx. record ctx { pending_queue = tail ctx.pending_queue })
  pure token

unfoldable pub pending_count : Exec ℕ
unfolding gets
pending_count = gets (λ ctx. length ctx.pending_queue)

unfoldable pub get_join_state : String → Exec (Option GatewayJoinState)
unfolding gets
get_join_state gateway_id = gets (λ ctx. lookup gateway_id ctx.join_state_map)

unfoldable pub save_join_state : GatewayJoinState → Exec (Unit {0})
unfolding modify
save_join_state state =
    modify (λ ctx. record ctx {
      join_state_map = insert (join_gateway_id state) state ctx.join_state_map;
    })

unfoldable pub delete_join_state : String → Exec (Unit {0})
unfolding modify
delete_join_state gateway_id =
    modify (λ ctx. record ctx { join_state_map = erase gateway_id ctx.join_state_map })

unfoldable pub to_result : Exec EngineResult
unfolding require_instance ◌>>=◌
to_result = do
  current ← require_instance
  gets (λ ctx. record {
    new_state = record {
      process_instance = current;
      tokens = values ctx.token_map;
      scopes = values ctx.scope_map;
      gateway_join_states = values ctx.join_state_map;
      compensation_records = ctx.compensation_list;
    };
    events = ctx.events;
  })
