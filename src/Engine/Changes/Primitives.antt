-- ===== src/Engine/Changes/Primitives.antt =====
-- The methods of `ExecutionContext` as steps.
use nexus_workflow.Common.{String, not, ◌≡◌, refl, Option, none, some, ◌==◌}
use nexus_workflow.Common.Dict.{lookup}
use nexus_workflow.Model.Types.{
  Variables, VariableScope, Token, BpmnElementType, GatewayJoinState, CompensationRecord,
}
use nexus_workflow.Model.Events.{ExecutionEvent}
use nexus_workflow.Engine.State.{ExecutionContext}
use nexus_workflow.Engine.Monad.{require, ◌>>=◌}
use nexus_workflow.Engine.Context.{
  now, new_id, emit, update_token, create_token, require_token, require_instance, get_all_tokens,
  enqueue_pending, dequeue_pending, pending_count, get_join_state, save_join_state,
  delete_join_state,
}
use nexus_workflow.Engine.Scopes.{save_scope, resolve_scope, merge_variables}
use nexus_workflow.Engine.Records.{
  add_compensation_record, consume_compensation_records, consume_all_compensation_records,
}
use nexus_workflow.Engine.Changes.{
  ticked, named, emitted, put_token, put_scope, merged, put_join, dropped_join, recorded, consumed,
  consumed_all, queued, unqueued, one, Ends, Steps,
}
use nexus_workflow.Engine.Changes.Rules.{steps_rules}

pub now-Steps : Steps now
unfolding now ◌>>=◌
now-Steps = record { at = λ c. one (ticked c) }

pub new_id-Steps : Steps new_id
unfolding new_id ◌>>=◌
new_id-Steps = record { at = λ c. one (named c) }

pub emit-Steps : (event : ExecutionEvent) → Steps (emit event)
unfolding emit
emit-Steps event = record { at = λ c. one (emitted c event) }

pub update_token-Steps : (t : Token) → Steps (update_token t)
unfolding update_token
update_token-Steps t = record { at = λ c. one (put_token c t) }

pub create_token-Steps :
    (i e : String) (type : BpmnElementType) (s : String) (f : Option String)
    → Steps (create_token i e type s f)
unfolding create_token
create_token-Steps i e type s f =
    search (steps_rules, now-Steps, new_id-Steps, update_token-Steps) depth 12

pub require_token-Steps : (id : String) → Steps (require_token id)
unfolding require_token
require_token-Steps id = search steps_rules

pub require_instance-Steps : Steps require_instance
unfolding require_instance
require_instance-Steps = search steps_rules

pub get_all_tokens-Steps : Steps get_all_tokens
unfolding get_all_tokens
get_all_tokens-Steps = search steps_rules

pub enqueue_pending-Steps : (t : Token) → Steps (enqueue_pending t)
unfolding enqueue_pending
enqueue_pending-Steps t = record { at = λ c. one (queued c t) }

pub dequeue_pending-Steps : Steps dequeue_pending
unfolding dequeue_pending ◌>>=◌
dequeue_pending-Steps = record { at = λ c. one (unqueued c) }

pub pending_count-Steps : Steps pending_count
unfolding pending_count
pending_count-Steps = search steps_rules

pub get_join_state-Steps : (g : String) → Steps (get_join_state g)
unfolding get_join_state
get_join_state-Steps g = search steps_rules

pub save_join_state-Steps : (js : GatewayJoinState) → Steps (save_join_state js)
unfolding save_join_state
save_join_state-Steps js = record { at = λ c. one (put_join c js) }

pub delete_join_state-Steps : (g : String) → Steps (delete_join_state g)
unfolding delete_join_state
delete_join_state-Steps g = record { at = λ c. one (dropped_join c g) }

pub save_scope-Steps : (s : VariableScope) → Steps (save_scope s)
unfolding save_scope
save_scope-Steps s = record { at = λ c. one (put_scope c s) }

pub resolve_scope-Steps : (id : String) → Steps (resolve_scope id)
unfolding resolve_scope
resolve_scope-Steps id = search steps_rules

pub merge_variables-Steps : (id : String) (vars : Variables) → Steps (merge_variables id vars)
unfolding merge_variables require ◌>>=◌
merge_variables-Steps id vars = record { at = λ c. found c (lookup id c.scope_map) refl }
  where
    found :
        (c : ExecutionContext) (o : Option VariableScope)
        → lookup id c.scope_map ≡ o
        → Ends c (merge_variables id vars c)
    found c none e = rw e tt
    found c (some s) e = rw e (one (merged c id s vars e))

pub add_compensation_record-Steps : (r : CompensationRecord) → Steps (add_compensation_record r)
unfolding add_compensation_record
add_compensation_record-Steps r = record { at = λ c. one (recorded c r) }

pub consume_compensation_records-Steps : (id : String) → Steps (consume_compensation_records id)
unfolding consume_compensation_records ◌>>=◌
consume_compensation_records-Steps id = record {
  at = λ c. one (consumed c (λ r. not (r.activity_id == id)));
}

pub consume_all_compensation_records-Steps : Steps consume_all_compensation_records
unfolding consume_all_compensation_records ◌>>=◌
consume_all_compensation_records-Steps = record { at = λ c. one (consumed_all c) }

pub ruleset primitive_rules = (
  steps_rules, now-Steps, new_id-Steps, emit-Steps, update_token-Steps, create_token-Steps,
  require_token-Steps, require_instance-Steps, get_all_tokens-Steps, enqueue_pending-Steps,
  dequeue_pending-Steps, pending_count-Steps, get_join_state-Steps, save_join_state-Steps,
  delete_join_state-Steps, save_scope-Steps, resolve_scope-Steps, merge_variables-Steps,
  add_compensation_record-Steps, consume_compensation_records-Steps,
  consume_all_compensation_records-Steps,
)
