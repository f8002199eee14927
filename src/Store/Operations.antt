-- ===== src/Store/Operations.antt =====
-- The operations of nexus-workflow-core/src/adapters/InMemoryStateStore.ts that change its state, and
-- the reads by a key.
use Prim.Native.String
use Prim.Native.Nat.{◌/◌, ◌%◌}
use nexus_workflow.Common.{
  ℕ, zero, suc, String, Bool, true, false, not, ◌&&◌, Option, none, some, List, [], ◌∷◌, ◌++◌, ◌==◌,
  eqb, ltb, leb, filter, get_elem?, if◌then◌else◌, case_option, or_else,
}
use nexus_workflow.Common.Dict.{lookup, insert, erase, values}
use nexus_workflow.Model.Types.{
  VariableScope, Token, TokenStatus, ProcessInstance, GatewayJoinState, parallel, inclusive,
  join_gateway_id, CompensationRecord,
}
use nexus_workflow.Model.Elements.{ProcessDefinition}
use nexus_workflow.Store.State.{
  StateStore, HistoryEntry, EventSubscription, UserTaskRecord, ScheduledTimer,
}

-- Why an operation threw: `ConcurrentModificationError`, with the instance's id.
pub data StoreError : Type 0 where
  concurrent_modification : String → StoreError

pub data Stored : Type 0 where
  stored : StateStore → Stored
  refused : StoreError → Stored

abbrev pub gateway_key : String → String → String
gateway_key gateway_id instance_id = String.◌++◌ instance_id (String.◌++◌ "::" gateway_id)

-- A number below ten as text.
abbrev digit : ℕ → String
digit n = or_else (get_elem? ("0" ∷ "1" ∷ "2" ∷ "3" ∷ "4" ∷ "5" ∷ "6" ∷ "7" ∷ "8" ∷ "9" ∷ []) n) ""

-- `${n}`; a number has no more digits than its value and one.
abbrev digits : ℕ → ℕ → String
digits zero n = ""
digits (suc fuel) n =
    let before = digits fuel (n / 10) in
    if ltb n 10 then digit n else String.◌++◌ before (digit (n % 10))

abbrev pub definition_key : String → ℕ → String
definition_key id version = String.◌++◌ id (String.◌++◌ "@" (digits (suc version) version))

abbrev pub join_instance_id : GatewayJoinState → String
join_instance_id (parallel js) = js.instance_id
join_instance_id (inclusive js) = js.instance_id

unfoldable pub save_definition : ProcessDefinition → StateStore → StateStore
save_definition d s = record s {
  definitions = insert (definition_key d.id d.version) d s.definitions;
}

-- The newest version of a definition: the loop of `getDefinition`.
abbrev pub latest :
    String → Option ProcessDefinition → List ProcessDefinition → Option ProcessDefinition
latest id found [] = found
latest id found (d ∷ ds) =
    latest id
      (if d.id == id && case_option found true (λ l. ltb l.version d.version)
        then some d
        else found)
      ds

unfoldable pub get_definition : String → Option ℕ → StateStore → Option ProcessDefinition
get_definition id (some version) s = lookup (definition_key id version) s.definitions
get_definition id none s = latest id none (values s.definitions)

unfoldable pub create_instance : ProcessInstance → StateStore → StateStore
create_instance i s = record s {
  instances = insert i.id (record i { version = some 1 }) s.instances;
}

-- `instance.version !== undefined && current && (current.version ?? 1) !== instance.version`
abbrev pub is_outdated : ProcessInstance → Option ProcessInstance → Bool
is_outdated i current =
    case_option i.version false
      (λ v. case_option current false (λ c. not (eqb (or_else c.version 1) v)))

abbrev pub next_version : Option ProcessInstance → ℕ
next_version current = suc (case_option current 0 (λ c. or_else c.version 0))

unfoldable pub update_instance : ProcessInstance → StateStore → Stored
update_instance i s =
    let current = lookup i.id s.instances in
    if is_outdated i current
    then refused (concurrent_modification i.id)
    else stored (record s {
      instances = insert i.id (record i { version = some (next_version current) }) s.instances;
    })

unfoldable pub get_instance : String → StateStore → Option ProcessInstance
get_instance id s = lookup id s.instances

-- The first token of the id is replaced, or the token is pushed.
abbrev pub put_token : Token → List Token → List Token
put_token t [] = t ∷ []
put_token t (u ∷ us) = let rest = put_token t us in if u.id == t.id then t ∷ us else u ∷ rest

unfoldable pub save_tokens : List Token → StateStore → StateStore
save_tokens [] s = s
save_tokens (t ∷ ts) s = save_tokens ts (record s {
  tokens = insert t.instance_id (put_token t (or_else (lookup t.instance_id s.tokens) [])) s.tokens;
})

unfoldable pub get_all_tokens : String → StateStore → List Token
get_all_tokens instance_id s = or_else (lookup instance_id s.tokens) []

abbrev pub is_active_token : TokenStatus → Bool
is_active_token TokenStatus.active = true
is_active_token TokenStatus.waiting = true
is_active_token TokenStatus.suspended = true
is_active_token _ = false

unfoldable pub get_active_tokens : String → StateStore → List Token
get_active_tokens instance_id s =
    filter (λ t. is_active_token t.status) (or_else (lookup instance_id s.tokens) [])

unfoldable pub save_scope : VariableScope → StateStore → StateStore
save_scope scope s = record s { scopes = insert scope.id scope s.scopes }

unfoldable pub get_scope : String → StateStore → Option VariableScope
get_scope id s = lookup id s.scopes

-- `createUserTask` and `updateUserTask` are the same.
unfoldable pub put_user_task : UserTaskRecord → StateStore → StateStore
put_user_task t s = record s { user_tasks = insert t.id t s.user_tasks }

unfoldable pub save_subscription : EventSubscription → StateStore → StateStore
save_subscription x s = record s { subscriptions = insert x.id x s.subscriptions }

unfoldable pub delete_subscription : String → StateStore → StateStore
delete_subscription id s = record s { subscriptions = erase id s.subscriptions }

unfoldable pub save_gateway_state : GatewayJoinState → StateStore → StateStore
save_gateway_state g s = record s {
  gateway_states = insert (gateway_key (join_gateway_id g) (join_instance_id g)) g s.gateway_states;
}

unfoldable pub get_gateway_state : String → String → StateStore → Option GatewayJoinState
get_gateway_state gateway_id instance_id s =
    lookup (gateway_key gateway_id instance_id) s.gateway_states

unfoldable pub delete_gateway_state : String → String → StateStore → StateStore
delete_gateway_state gateway_id instance_id s = record s {
  gateway_states = erase (gateway_key gateway_id instance_id) s.gateway_states;
}

unfoldable pub append_history : HistoryEntry → StateStore → StateStore
append_history e s = record s {
  history = insert e.instance_id (or_else (lookup e.instance_id s.history) [] ++ e ∷ []) s.history;
}

unfoldable pub save_timer : ScheduledTimer → StateStore → StateStore
save_timer t s = record s { timers = insert t.id t s.timers }

unfoldable pub delete_timer : String → StateStore → StateStore
delete_timer id s = record s { timers = erase id s.timers }

unfoldable pub get_due_timers : ℕ → StateStore → List ScheduledTimer
get_due_timers before s = filter (λ t. leb t.fire_at before) (values s.timers)

unfoldable pub save_compensation_record : CompensationRecord → StateStore → StateStore
save_compensation_record r s = record s {
  compensation_records =
      insert r.instance_id (or_else (lookup r.instance_id s.compensation_records) [] ++ r ∷ [])
        s.compensation_records;
}

unfoldable pub delete_compensation_record : String → String → StateStore → StateStore
delete_compensation_record instance_id token_id s = record s {
  compensation_records =
      insert instance_id
        (filter (λ r. not (r.token_id == token_id))
          (or_else (lookup instance_id s.compensation_records) []))
        s.compensation_records;
}
