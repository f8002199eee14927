-- ===== src/Engine/Changes.antt =====
-- What a command may do to the context, as a step relation: one constructor for each effect of the
-- methods of `ExecutionContext` (engine/ExecutionEngine.ts). `Steps m` says that whatever `m` does,
-- when it returns, is a sequence of such steps.
pub mod Rules
pub mod Primitives
pub mod Moves
pub mod Boundaries
pub mod SubProcess
pub mod Compensation
pub mod MultiInstance
pub mod Gateways
pub mod Handlers
pub mod Commands
pub mod Execute
use nexus_workflow.Common.{
  ℕ, suc, String, Bool, ◌≡◌, Option, none, some, List, [], ◌∷◌, ◌++◌, filter,
}
use nexus_workflow.Common.Dict.{lookup, insert, erase, assign}
use nexus_workflow.Model.Types.{
  Variables, VariableScope, Token, ProcessInstance, GatewayJoinState, join_gateway_id,
  CompensationRecord,
}
use nexus_workflow.Model.Events.{ExecutionEvent}
use nexus_workflow.Model.Errors.{Outcome, ok, threw, loops}
use nexus_workflow.Engine.State.{ExecutionContext}
use nexus_workflow.Engine.Monad.{Exec}
use nexus_workflow.Engine.Context.{tail}

-- What of an instance no command but `StartProcess` changes.
pub record SameIdentity (i j : ProcessInstance) : Type 0 where
  pub same_id : j.id ≡ i.id
  pub same_definition : j.definition_id ≡ i.definition_id
  pub same_definition_version : j.definition_version ≡ i.definition_version
  pub same_root_scope : j.root_scope_id ≡ i.root_scope_id
  pub same_correlation_key : j.correlation_key ≡ i.correlation_key
  pub same_business_key : j.business_key ≡ i.business_key
  pub same_started_at : j.started_at ≡ i.started_at
  pub same_version : j.version ≡ i.version

pub data Change : ExecutionContext → ExecutionContext → Type 0 where
  ticked : (c : ExecutionContext) → Change c (record c { ticks = suc c.ticks })
  named : (c : ExecutionContext) → Change c (record c { ids = suc c.ids })
  emitted :
      (c : ExecutionContext) (event : ExecutionEvent)
      → Change c (record c { events = c.events ++ event ∷ [] })
  put_token :
      (c : ExecutionContext) (t : Token)
      → Change c (record c { token_map = insert t.id t c.token_map })
  put_scope :
      (c : ExecutionContext) (s : VariableScope)
      → Change c (record c { scope_map = insert s.id s c.scope_map })
  merged :
      (c : ExecutionContext) (id : String) (s : VariableScope) (vars : Variables)
      → lookup id c.scope_map ≡ some s
      → Change c (record c {
        scope_map = insert id (record s { variables = assign s.variables vars }) c.scope_map;
      })
  put_join :
      (c : ExecutionContext) (js : GatewayJoinState)
      → Change c (record c { join_state_map = insert (join_gateway_id js) js c.join_state_map })
  dropped_join :
      (c : ExecutionContext) (gateway_id : String)
      → Change c (record c { join_state_map = erase gateway_id c.join_state_map })
  recorded :
      (c : ExecutionContext) (r : CompensationRecord)
      → Change c (record c { compensation_list = c.compensation_list ++ r ∷ [] })
  consumed :
      (c : ExecutionContext) (p : CompensationRecord → Bool)
      → Change c (record c { compensation_list = filter p c.compensation_list })
  consumed_all : (c : ExecutionContext) → Change c (record c { compensation_list = [] })
  queued :
      (c : ExecutionContext) (t : Token)
      → Change c (record c { pending_queue = c.pending_queue ++ t ∷ [] })
  unqueued : (c : ExecutionContext) → Change c (record c { pending_queue = tail c.pending_queue })
  changed_instance :
      (c : ExecutionContext) (i j : ProcessInstance)
      → c.process_instance ≡ some i
      → SameIdentity i j
      → Change c (record c { process_instance = some j })
  -- `StartProcess`, in a context without an instance.
  began :
      (c : ExecutionContext) (i : ProcessInstance)
      → c.process_instance ≡ none
      → Change c (record c { process_instance = some i })

-- Any number of steps.
pub data Changes (c : ExecutionContext) : ExecutionContext → Type 0 where
  here : Changes c c
  next : {d e : ExecutionContext} → Changes c d → Change d e → Changes c e

pub Changes-trans : {c d e : ExecutionContext} → Changes c d → Changes d e → Changes c e
Changes-trans p here = p
Changes-trans p (next q s) = next (Changes-trans p q) s

pub one : {c d : ExecutionContext} → Change c d → Changes c d
one s = next here s

-- The outcome is reached by such steps, if it is a return.
abbrev pub Ends {ℓ} : {A : Type ℓ} → ExecutionContext → Outcome (A × ExecutionContext) → Type 0
Ends c (ok (a, d)) = Changes c d
Ends c (threw e) = Unit
Ends c loops = Unit

pub record Steps {A : Type 0} (m : Exec A) : Type 0 where
  pub at : (c : ExecutionContext) → Ends c (m c)
