-- ===== src/Engine/Administration/Refusals.antt =====
-- The commands on one token, of engine/ExecutionEngine.ts: which tokens they accept.
use nexus_workflow.Common.{
  ℕ, String, true, Option, none, some, [], ◌≡◌, refl, sym, ◌∙◌, arith, ◌==◌, if◌then◌else◌, find,
  case_option, Bool-cases, inl, inr,
}
use nexus_workflow.Common.Dict.{lookup, index_by}
use nexus_workflow.Common.Dict.Rebuild.{lookup-index_by}
use nexus_workflow.Model.Types.{Token, is_waiting}
use nexus_workflow.Model.Elements.{ProcessDefinition}
use nexus_workflow.Model.Errors.{ok, threw, EngineError, token_not_found, token_not_waiting}
use nexus_workflow.Engine.State.{EngineState, EngineResult, ExecuteOptions, new_context}
use nexus_workflow.Engine.Monad.{require, ◌>>=◌}
use nexus_workflow.Engine.Context.{require_token}
use nexus_workflow.Engine.TaskCommands.{
  require_waiting, handle_complete_task, handle_fail_service_task,
}
use nexus_workflow.Engine.EventCommands.{handle_fire_timer}
use nexus_workflow.Engine.Commands.{
  EngineCommand, complete_service_task, fail_service_task, complete_user_task, fire_timer, dispatch,
  execute,
}
use nexus_workflow.Engine.Safety.Tokens.{IsWellFormed}

-- The commands on one token.
pub data Targets (id : String) : EngineCommand → Type 0 where
  completes_service_task : {vars : Option _} → Targets id (complete_service_task id vars)
  fails_service_task : {code message : String} → Targets id (fail_service_task id code message)
  completes_user_task : {by : String} {vars : Option _} → Targets id (complete_user_task id by vars)
  fires_timer : Targets id (fire_timer id)

-- The token of a state that an id names.
abbrev pub token_of : String → EngineState → Option Token
token_of id s = find (λ t. t.id == id) s.tokens

-- Why a command on the token of an id is refused, if it is.
abbrev pub refusal : String → EngineState → Option EngineError
refusal id s =
    case_option (token_of id s) (some (token_not_found id))
      λ t. if is_waiting t.status then none else some (token_not_waiting id t.status)

module _ (fuel : ℕ) (definition : ProcessDefinition) (options : ExecuteOptions) (id : String) where
  lookup-token :
      (s : EngineState)
      → IsWellFormed s
      → lookup id (index_by (λ t. t.id) [] s.tokens) ≡ token_of id s
  lookup-token s w = ground (arith, lookup-index_by (λ t. t.id) [] s.tokens id w.distinct_tokens)

  -- A command that completes or fails a task or fires a timer throws, in a well-formed state, when its
  -- state has no token of the given id ("token not found"), and when that token is not waiting (the
  -- error names its status); nothing else of the state, the definition or the command matters.
  pub execute-refusal :
      (command : EngineCommand) (s : EngineState) (e : EngineError)
      → Targets id command
      → IsWellFormed s
      → refusal id s ≡ some e
      → execute fuel definition command (some s) options ≡ threw e
  unfolding execute dispatch new_context handle_complete_task handle_fail_service_task
      handle_fire_timer require_waiting require_token require ◌>>=◌
  execute-refusal _ s e completes_service_task w h = ground (arith, lookup-token s w)
  execute-refusal _ s e fails_service_task w h = ground (arith, lookup-token s w)
  execute-refusal _ s e completes_user_task w h = ground (arith, lookup-token s w)
  execute-refusal _ s e fires_timer w h = ground (arith, lookup-token s w)

  pub accepted-waits :
      (command : EngineCommand) (s : EngineState) (r : EngineResult)
      → Targets id command
      → IsWellFormed s
      → execute fuel definition command (some s) options ≡ ok r
      → (t : Token) × (token_of id s ≡ some t) × (is_waiting t.status ≡ true)
  accepted-waits command s r target w h = by_token (token_of id s) refl
    where
      clash : (e : EngineError) → refusal id s ≡ some e → ⊥
      clash e k = let q = sym h ∙ execute-refusal command s e target w k in absurd (cc)

      by_token :
          (o : Option Token)
          → token_of id s ≡ o
          → (t : Token) × (token_of id s ≡ some t) × (is_waiting t.status ≡ true)
      by_token none k = elim (clash (token_not_found id) (ground arith)) [ ]
      by_token (some t) k = (
        t,
        k,
        elim (Bool-cases (is_waiting t.status)) [
          | inl e ↦ e
          | inr e ↦ elim (clash (token_not_waiting id t.status) (ground arith)) [ ]
        ],
      )
