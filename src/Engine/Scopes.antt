-- ===== src/Engine/Scopes.antt =====
-- The variable scopes of the class `ExecutionContext`.
pub mod Resolution
use nexus_workflow.Common.{
  ℕ, zero, suc, String, Option, none, some, List, [], ◌∷◌, if◌then◌else◌, case_option, truthy,
  length,
}
use nexus_workflow.Common.Dict.{Dict, lookup, insert, assign}
use nexus_workflow.Model.Types.{Variables, VariableScope}
use nexus_workflow.Model.Errors.{Outcome, ok, loops, scope_not_found}
use nexus_workflow.Engine.Monad.{Exec, map_outcome, lift, gets, modify, require, ◌>>=◌}

unfoldable pub save_scope : VariableScope → Exec (Unit {0})
unfolding modify
save_scope scope = modify (λ ctx. record ctx { scope_map = insert scope.id scope ctx.scope_map })

-- `scope.parentScopeId ? scopeMap.get(scope.parentScopeId) : undefined`
abbrev pub parent_scope : Dict VariableScope → VariableScope → Option VariableScope
parent_scope scope_map scope =
    if truthy scope.parent_scope_id
    then case_option scope.parent_scope_id none (λ id. lookup id scope_map)
    else none

-- The `while` loop of `resolveScope`: the chain, outermost scope first.
unfoldable pub scope_chain :
    Dict VariableScope
    → ℕ
    → Option VariableScope
    → List VariableScope
    → Outcome (List VariableScope)
scope_chain scope_map fuel none chain = ok chain
scope_chain scope_map zero (some scope) chain = loops
scope_chain scope_map (suc fuel) (some scope) chain =
    scope_chain scope_map fuel (parent_scope scope_map scope) (scope ∷ chain)

-- The second loop of `resolveScope`.
unfoldable pub assign_scopes : Variables → List VariableScope → Variables
assign_scopes result [] = result
assign_scopes result (scope ∷ scopes) = assign_scopes (assign result scope.variables) scopes

-- A chain without a repetition is no longer than the number of scopes, which is the fuel.
unfoldable pub resolve : Dict VariableScope → String → Outcome Variables
unfolding scope_chain assign_scopes
resolve scope_map scope_id =
    map_outcome (assign_scopes [])
      (scope_chain scope_map (length scope_map) (lookup scope_id scope_map) [])

unfoldable pub resolve_scope : String → Exec Variables
unfolding resolve ◌>>=◌
resolve_scope scope_id = do resolved ← gets (λ ctx. resolve ctx.scope_map scope_id); lift resolved

unfoldable pub merge_variables : String → Variables → Exec (Unit {0})
unfolding require ◌>>=◌
merge_variables scope_id vars = do
  found ← gets (λ ctx. lookup scope_id ctx.scope_map)
  scope ← require found (scope_not_found scope_id)
  modify (λ ctx. record ctx {
    scope_map =
        insert scope_id (record scope { variables = assign scope.variables vars }) ctx.scope_map;
  })
