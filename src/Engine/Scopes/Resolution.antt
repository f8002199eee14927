-- ===== src/Engine/Scopes/Resolution.antt =====
-- `resolveScope` of engine/ExecutionEngine.ts by a walk outwards through the scopes.
use nexus_workflow.Common.{
  ℕ, zero, suc, String, Option, none, some, List, [], ◌∷◌, ◌≡◌, refl, ap, ◌∙◌, arith, length, ◌<◌,
}
use nexus_workflow.Common.Dict.{Dict, lookup, assign, last_lookup, lookup-assign}
use nexus_workflow.Model.Types.{VariableValue, Variables, VariableScope}
use nexus_workflow.Model.Errors.{ok}
use nexus_workflow.Engine.Monad.{map_outcome}
use nexus_workflow.Engine.Scopes.{parent_scope, scope_chain, assign_scopes, resolve}

module _ (scopes : Dict VariableScope) where
  -- The value of a variable from a scope outwards: that of the innermost scope which has one, or else
  -- the given one.
  abbrev pub visible :
      String → ℕ → Option VariableScope → Option VariableValue → Option VariableValue
  visible name fuel none outer = outer
  visible name zero (some scope) outer = outer
  visible name (suc fuel) (some scope) outer =
      last_lookup name scope.variables (visible name fuel (parent_scope scopes scope) outer)

  -- The same for a chain of scopes, the outermost first.
  abbrev seen : String → List VariableScope → Option VariableValue → Option VariableValue
  seen name [] outer = outer
  seen name (scope ∷ chain) outer = seen name chain (last_lookup name scope.variables outer)

  lookup-assign_scopes :
      (name : String) (start : Variables) (chain : List VariableScope)
      → lookup name (assign_scopes start chain) ≡ seen name chain (lookup name start)
  unfolding assign_scopes
  lookup-assign_scopes name start [] = refl
  lookup-assign_scopes name start (scope ∷ chain) =
      lookup-assign_scopes name (assign start scope.variables) chain
      ∙ ap (seen name chain) (lookup-assign name start scope.variables)

  seen-scope_chain :
      (name : String) (fuel : ℕ) (from : Option VariableScope) (chain found : List VariableScope)
      (outer : Option VariableValue)
      → scope_chain scopes fuel from chain ≡ ok found
      → seen name found outer ≡ seen name chain (visible name fuel from outer)
  unfolding scope_chain
  seen-scope_chain name fuel none chain found outer h = ground arith
  seen-scope_chain name zero (some scope) chain found outer h = absurd (cc)
  seen-scope_chain name (suc fuel) (some scope) chain found outer h =
      seen-scope_chain name fuel (parent_scope scopes scope) (scope ∷ chain) found outer h

  module _ (depth : VariableScope → ℕ)
      (deeper : (s p : VariableScope) → parent_scope scopes s ≡ some p → depth p < depth s) where
    scope_chain-returns :
        (fuel : ℕ) (from : Option VariableScope) (chain : List VariableScope)
        → ((s : VariableScope) → from ≡ some s → depth s < fuel)
        → (found : List VariableScope) × (scope_chain scopes fuel from chain ≡ ok found)
    unfolding scope_chain
    scope_chain-returns fuel none chain h = (chain, refl)
    scope_chain-returns zero (some scope) chain h = absurd (omega (arith, h scope refl))
    scope_chain-returns (suc fuel) (some scope) chain h =
        scope_chain-returns fuel (parent_scope scopes scope) (scope ∷ chain)
          (λ p e. omega (arith, h scope refl, deeper scope p e))

    -- When parents lie less deep than their children, and the scope less deep than the number of
    -- scopes, `resolveScope` returns, and what it gives a name is the value in the innermost scope
    -- that has one, walking outwards through the parents; a name that no scope has gets no value.
    pub resolve-visible :
        (scope_id : String)
        → ((s : VariableScope) → lookup scope_id scopes ≡ some s → depth s < length scopes)
        → (vars : Variables) × (resolve scopes scope_id ≡ ok vars)
          × ((name : String)
              → lookup name vars ≡ visible name (length scopes) (lookup scope_id scopes) none)
    unfolding resolve
    resolve-visible scope_id h =
        let (found, e) = scope_chain-returns (length scopes) (lookup scope_id scopes) [] h in
        (
          assign_scopes [] found,
          ap (map_outcome (assign_scopes [])) e,
          λ name.
              lookup-assign_scopes name [] found
              ∙ seen-scope_chain name (length scopes) (lookup scope_id scopes) [] found none e,
        )
