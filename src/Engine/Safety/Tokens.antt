-- ===== src/Engine/Safety/Tokens.antt =====
-- The ids of tokens, scopes and join states, over the commands of engine/ExecutionEngine.ts.
use nexus_workflow.Common.{
  ℕ, String, true, Option, none, some, List, [], ◌≡◌, refl, ap, sym, ◌∙◌, subst, map, includes,
}
use nexus_workflow.Common.Sets.{Distinct}
use nexus_workflow.Common.Dict.{keys}
use nexus_workflow.Common.Dict.Keys.{
  Keyed-erase, Distinct-erase, insert-keeps, Distinct-insert, Keyed, Keyed-insert, map-key-values,
  Keyed-index_by, Distinct-index_by, includes-index_by, key_of_lookup,
}
use nexus_workflow.Model.Types.{join_gateway_id}
use nexus_workflow.Model.Elements.{ProcessDefinition}
use nexus_workflow.Model.Errors.{ok}
use nexus_workflow.Engine.State.{
  EngineState, EngineResult, ExecuteOptions, ExecutionContext, new_context,
}
use nexus_workflow.Engine.Commands.{EngineCommand, execute}
use nexus_workflow.Engine.Changes.{
  Change, put_token, put_scope, merged, put_join, dropped_join, Changes, here, next,
}
use nexus_workflow.Engine.Changes.Execute.{Fits, execute-Changes}

-- Tokens and scopes stand under their ids, and no id stands twice.
pub record IsKeyed (c : ExecutionContext) : Type 0 where
  pub tokens_keyed : Keyed (λ t. t.id) c.token_map
  pub tokens_distinct : Distinct (keys c.token_map)
  pub scopes_keyed : Keyed (λ s. s.id) c.scope_map
  pub scopes_distinct : Distinct (keys c.scope_map)
  pub joins_keyed : Keyed join_gateway_id c.join_state_map
  pub joins_distinct : Distinct (keys c.join_state_map)

new_context-IsKeyed :
    (state : Option EngineState) (options : ExecuteOptions) → IsKeyed (new_context state options)
unfolding new_context
new_context-IsKeyed none options = record {
  tokens_keyed = tt;
  tokens_distinct = tt;
  scopes_keyed = tt;
  scopes_distinct = tt;
  joins_keyed = tt;
  joins_distinct = tt;
}
new_context-IsKeyed (some s) options = record {
  tokens_keyed = Keyed-index_by (λ t. t.id) [] s.tokens tt;
  tokens_distinct = Distinct-index_by (λ t. t.id) [] s.tokens tt;
  scopes_keyed = Keyed-index_by (λ x. x.id) [] s.scopes tt;
  scopes_distinct = Distinct-index_by (λ x. x.id) [] s.scopes tt;
  joins_keyed = Keyed-index_by join_gateway_id [] s.gateway_join_states tt;
  joins_distinct = Distinct-index_by join_gateway_id [] s.gateway_join_states tt;
}

pub Change-IsKeyed : {c d : ExecutionContext} → Change c d → IsKeyed c → IsKeyed d
Change-IsKeyed (put_token c t) k = record {
  tokens_keyed = Keyed-insert (λ t. t.id) t.id t c.token_map refl k.tokens_keyed;
  tokens_distinct = Distinct-insert t.id t c.token_map k.tokens_distinct;
  scopes_keyed = k.scopes_keyed;
  scopes_distinct = k.scopes_distinct;
  joins_keyed = k.joins_keyed;
  joins_distinct = k.joins_distinct;
}
Change-IsKeyed (put_scope c s) k = record {
  tokens_keyed = k.tokens_keyed;
  tokens_distinct = k.tokens_distinct;
  scopes_keyed = Keyed-insert (λ x. x.id) s.id s c.scope_map refl k.scopes_keyed;
  scopes_distinct = Distinct-insert s.id s c.scope_map k.scopes_distinct;
  joins_keyed = k.joins_keyed;
  joins_distinct = k.joins_distinct;
}
Change-IsKeyed (merged c id s vars e) k = record {
  tokens_keyed = k.tokens_keyed;
  tokens_distinct = k.tokens_distinct;
  scopes_keyed =
      Keyed-insert (λ x. x.id) id _ c.scope_map
        (key_of_lookup (λ x. x.id) id c.scope_map s k.scopes_keyed e) k.scopes_keyed;
  scopes_distinct = Distinct-insert id _ c.scope_map k.scopes_distinct;
  joins_keyed = k.joins_keyed;
  joins_distinct = k.joins_distinct;
}
Change-IsKeyed (put_join c js) k = record {
  tokens_keyed = k.tokens_keyed;
  tokens_distinct = k.tokens_distinct;
  scopes_keyed = k.scopes_keyed;
  scopes_distinct = k.scopes_distinct;
  joins_keyed =
      Keyed-insert join_gateway_id (join_gateway_id js) js c.join_state_map refl k.joins_keyed;
  joins_distinct = Distinct-insert (join_gateway_id js) js c.join_state_map k.joins_distinct;
}
Change-IsKeyed (dropped_join c g) k = record {
  tokens_keyed = k.tokens_keyed;
  tokens_distinct = k.tokens_distinct;
  scopes_keyed = k.scopes_keyed;
  scopes_distinct = k.scopes_distinct;
  joins_keyed = Keyed-erase join_gateway_id g c.join_state_map k.joins_keyed;
  joins_distinct = Distinct-erase g c.join_state_map k.joins_distinct;
}
Change-IsKeyed _ k = record {
  tokens_keyed = k.tokens_keyed;
  tokens_distinct = k.tokens_distinct;
  scopes_keyed = k.scopes_keyed;
  scopes_distinct = k.scopes_distinct;
  joins_keyed = k.joins_keyed;
  joins_distinct = k.joins_distinct;
}

pub Changes-IsKeyed : {c d : ExecutionContext} → Changes c d → IsKeyed c → IsKeyed d
Changes-IsKeyed here k = k
Changes-IsKeyed (next p s) k = Change-IsKeyed s (Changes-IsKeyed p k)

-- A token or a scope that is there stays there.
pub record Grows (c d : ExecutionContext) : Type 0 where
  pub tokens_stay :
      (id : String) → includes (keys c.token_map) id ≡ true → includes (keys d.token_map) id ≡ true
  pub scopes_stay :
      (id : String) → includes (keys c.scope_map) id ≡ true → includes (keys d.scope_map) id ≡ true

Change-Grows : {c d : ExecutionContext} → Change c d → Grows c d
Change-Grows (put_token c t) = record {
  tokens_stay = λ id. insert-keeps t.id id t c.token_map;
  scopes_stay = λ id h. h;
}
Change-Grows (put_scope c s) = record {
  tokens_stay = λ id h. h;
  scopes_stay = λ id. insert-keeps s.id id s c.scope_map;
}
Change-Grows (merged c k s vars e) = record {
  tokens_stay = λ id h. h;
  scopes_stay = λ id. insert-keeps k id _ c.scope_map;
}
Change-Grows _ = record { tokens_stay = λ id h. h; scopes_stay = λ id h. h }

pub Changes-Grows : {c d : ExecutionContext} → Changes c d → Grows c d
Changes-Grows here = record { tokens_stay = λ id h. h; scopes_stay = λ id h. h }
Changes-Grows (next p s) = record {
  tokens_stay = λ id h. (Change-Grows s).tokens_stay id ((Changes-Grows p).tokens_stay id h);
  scopes_stay = λ id h. (Change-Grows s).scopes_stay id ((Changes-Grows p).scopes_stay id h);
}

abbrev pub token_ids : EngineState → List String
token_ids s = map (λ t. t.id) s.tokens

abbrev pub scope_ids : EngineState → List String
scope_ids s = map (λ x. x.id) s.scopes

abbrev pub join_ids : EngineState → List String
join_ids s = map join_gateway_id s.gateway_join_states

-- No two tokens, scopes or join states stand for the same id.
pub record IsWellFormed (s : EngineState) : Type 0 where
  pub distinct_tokens : Distinct (token_ids s)
  pub distinct_scopes : Distinct (scope_ids s)
  pub distinct_joins : Distinct (join_ids s)

module _ (fuel : ℕ) (definition : ProcessDefinition) (command : EngineCommand)
    (options : ExecuteOptions) (r : EngineResult) where
  pub execute-IsWellFormed :
      (state : Option EngineState)
      → Fits command state
      → execute fuel definition command state options ≡ ok r
      → IsWellFormed r.new_state
  execute-IsWellFormed state fits h =
      let (c, p, of) = execute-Changes fuel definition command state options r fits h in
      let k : IsKeyed c = Changes-IsKeyed p (new_context-IsKeyed state options) in
      record {
        distinct_tokens =
            subst Distinct
              (sym (
                ap (map (λ t. t.id)) of.of_tokens
                ∙ map-key-values (λ t. t.id) c.token_map k.tokens_keyed))
              k.tokens_distinct;
        distinct_scopes =
            subst Distinct
              (sym (
                ap (map (λ s. s.id)) of.of_scopes
                ∙ map-key-values (λ s. s.id) c.scope_map k.scopes_keyed))
              k.scopes_distinct;
        distinct_joins =
            subst Distinct
              (sym (
                ap (map join_gateway_id) of.of_joins
                ∙ map-key-values join_gateway_id c.join_state_map k.joins_keyed))
              k.joins_distinct;
      }

  pub execute-keeps_ids :
      (state : EngineState)
      → Fits command (some state)
      → execute fuel definition command (some state) options ≡ ok r
      → (id : String)
      → (includes (token_ids state) id ≡ true → includes (token_ids r.new_state) id ≡ true)
        × (includes (scope_ids state) id ≡ true → includes (scope_ids r.new_state) id ≡ true)
  unfolding new_context
  execute-keeps_ids state fits h id =
      let (c, p, of) = execute-Changes fuel definition command (some state) options r fits h in
      let k : IsKeyed c = Changes-IsKeyed p (new_context-IsKeyed (some state) options) in
      let g : Grows (new_context (some state) options) c = Changes-Grows p in
      (
        λ m.
            ap (λ l. includes (map (λ t. t.id) l) id) of.of_tokens
            ∙ ap (λ l. includes l id) (map-key-values (λ t. t.id) c.token_map k.tokens_keyed)
            ∙ g.tokens_stay id (includes-index_by (λ t. t.id) [] state.tokens id ∙ m),
        λ m.
            ap (λ l. includes (map (λ s. s.id) l) id) of.of_scopes
            ∙ ap (λ l. includes l id) (map-key-values (λ s. s.id) c.scope_map k.scopes_keyed)
            ∙ g.scopes_stay id (includes-index_by (λ s. s.id) [] state.scopes id ∙ m),
      )
