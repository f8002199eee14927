-- ===== src/Engine/Administration/Cancellation.antt =====
-- `CancelInstance` of engine/ExecutionEngine.ts.
use nexus_workflow.Common.{
  ℕ, suc, Bool, some, List, [], ◌∷◌, ◌++◌, ◌≡◌, refl, ap, sym, arith, if◌then◌else◌, filter, map,
}
use mathlib.Core.List.{append_assoc, append-nil}
use nexus_workflow.Common.Dict.{values, insert, index_by}
use nexus_workflow.Common.Dict.Keys.{Keyed-index_by, Distinct-index_by}
use nexus_workflow.Common.Dict.Rebuild.{values-index_by, values-replaced}
use nexus_workflow.Model.Types.{Token, cancelled, is_live, InstanceStatus, join_gateway_id}
use nexus_workflow.Model.Elements.{ProcessDefinition}
use nexus_workflow.Model.Events.{ExecutionEvent, token_cancelled, process_instance_terminated}
use nexus_workflow.Model.Errors.{ok}
use nexus_workflow.Engine.State.{
  EngineState, EngineResult, ExecuteOptions, ExecutionContext, new_context,
}
use nexus_workflow.Engine.Monad.{require, for_each, ◌>>=◌}
use nexus_workflow.Engine.Context.{
  now, get_all_tokens, update_token, require_instance, set_instance, emit, to_result,
}
use nexus_workflow.Engine.Moves.{skip, cancel_token}
use nexus_workflow.Engine.Boundaries.{cancel_where}
use nexus_workflow.Engine.InstanceCommands.{handle_cancel_instance}
use nexus_workflow.Engine.Commands.{cancel_instance, dispatch, execute}
use nexus_workflow.Engine.Safety.Tokens.{IsWellFormed}

abbrev pub cancelled_at : ℕ → Token → Token
cancelled_at time t = record t { status = cancelled; updated_at = time }

abbrev pub cancelled_event : Token → ExecutionEvent
cancelled_event t = token_cancelled t.instance_id t.id t.element_id

-- The tokens of a list, those that are chosen cancelled.
abbrev pub cancelled_where : (Token → Bool) → ℕ → List Token → List Token
cancelled_where chosen time ts = map (λ t. if chosen t then cancelled_at time t else t) ts

module _ (chosen : Token → Bool) where
  for_each-cancel :
      (time : ℕ) (ts : List Token) (c : ExecutionContext)
      → for_each ts (λ t. if chosen t then cancel_token time t else skip) c
        ≡ ok (
          tt,
          record c {
            token_map =
                index_by (λ t. t.id) c.token_map (map (cancelled_at time) (filter chosen ts));
            events = c.events ++ map cancelled_event (filter chosen ts);
          },
        )
  unfolding for_each cancel_token update_token emit ◌>>=◌
  for_each-cancel time [] c =
      ap (λ es. ok (tt, record c { events = es })) (sym (append-nil c.events))
  for_each-cancel time (t ∷ ts) c = ground (
    arith,
    for_each-cancel time ts c,
    for_each-cancel time ts (record c {
      token_map = insert t.id (cancelled_at time t) c.token_map;
      events = c.events ++ cancelled_event t ∷ [];
    }),
    append_assoc c.events (cancelled_event t ∷ []) (map cancelled_event (filter chosen ts)),
  )

  -- The loop that cancels some of the tokens, in a context where each token stands under its id.
  pub cancel_where-eq :
      (c : ExecutionContext)
      → cancel_where chosen c
        ≡ ok (
          tt,
          record c {
            token_map =
                index_by
                  (λ t. t.id)
                  c.token_map
                  (map (cancelled_at (c.options.now c.ticks)) (filter chosen (values c.token_map)));
            events = c.events ++ map cancelled_event (filter chosen (values c.token_map));
            ticks = suc c.ticks;
          },
        )
  unfolding cancel_where now get_all_tokens ◌>>=◌
  cancel_where-eq c =
      for_each-cancel (c.options.now c.ticks) (values c.token_map)
        (record c { ticks = suc c.ticks })

abbrev pub after_cancel : ExecuteOptions → EngineState → EngineResult
after_cancel options s = record {
  new_state = record s {
    process_instance = record s.process_instance { status = InstanceStatus.terminated };
    tokens = cancelled_where (λ t. is_live t.status) (options.now 0) s.tokens;
  };
  events =
      map cancelled_event (filter (λ t. is_live t.status) s.tokens)
      ++ process_instance_terminated s.process_instance.id "cancelled by admin" ∷ [];
}

module _ (fuel : ℕ) (definition : ProcessDefinition) (options : ExecuteOptions) where
  -- `CancelInstance` on a well-formed state never throws, whatever the status of the instance: every
  -- live token is cancelled at the time of the command, every other token, the scopes, the join states
  -- and the compensation records stay as they are, the instance is terminated, and the events name the
  -- cancelled tokens in order and then the instance.
  pub execute-cancel :
      (s : EngineState)
      → IsWellFormed s
      → execute fuel definition cancel_instance (some s) options ≡ ok (after_cancel options s)
  unfolding execute dispatch new_context handle_cancel_instance require_instance require
      set_instance emit to_result ◌>>=◌
  execute-cancel s w = ground (
    arith,
    cancel_where-eq (λ t. is_live t.status) (new_context (some s) options),
    values-replaced (λ t. t.id) (cancelled_at (options.now 0)) (λ t. is_live t.status)
        (index_by (λ t. t.id) [] s.tokens) (λ t. refl) (Keyed-index_by (λ t. t.id) [] s.tokens tt)
        (Distinct-index_by (λ t. t.id) [] s.tokens tt),
    values-index_by (λ t. t.id) s.tokens w.distinct_tokens,
    values-index_by (λ x. x.id) s.scopes w.distinct_scopes,
    values-index_by join_gateway_id s.gateway_join_states w.distinct_joins,
  )
