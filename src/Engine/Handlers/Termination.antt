-- ===== src/Engine/Handlers/Termination.antt =====
-- What a terminate end event does (engine/ExecutionEngine.ts).
use nexus_workflow.Common.{
  ℕ, suc, String, Bool, true, false, not, ◌&&◌, some, List, [], ◌∷◌, ◌≡◌, refl, ap, sym, ◌∙◌, arith,
  any, ◌⊎◌, if◌then◌else◌, case_option, ◌++◌, ◌==◌, eq_iff, Bool-cases, inl, inr,
}
use nexus_workflow.Common.Dict.{Dict, lookup, insert, values, lookup-insert}
use nexus_workflow.Common.Dict.Keys.{Keyed, Keyed-insert}
use nexus_workflow.Model.Types.{
  Token, completed, cancelled, is_live, ProcessInstance, InstanceStatus,
}
use nexus_workflow.Model.Elements.{EventDefinition, EventDefinitionType, ProcessDefinition}
use nexus_workflow.Model.Events.{token_cancelled}
use nexus_workflow.Model.Errors.{ok}
use nexus_workflow.Engine.State.{ExecutionContext}
use nexus_workflow.Engine.Monad.{Exec, continue, for_each, ◌>>=◌, ◌>>◌}
use nexus_workflow.Engine.Context.{now, emit, update_token, get_all_tokens}
use nexus_workflow.Engine.Moves.{skip, complete_instance, complete_token, cancel_token}
use nexus_workflow.Engine.Handlers.{cancel_others, end_event_reached, handle_end_event}
use nexus_workflow.Engine.Handlers.Completion.{with_completed, complete_instance-eq}

-- Whether the token of an id is live.
abbrev pub is_live_at : String → Dict Token → Bool
is_live_at id m = case_option (lookup id m) false (λ t. is_live t.status)

is_live_at-insert :
    (id : String) (t : Token) (m : Dict Token)
    → is_live_at id (insert t.id t m) ≡ (if t.id == id then is_live t.status else is_live_at id m)
is_live_at-insert id t m = ground (arith, lookup-insert t.id id t m)

live_is_value :
    (id : String) (m : Dict Token)
    → Keyed (λ t. t.id) m
    → is_live_at id m ≡ true
    → any (λ t. t.id == id && is_live t.status) (values m) ≡ true
live_is_value id [] k h = absurd (cc)
live_is_value id ((j, t) ∷ m) k h =
    ground (arith, live_is_value id m k.1, eq_iff j id, eq_iff t.id id)

module _ (token : Token) where
  abbrev is_other : Token → Bool
  is_other t = not (t.id == token.id) && is_live t.status

  abbrev cancel_other : Token → Exec (Unit {0})
  cancel_other t = if is_other t then (do time ← now; cancel_token time t) else skip

  -- What the loop leaves: the instance, the queue, the options, and which tokens are live.
  record Leaves (ts : List Token) (c d : ExecutionContext) : Type 0 where
    same_instance : d.process_instance ≡ c.process_instance
    same_queue : d.pending_queue ≡ c.pending_queue
    live :
        (id : String)
        → is_live_at id d.token_map
          ≡ (is_live_at id c.token_map && not (any (λ t. t.id == id && is_other t) ts))

  for_each-cancel_other :
      (ts : List Token) (c : ExecutionContext)
      → (d : ExecutionContext) × (for_each ts cancel_other c ≡ ok (tt, d)) × Leaves ts c d
  unfolding for_each cancel_token now update_token emit ◌>>=◌
  for_each-cancel_other [] c =
      (c, refl, record { same_instance = refl; same_queue = refl; live = λ id. ground arith })
  for_each-cancel_other (t ∷ ts) c = elim (Bool-cases (is_other t)) [
    | inl other ↦
        let gone : Token = record t { status = cancelled; updated_at = c.options.now c.ticks } in
        let (d, e, l) = for_each-cancel_other ts (record c {
          ticks = suc c.ticks;
          token_map = insert t.id gone c.token_map;
          events = c.events ++ token_cancelled t.instance_id t.id t.element_id ∷ [];
        }) in
        (
          d,
          run_step t ts c true other ∙ e,
          record {
            same_instance = l.same_instance;
            same_queue = l.same_queue;
            live = λ id. ground (arith, l.live id, is_live_at-insert id gone c.token_map);
          },
        )
    | inr same ↦
        let (d, e, l) = for_each-cancel_other ts c in
        (
          d,
          run_step t ts c false same ∙ e,
          record {
            same_instance = l.same_instance;
            same_queue = l.same_queue;
            live = λ id. ground (arith, l.live id);
          },
        )
  ]
    where
      run_step :
          (t : Token) (ts : List Token) (c : ExecutionContext) (b : Bool)
          → is_other t ≡ b
          → for_each (t ∷ ts) cancel_other c
            ≡ ((if b then (do time ← now; cancel_token time t) else skip)
                  >> for_each ts cancel_other)
                c
      run_step t ts c b e =
          ap
            (λ b.
              ((if b then (do time ← now; cancel_token time t) else skip)
                  >> for_each ts cancel_other)
                c)
            e

module _ (definition : ProcessDefinition) (token : Token) where
  abbrev Quiet : Dict Token → Type 0
  Quiet m = (id : String) → is_live_at id m ≡ false

  cancel_others-Quiet :
      (c : ExecutionContext)
      → Keyed (λ t. t.id) c.token_map
      → is_live_at token.id c.token_map ≡ false
      → (d : ExecutionContext) × (cancel_others token c ≡ ok (tt, d))
        × Leaves token (values c.token_map) c d
        × Quiet d.token_map
  unfolding cancel_others get_all_tokens ◌>>=◌
  cancel_others-Quiet c k own =
      let (d, e, l) = for_each-cancel_other token (values c.token_map) c in
      (d, e, l, λ id. quiet id d (l.live id) (Bool-cases (token.id == id)))
    where
      others :
          (id : String) (ts : List Token)
          → (token.id == id) ≡ false
          → any (λ t. t.id == id && is_live t.status) ts
            ≡ any (λ t. t.id == id && is_other token t) ts
      others id [] n = refl
      others id (t ∷ ts) n =
          ground (arith, others id ts n, eq_iff t.id id, eq_iff t.id token.id, eq_iff token.id id)

      quiet :
          (id : String) (d : ExecutionContext)
          → is_live_at id d.token_map ≡ (
              is_live_at id c.token_map
              && not (any (λ t. t.id == id && is_other token t) (values c.token_map)))
          → ((token.id == id) ≡ true) ⊎ ((token.id == id) ≡ false)
          → is_live_at id d.token_map ≡ false
      quiet id d h (inl same) = ground (arith, own_id ((eq_iff token.id id).0 same))
        where
          own_id : token.id ≡ id → is_live_at id c.token_map ≡ false
          own_id q = ap (λ j. is_live_at j c.token_map) (sym q) ∙ own
      quiet id d h (inr n) =
          ground (arith, others id (values c.token_map) n, live_is_value id c.token_map k)

  pub handle_end_event-terminates :
      (d : EventDefinition) (c : ExecutionContext) (i : ProcessInstance)
      → d.type ≡ EventDefinitionType.terminate
      → c.process_instance ≡ some i
      → Keyed (λ t. t.id) c.token_map
      → (after : ExecutionContext) × (handle_end_event definition token d c ≡ ok (tt, after))
        × ((id : String) → is_live_at id after.token_map ≡ false)
        × ((time : ℕ) × (after.process_instance
              ≡ some (record i { status = InstanceStatus.completed; completed_at = some time })))
        × (after.pending_queue ≡ c.pending_queue)
  unfolding handle_end_event end_event_reached complete_token now update_token ◌>>=◌
  handle_end_event-terminates d c i terminates e k =
      let own : Token = record token { status = completed; updated_at = c.options.now c.ticks } in
      let c1 = with_completed token c in
      let (d1, q, l, quiet) =
        cancel_others-Quiet c1 (Keyed-insert (λ t. t.id) token.id own c.token_map refl k)
          (ground (arith, is_live_at-insert token.id own c.token_map, eq_iff token.id token.id)) in
      (
        _,
        ap (λ type. end_event_reached definition type token c1) terminates
            ∙ ap (λ o. continue o (λ _. complete_instance)) q
            ∙ complete_instance-eq d1 i (l.same_instance ∙ e),
        quiet,
        (d1.options.now d1.ticks, refl),
        l.same_queue,
      )
