-- ===== src/Engine/Weights/Gateways.antt =====
-- What the gateway handlers (Engine.GatewayHandlers) put into the queue.
use nexus_workflow.Common.{
  ℕ, String, Bool, false, ◌≡◌, ◌≢◌, refl, Option, none, some, List, [], ◌∷◌, if◌then◌else◌, truthy,
  map,
}
use nexus_workflow.Model.Types.{
  Value, Variables, to_boolean, Token, GatewayJoinState, parallel, inclusive,
}
use nexus_workflow.Model.Elements.{SequenceFlow, BpmnElement, Gateway, ProcessDefinition}
use nexus_workflow.Model.Errors.{Outcome, ok, threw, loops}
use nexus_workflow.Engine.State.{ExecutionContext}
use nexus_workflow.Engine.Monad.{Exec, lift, map_outcome, ◌>>=◌, ◌>>◌}
use nexus_workflow.Engine.Context.{save_join_state, delete_join_state}
use nexus_workflow.Engine.Scopes.{resolve, resolve_scope}
use nexus_workflow.Engine.Definition.{get_outgoing_flows}
use nexus_workflow.Engine.Moves.{move_token_to_flows}
use nexus_workflow.Engine.GatewayHandlers.{
  condition_evaluator, handle_exclusive_gateway, arriving_flow, parallel_join_state, join_parallel,
  split_parallel, handle_parallel_gateway, inclusive_join_state, join_inclusive,
  record_inclusive_join, split_inclusive, handle_inclusive_gateway,
}
use nexus_workflow.Engine.Weights.{Ready, Spends, Costs}
use nexus_workflow.Engine.Weights.Rules.{
  keeps, Costs-if, Costs-bind, Costs-gets_bind, Costs-more, costs_rules,
}
use nexus_workflow.Engine.Weights.Splits.{
  resolve-answers, Within, ids, exclusive_split-Within, inclusive_split-Within,
  parallel_split-Within,
}
use nexus_workflow.Engine.Weights.Moves.{
  token_costs, flows_weight, move_token_to_flow-Costs, move_token_to_flows-Costs,
}

module _ (weight : String → ℕ) where
  lift-Spends :
      {A : Type 0} (k : ℕ) (c : ExecutionContext) (o : Outcome A)
      → o ≢ loops
      → Ready c
      → Spends weight k c (lift o c)
  unfolding lift
  lift-Spends k c (ok a) h r = keeps weight k c c a refl refl refl r
  lift-Spends k c (threw e) h r = tt
  lift-Spends k c loops h r = absurd (h refl)

  resolve_scope-Costs : (k : ℕ) (id : String) → Costs weight k (resolve_scope id)
  unfolding resolve_scope
  resolve_scope-Costs k id =
      Costs-gets_bind weight k (λ ctx. resolve ctx.scope_map id) lift
        λ c r. lift-Spends k c (resolve c.scope_map id) (resolve-answers c.scope_map id r.rooted) r

  -- The evaluator of the conditions answers.
  Costs-evaluator_bind :
      {B : Type 0} (k : ℕ) (scope : Variables) (f : (String → Outcome Bool) → Exec B)
      → ((evaluate : String → Outcome Bool)
          → ((e : String) → evaluate e ≢ loops)
          → Costs weight k (f evaluate))
      → Costs weight k (condition_evaluator scope >>= f)
  unfolding condition_evaluator
  Costs-evaluator_bind k scope f p = Costs-gets_bind weight k _ _ λ c r.
      (p (λ e. map_outcome to_boolean (c.options.evaluate e scope))
          (λ e. answered (c.options.evaluate e scope) (r.answers e scope))).at
        c r
    where
      answered : (o : Outcome Value) → o ≢ loops → map_outcome to_boolean o ≢ loops
      answered (ok v) h e = absurd (cc)
      answered (threw x) h e = absurd (cc)
      answered loops h e = h refl

  Costs-lift-Within :
      {A B : Type 0} (g : A → ℕ) (k : ℕ) (o : Outcome A) (f : A → Exec B)
      → Within g k o
      → ((a : A) → Costs weight (g a) (f a))
      → Costs weight k (lift o >>= f)
  unfolding lift ◌>>=◌
  Costs-lift-Within g k (ok a) f h p = record { at = (Costs-more weight (g a) k (f a) h (p a)).at }
  Costs-lift-Within g k (threw e) f h p = record { at = λ c r. tt }
  Costs-lift-Within g k loops f h p = absurd h

module _ (weight : String → ℕ) (definition : ProcessDefinition) where
  -- The weight of the flows that leave an element.
  abbrev pub leaving : String → ℕ
  leaving id =
      flows_weight weight definition (ids weight definition (get_outgoing_flows definition id))

  module _ (t : Token) (h : truthy t.sub_process_instance_id ≡ false) where
    pub handle_exclusive_gateway-Costs :
        (b : BpmnElement) (g : Gateway)
        → Costs weight (leaving b.id) (handle_exclusive_gateway definition t b g)
    unfolding handle_exclusive_gateway
    handle_exclusive_gateway-Costs b g =
        Costs-bind weight _ _ _ (resolve_scope-Costs weight 0 t.scope_id) λ scope.
          Costs-evaluator_bind weight _ scope _ λ evaluate answers.
            Costs-lift-Within weight _ _ _ _
              (exclusive_split-Within weight definition b.id g.default_flow evaluate answers
                (get_outgoing_flows definition b.id))
              λ selected.
                Costs-bind weight _ _ _ (search token_costs)
                  λ _. move_token_to_flow-Costs weight definition t selected h

    arriving_flow-Costs :
        (k : ℕ) (id : String) (fs : List SequenceFlow)
        → Costs weight k (arriving_flow definition id t fs)
    unfolding arriving_flow
    arriving_flow-Costs k id [] = search token_costs
    arriving_flow-Costs k id (f ∷ fs) = search token_costs

    parallel_join_state-Costs :
        (k : ℕ) (id : String) (fs : List SequenceFlow) (o : Option GatewayJoinState)
        → Costs weight k (parallel_join_state definition id fs o)
    unfolding parallel_join_state
    parallel_join_state-Costs k id fs none = search token_costs depth 12
    parallel_join_state-Costs k id fs (some (parallel js)) = search token_costs
    parallel_join_state-Costs k id fs (some (inclusive js)) = search token_costs

    -- A join goes on along all flows that leave it, or keeps its state.
    fire_or_save :
        (fires : Bool) (id : String) (js : GatewayJoinState)
        → Costs weight (leaving id) (
            if fires
            then delete_join_state id
              >> move_token_to_flows definition t
                  (map (λ f. f.id) (get_outgoing_flows definition id))
            else save_join_state js)
    fire_or_save fires id js =
        Costs-if weight _ fires _ _
          (Costs-bind weight _ _ _ (search token_costs) (λ _.
            move_token_to_flows-Costs weight definition t
              (ids weight definition (get_outgoing_flows definition id)) h))
          (search token_costs)

    join_parallel-Costs :
        (b : BpmnElement) → Costs weight (leaving b.id) (join_parallel definition t b)
    unfolding join_parallel
    join_parallel-Costs b =
        search (token_costs, arriving_flow-Costs, parallel_join_state-Costs, fire_or_save) depth 20

    split_parallel-Costs :
        (b : BpmnElement) → Costs weight (leaving b.id) (split_parallel definition t b)
    unfolding split_parallel
    split_parallel-Costs b =
        Costs-lift-Within weight _ _ _ _
          (parallel_split-Within weight definition b.id (get_outgoing_flows definition b.id))
          λ selected.
            Costs-bind weight _ _ _ (search token_costs)
              λ _. move_token_to_flows-Costs weight definition t selected h

    inclusive_join_state-Costs :
        (k : ℕ) (id : String) (o : Option GatewayJoinState)
        → Costs weight k (inclusive_join_state definition id o)
    unfolding inclusive_join_state
    inclusive_join_state-Costs k id none = search token_costs
    inclusive_join_state-Costs k id (some (parallel js)) = search token_costs
    inclusive_join_state-Costs k id (some (inclusive js)) = search token_costs

    join_inclusive-Costs :
        (b : BpmnElement) → Costs weight (leaving b.id) (join_inclusive definition t b)
    unfolding join_inclusive
    join_inclusive-Costs b =
        search (token_costs, arriving_flow-Costs, inclusive_join_state-Costs, fire_or_save) depth 20

    record_inclusive_join-Costs :
        (k : ℕ) (o : Option (String × List String))
        → Costs weight k (record_inclusive_join definition o)
    unfolding record_inclusive_join
    record_inclusive_join-Costs k none = search token_costs
    record_inclusive_join-Costs k (some (id, fs)) = search token_costs depth 12

    split_inclusive-Costs :
        (b : BpmnElement) (g : Gateway)
        → Costs weight (leaving b.id) (split_inclusive definition t b g)
    unfolding split_inclusive
    split_inclusive-Costs b g =
        Costs-bind weight _ _ _ (resolve_scope-Costs weight 0 t.scope_id) λ scope.
          Costs-evaluator_bind weight _ scope _ λ evaluate answers.
            Costs-lift-Within weight _ _ _ _
              (inclusive_split-Within weight definition b.id g.default_flow evaluate answers
                (get_outgoing_flows definition b.id))
              λ activated. Costs-bind weight _ _ _ (record_inclusive_join-Costs 0 _) λ _.
                Costs-bind weight _ _ _ (search token_costs)
                  λ _. move_token_to_flows-Costs weight definition t activated h

    pub handle_parallel_gateway-Costs :
        (b : BpmnElement) → Costs weight (leaving b.id) (handle_parallel_gateway definition t b)
    unfolding handle_parallel_gateway
    handle_parallel_gateway-Costs b =
        search (costs_rules, join_parallel-Costs, split_parallel-Costs)

    pub handle_inclusive_gateway-Costs :
        (b : BpmnElement) (g : Gateway)
        → Costs weight (leaving b.id) (handle_inclusive_gateway definition t b g)
    unfolding handle_inclusive_gateway
    handle_inclusive_gateway-Costs b g =
        search (costs_rules, join_inclusive-Costs, split_inclusive-Costs)
