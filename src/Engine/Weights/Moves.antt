-- ===== src/Engine/Weights/Moves.antt =====
-- What the methods of `ExecutionContext`, and the moves of tokens, put into the queue
-- (engine/ExecutionEngine.ts).
use nexus_workflow.Common.{
  ℕ, suc, ◌+◌, String, true, false, not, ◌≡◌, refl, ap, ◌∙◌, Option, none, some, List, [], ◌∷◌,
  ◌++◌, all-append, arith, eq_iff, if◌then◌else◌, case_option, truthy,
}
use nexus_workflow.Model.Types.{
  Token, WaitCondition, WaitConditionType, BpmnElementType, GatewayJoinState, ProcessInstance,
}
use nexus_workflow.Model.Elements.{
  SequenceFlow, BpmnFlowElement, ProcessDefinition, element_id, element_type, outgoing_flows,
}
use nexus_workflow.Model.Events.{ExecutionEvent, token_moved}
use nexus_workflow.Engine.Monad.{◌>>=◌, ◌>>◌}
use nexus_workflow.Engine.Context.{
  now, new_id, emit, update_token, create_token, require_instance, set_instance, get_all_tokens,
  enqueue_pending, pending_count, get_join_state, save_join_state, delete_join_state,
}
use nexus_workflow.Engine.Definition.{
  find_element_in_tree, find_flow_in_tree, get_element, get_flow,
}
use nexus_workflow.Engine.Definition.Search.{id_of_found}
use nexus_workflow.Engine.Moves.{
  skip, complete_token, cancel_token, tag_sub_process, suspend_token, suspend_token_with_condition,
  complete_instance, move_token_to_flow, move_token_to_flows, advance_token,
}
use nexus_workflow.Engine.Weights.{is_outer, token_weight, total, Costs}
use nexus_workflow.Engine.Weights.Rules.{
  Gives, Costs-pure, Costs-gets, Costs-modify, Costs-given_bind, Costs-bind, Costs-first,
  Costs-require_bind, Costs-lift_bind, Costs-gets_bind, Costs-for_each, Costs-more, sum_of,
  costs_rules,
}

module _ (weight : String → ℕ) where
  pub now-Costs : (k : ℕ) → Costs weight k now
  unfolding now
  now-Costs k = Costs-bind weight k _ _ (Costs-gets weight 0 _) (λ time.
      Costs-bind weight k _ _
        (Costs-modify weight 0 (λ c. record c { ticks = suc c.ticks }) (λ c. refl) (λ c. refl)
          (λ c. refl))
        (λ _. Costs-pure weight k time))

  pub new_id-Costs : (k : ℕ) → Costs weight k new_id
  unfolding new_id
  new_id-Costs k = Costs-bind weight k _ _ (Costs-gets weight 0 _) (λ id.
      Costs-bind weight k _ _
        (Costs-modify weight 0 (λ c. record c { ids = suc c.ids }) (λ c. refl) (λ c. refl)
          (λ c. refl))
        (λ _. Costs-pure weight k id))

  pub emit-Costs : (k : ℕ) (event : ExecutionEvent) → Costs weight k (emit event)
  unfolding emit
  emit-Costs k event = Costs-modify weight k _ (λ c. refl) (λ c. refl) (λ c. refl)

  pub update_token-Costs : (k : ℕ) (t : Token) → Costs weight k (update_token t)
  unfolding update_token
  update_token-Costs k t = Costs-modify weight k _ (λ c. refl) (λ c. refl) (λ c. refl)

  pub set_instance-Costs : (k : ℕ) (i : ProcessInstance) → Costs weight k (set_instance i)
  unfolding set_instance
  set_instance-Costs k i = Costs-modify weight k _ (λ c. refl) (λ c. refl) (λ c. refl)

  pub save_join_state-Costs : (k : ℕ) (js : GatewayJoinState) → Costs weight k (save_join_state js)
  unfolding save_join_state
  save_join_state-Costs k js = Costs-modify weight k _ (λ c. refl) (λ c. refl) (λ c. refl)

  pub delete_join_state-Costs : (k : ℕ) (g : String) → Costs weight k (delete_join_state g)
  unfolding delete_join_state
  delete_join_state-Costs k g = Costs-modify weight k _ (λ c. refl) (λ c. refl) (λ c. refl)

  pub get_join_state-Costs : (k : ℕ) (g : String) → Costs weight k (get_join_state g)
  unfolding get_join_state
  get_join_state-Costs k g = search costs_rules

  pub require_instance-Costs : (k : ℕ) → Costs weight k require_instance
  unfolding require_instance
  require_instance-Costs k = search costs_rules

  pub get_all_tokens-Costs : (k : ℕ) → Costs weight k get_all_tokens
  unfolding get_all_tokens
  get_all_tokens-Costs k = search costs_rules

  pub pending_count-Costs : (k : ℕ) → Costs weight k pending_count
  unfolding pending_count
  pending_count-Costs k = search costs_rules

  pub create_token-Costs :
      (k : ℕ) (i e : String) (type : BpmnElementType) (s : String) (f : Option String)
      → Costs weight k (create_token i e type s f)
  unfolding create_token
  create_token-Costs k i e type s f =
      search (costs_rules, now-Costs, new_id-Costs, update_token-Costs) depth 16

  -- What is known of a new token.
  abbrev pub IsNew : String → Token → Type 0
  IsNew id t = (t.element_id ≡ id) × (t.sub_process_instance_id ≡ none)

  pub create_token-IsNew :
      (i e : String) (type : BpmnElementType) (s : String) (f : Option String)
      → Gives (IsNew e) (create_token i e type s f)
  unfolding create_token new_id now update_token ◌>>=◌
  create_token-IsNew i e type s f = record { given = λ c d a h. (ground arith) }

  total-append : (xs ys : List Token) → total weight (xs ++ ys) ≡ total weight xs + total weight ys
  total-append [] ys = omega arith
  total-append (x ∷ xs) ys = omega (arith, total-append xs ys)

  pub enqueue_pending-Costs :
      (t : Token) → is_outer t ≡ true → Costs weight (token_weight weight t) (enqueue_pending t)
  unfolding enqueue_pending
  enqueue_pending-Costs t h = record {
    at = λ c r. (
      record {
        answers = r.answers;
        rooted = r.rooted;
        outer = all-append is_outer c.pending_queue (t ∷ []) ∙ ground (arith, r.outer);
      },
      omega (arith, total-append c.pending_queue (t ∷ [])),
    );
  }

pub ruleset primitive_costs = (
  costs_rules, now-Costs, new_id-Costs, emit-Costs, update_token-Costs, set_instance-Costs,
  save_join_state-Costs, delete_join_state-Costs, get_join_state-Costs, require_instance-Costs,
  get_all_tokens-Costs, pending_count-Costs, create_token-Costs,
)

module _ (weight : String → ℕ) where
  pub complete_token-Costs : (k : ℕ) (t : Token) → Costs weight k (complete_token t)
  unfolding complete_token
  complete_token-Costs k t = search primitive_costs depth 12

  pub cancel_token-Costs : (k time : ℕ) (t : Token) → Costs weight k (cancel_token time t)
  unfolding cancel_token
  cancel_token-Costs k time t = search primitive_costs depth 12

  pub suspend_with-Costs :
      (k : ℕ) (t : Token) (c : WaitCondition) → Costs weight k (suspend_token_with_condition t c)
  unfolding suspend_token_with_condition
  suspend_with-Costs k t c = search primitive_costs depth 12

  pub suspend_token-Costs :
      (k : ℕ) (t : Token) (w : WaitConditionType) → Costs weight k (suspend_token t w)
  unfolding suspend_token
  suspend_token-Costs k t w = search suspend_with-Costs

  pub complete_instance-Costs : (k : ℕ) → Costs weight k complete_instance
  unfolding complete_instance
  complete_instance-Costs k = search primitive_costs depth 16

pub ruleset token_costs = (
  primitive_costs, complete_token-Costs, cancel_token-Costs, suspend_with-Costs,
  suspend_token-Costs, complete_instance-Costs,
)

module _ (weight : String → ℕ) (definition : ProcessDefinition) where
  -- The weight of a token that goes along a flow.
  abbrev pub flow_weight : String → ℕ
  flow_weight flow_id =
      case_option (find_flow_in_tree definition.elements definition.sequence_flows flow_id) 0
        (λ f. suc (weight f.target_ref))

  abbrev pub flows_weight : List String → ℕ
  flows_weight ids = sum_of weight flow_weight ids

  -- An id that `getElement` finds is that of the element.
  pub element_id-found :
      (id : String) (e : BpmnFlowElement)
      → find_element_in_tree definition.elements id ≡ some e
      → element_id e ≡ id
  element_id-found id e h =
      ground (arith, id_of_found definition.elements id e h, eq_iff (element_id e) id)

  pub tag-outer : (id : Option String) (t : Token) → truthy id ≡ false → tag_sub_process id t ≡ t
  tag-outer id t h = ap (λ b. if b then record t { sub_process_instance_id = id } else t) h

  pub enqueue_at :
      (t : Token) (id : String)
      → is_outer t ≡ true
      → t.element_id ≡ id
      → Costs weight (suc (weight id)) (enqueue_pending t)
  enqueue_at t id h e =
      Costs-more weight (token_weight weight t) (suc (weight id)) _ (omega (arith, ap weight e))
        (enqueue_pending-Costs weight t h)

  pub enqueue_new :
      (tagged t : Token) (id : String)
      → tagged ≡ t
      → t.sub_process_instance_id ≡ none
      → t.element_id ≡ id
      → Costs weight (suc (weight id)) (enqueue_pending tagged)
  enqueue_new tagged t id same top e =
      enqueue_at tagged id (ap is_outer same ∙ ap (λ s. not (truthy s)) top)
        (ap (λ x. x.element_id) same ∙ e)

  -- The token of a move, once its element is found.
  queue_at :
      (from : Token) (target : BpmnFlowElement) (id : String) (flow : Option String)
      → truthy from.sub_process_instance_id ≡ false
      → element_id target ≡ id
      → Costs weight (suc (weight id)) (do
        base ←
            create_token from.instance_id
              (element_id target)
              (element_type target)
              from.scope_id
              flow
        let token = tag_sub_process from.sub_process_instance_id base
        if truthy from.sub_process_instance_id then update_token token else skip
        emit (
            token_moved from.instance_id token.id from.element_id
              (element_id target)
              (element_type target))
        enqueue_pending token)
  queue_at from target id flow h e =
      Costs-given_bind weight (suc (weight id)) (IsNew weight (element_id target)) _ _
        (search create_token-Costs) (search create_token-IsNew)
        (λ base new.
          let tagged = tag_sub_process from.sub_process_instance_id base in
          let same : tagged ≡ base = tag-outer from.sub_process_instance_id base h in
          Costs-bind weight (suc (weight id)) _ _ (search primitive_costs) λ _.
            Costs-bind weight (suc (weight id)) _ _ (search primitive_costs)
              λ _. enqueue_new tagged base id same new.1 (new.0 ∙ e))

  pub move_token_to_flow-Costs :
      (from : Token) (flow_id : String)
      → truthy from.sub_process_instance_id ≡ false
      → Costs weight (flow_weight flow_id) (move_token_to_flow definition from flow_id)
  unfolding move_token_to_flow get_flow get_element
  move_token_to_flow-Costs from flow_id h =
      Costs-require_bind weight (flow_weight flow_id) _ _ _ λ flow e.
        Costs-require_bind weight (flow_weight flow_id) _ _ _ λ target g.
          Costs-more weight (suc (weight flow.target_ref)) (flow_weight flow_id) _
            (omega (
              arith,
              ap (λ o. case_option o 0 (λ (f : SequenceFlow). suc (weight f.target_ref))) e,
            ))
            (queue_at from target flow.target_ref (some flow_id) h
              (element_id-found flow.target_ref target g))

  pub move_token_to_flows-Costs :
      (from : Token) (ids : List String)
      → truthy from.sub_process_instance_id ≡ false
      → Costs weight (flows_weight ids) (move_token_to_flows definition from ids)
  unfolding move_token_to_flows
  move_token_to_flows-Costs from ids h =
      Costs-for_each weight flow_weight ids (move_token_to_flow definition from)
        (λ id. move_token_to_flow-Costs from id h)

  pub advance_token-Costs :
      (from : Token) (e : BpmnFlowElement)
      → truthy from.sub_process_instance_id ≡ false
      → Costs weight (flows_weight (outgoing_flows e)) (advance_token definition from e)
  unfolding advance_token
  advance_token-Costs from e h =
      Costs-bind weight _ _ _ (complete_token-Costs weight 0 from)
        λ _. move_token_to_flows-Costs from (outgoing_flows e) h
