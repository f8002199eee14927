-- ===== src/Engine/Weights/EventBased.antt =====
-- What the event-based gateway, and the boundary events of a task, put into the queue.
use nexus_workflow.Common.{
  ℕ, suc, String, Bool, true, false, not, ◌≡◌, ◌≢◌, refl, ◌∙◌, Option, none, some, List, [], ◌∷◌,
  filter, if◌then◌else◌, case_option, truthy,
}
use nexus_workflow.Model.Types.{Token}
use nexus_workflow.Model.Elements.{
  SequenceFlow, BpmnElement, BpmnFlowElement, Gateway, ProcessDefinition, element_id,
  intermediate_catch_event,
}
use nexus_workflow.Model.Errors.{Outcome, ok, threw, loops, EngineError}
use nexus_workflow.Model.Errors
use nexus_workflow.Engine.Definition.{
  Boundary, get_element, get_outgoing_flows, find_boundaries_for,
}
use nexus_workflow.Gateways.EventBased.{
  validate_target, validate_flow, validate_flows, validate_outgoing, validate_event_based_gateway,
}
use nexus_workflow.Engine.Boundaries.{is_compensation, spawn_boundary_token, spawn_boundary_tokens}
use nexus_workflow.Engine.GatewayHandlers.{spawn_branch, handle_event_based_gateway}
use nexus_workflow.Engine.Weights.{Costs}
use nexus_workflow.Engine.Weights.Rules.{
  sum_of, Costs-bind, Costs-first, Costs-given_bind, Costs-lift_bind, Costs-require_bind,
  Costs-for_each, Costs-collect,
}
use nexus_workflow.Engine.Weights.Moves.{
  IsNew, create_token-Costs, create_token-IsNew, element_id-found, enqueue_new, tag-outer,
  token_costs,
}

-- An outcome that is a result or an error.
record Answered {A : Type 0} (o : Outcome A) : Type 0 where
  answers : o ≢ loops

Answered-ok : {A : Type 0} (a : A) → Answered (ok a)
Answered-ok a = record { answers = λ e. absurd (cc) }

Answered-threw : {A : Type 0} (x : EngineError) → Answered {A = A} (threw x)
Answered-threw x = record { answers = λ e. absurd (cc) }

Answered-if :
    {A : Type 0} (b : Bool) (x y : Outcome A)
    → Answered x
    → Answered y
    → Answered (if b then x else y)
Answered-if true x y p q = p
Answered-if false x y p q = q

Answered-option :
    {A B : Type 0} (o : Option B) (x : Outcome A) (f : B → Outcome A)
    → Answered x
    → ((b : B) → Answered (f b))
    → Answered (case_option o x f)
Answered-option none x f p q = p
Answered-option (some b) x f p q = q b

ruleset answer_rules = (Answered-ok, Answered-threw, Answered-if, Answered-option)

module _ (definition : ProcessDefinition) (gateway_id : String) where
  validate_target-Answered :
      (flow_id : String) (e : BpmnFlowElement)
      → Answered (validate_target gateway_id definition flow_id e)
  unfolding validate_target
  validate_target-Answered flow_id (intermediate_catch_event b d) = search answer_rules
  validate_target-Answered flow_id _ = search answer_rules

  validate_flow-Answered :
      (flow_id : String) → Answered (validate_flow gateway_id definition flow_id)
  unfolding validate_flow
  validate_flow-Answered flow_id = search (answer_rules, validate_target-Answered)

  validate_flows-Answered :
      (flow_ids : List String) → Answered (validate_flows gateway_id definition flow_ids)
  unfolding validate_flows
  validate_flows-Answered [] = search answer_rules
  validate_flows-Answered (x ∷ xs) =
      after (validate_flow gateway_id definition x) (validate_flow-Answered x)
        (validate_flows-Answered xs)
    where
      after :
          {y : Outcome (Unit {0})} (o : Outcome (Unit {0}))
          → Answered o
          → Answered y
          → Answered (Errors.◌>>=◌ o (λ _. y))
      after (ok a) p q = q
      after (threw e) p q = search answer_rules
      after loops p q = p

  validate_outgoing-Answered :
      (flow_ids : List String) → Answered (validate_outgoing gateway_id definition flow_ids)
  unfolding validate_outgoing
  validate_outgoing-Answered [] = search answer_rules
  validate_outgoing-Answered (x ∷ xs) = validate_flows-Answered (x ∷ xs)

valid-Answered :
    (definition : ProcessDefinition) (b : BpmnElement) (g : Gateway)
    → Answered (validate_event_based_gateway b g definition)
unfolding validate_event_based_gateway
valid-Answered definition b g =
    Answered-if _ _ _ (Answered-threw _)
      (validate_outgoing-Answered definition b.id b.outgoing_flows)

module _ (weight : String → ℕ) (definition : ProcessDefinition) where
  abbrev target_weight : SequenceFlow → ℕ
  target_weight f = suc (weight f.target_ref)

  -- The weight of the elements behind an event-based gateway.
  abbrev pub branches : String → ℕ
  branches id = sum_of weight target_weight (get_outgoing_flows definition id)

  -- The boundary events that a task spawns, and their weight.
  abbrev pub guards : String → List Boundary
  guards id =
      filter (λ b. not (is_compensation b.1.event_definition.type))
        (find_boundaries_for definition id)

  abbrev guard_weight : Boundary → ℕ
  guard_weight b = suc (weight b.0.id)

  abbrev pub guarding : String → ℕ
  guarding id = sum_of weight guard_weight (guards id)

module _ (weight : String → ℕ) (definition : ProcessDefinition) (t : Token) where
  spawn_branch-Costs :
      (f : SequenceFlow)
      → Costs weight (target_weight weight definition f) (spawn_branch definition t f)
  unfolding spawn_branch get_element
  spawn_branch-Costs f =
      Costs-require_bind weight (target_weight weight definition f) _ _ _ λ target e.
        Costs-given_bind weight (target_weight weight definition f)
          (IsNew weight (element_id target)) _ _ (search create_token-Costs)
          (search create_token-IsNew)
          λ base new. Costs-bind weight _ _ _ (search token_costs) λ _.
            Costs-bind weight _ _ _ (search token_costs) λ _.
              Costs-first weight _ _ _
                (enqueue_new weight definition _ (record base { parent_token_id = some t.id })
                  f.target_ref refl new.1
                  (new.0 ∙ element_id-found weight definition f.target_ref target e))
                (λ _. search token_costs)

  pub handle_event_based_gateway-Costs :
      (b : BpmnElement) (g : Gateway)
      → Costs weight (branches weight definition b.id) (handle_event_based_gateway definition t b g)
  unfolding handle_event_based_gateway
  handle_event_based_gateway-Costs b g =
      Costs-lift_bind weight _ _ _ (valid-Answered definition b g).answers λ _ _.
        Costs-bind weight _ _ _ (search token_costs) λ _.
          Costs-first weight _ _ _
            (Costs-collect weight (target_weight weight definition)
              (get_outgoing_flows definition b.id) _ spawn_branch-Costs)
            (λ ids. search token_costs)

  module _ (h : truthy t.sub_process_instance_id ≡ false) where
    spawn_boundary_token-Costs :
        (b : Boundary)
        → Costs weight (guard_weight weight definition b) (spawn_boundary_token definition t b)
    unfolding spawn_boundary_token
    spawn_boundary_token-Costs (base, e) =
        Costs-given_bind weight _ (IsNew weight base.id) _ _ (search create_token-Costs)
          (search create_token-IsNew)
          λ new is_new. Costs-bind weight _ _ _ (search token_costs) λ _.
            enqueue_new weight definition _ new base.id
              (tag-outer weight definition t.sub_process_instance_id new h) is_new.1 is_new.0

    pub spawn_boundary_tokens-Costs :
        (id : String)
        → Costs weight (guarding weight definition id) (spawn_boundary_tokens definition t id)
    unfolding spawn_boundary_tokens
    spawn_boundary_tokens-Costs id =
        Costs-for_each weight (guard_weight weight definition) (guards weight definition id) _
          spawn_boundary_token-Costs
