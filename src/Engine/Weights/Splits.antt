-- ===== src/Engine/Weights/Splits.antt =====
-- The weight of the flows that a gateway selects (gateways/), and the scopes of its conditions.
use nexus_workflow.Common.{
  ℕ, ◌+◌, ◌≤◌, String, Bool, true, false, ◌≡◌, ◌≢◌, refl, Option, none, some, List, [], ◌∷◌, ◌++◌,
  arith, if◌then◌else◌, case_option, truthy, map, length,
}
use nexus_workflow.Common.Dict.{Dict, lookup}
use nexus_workflow.Model.Types.{VariableScope}
use nexus_workflow.Model.Elements.{SequenceFlow, ProcessDefinition}
use nexus_workflow.Model.Errors.{Outcome, ok, threw, loops, EngineError}
use nexus_workflow.Model.Errors
use nexus_workflow.Engine.Monad.{map_outcome}
use nexus_workflow.Engine.Scopes.{scope_chain, assign_scopes, resolve}
use nexus_workflow.Gateways.Exclusive.{select_flow, evaluate_exclusive_split}
use nexus_workflow.Gateways.Inclusive.{
  activated_or_default, activate_flows, evaluate_inclusive_split,
}
use nexus_workflow.Gateways.Parallel.{evaluate_parallel_split}
use nexus_workflow.Engine.Weights.Moves.{flow_weight, flows_weight}

-- A scope without a parent is resolved.
pub resolve-answers :
    (scopes : Dict VariableScope) (id : String)
    → ((x : String) (s : VariableScope)
        → lookup x scopes ≡ some s
        → truthy s.parent_scope_id ≡ false)
    → resolve scopes id ≢ loops
unfolding resolve scope_chain
resolve-answers [] id h = λ e. absurd (cc)
resolve-answers (entry ∷ scopes) id h = by_lookup (lookup id (entry ∷ scopes)) (h id)
  where
    by_lookup :
        (o : Option VariableScope)
        → ((s : VariableScope) → o ≡ some s → truthy s.parent_scope_id ≡ false)
        → map_outcome
            (assign_scopes [])
            (scope_chain (entry ∷ scopes) (length (entry ∷ scopes)) o [])
          ≢ loops
    by_lookup none g e = absurd (cc)
    by_lookup (some s) g e = absurd (ground (arith, g s refl))

-- The outcome is an error, or of no more than this weight.
abbrev pub Within : {A : Type 0} → (A → ℕ) → ℕ → Outcome A → Type 0
Within g n (ok a) = g a ≤ n
Within g n (threw e) = Unit
Within g n loops = ⊥

module _ {A : Type 0} (g : A → ℕ) (n : ℕ) where
  pub Within-if :
      (b : Bool) (x y : Outcome A) → Within g n x → Within g n y → Within g n (if b then x else y)
  Within-if true x y p q = p
  Within-if false x y p q = q

  pub Within-option :
      {B : Type 0} (o : Option B) (x : Outcome A) (f : B → Outcome A)
      → Within g n x
      → ((b : B) → Within g n (f b))
      → Within g n (case_option o x f)
  Within-option none x f p q = p
  Within-option (some b) x f p q = q b

  Within-more : (m : ℕ) (o : Outcome A) → m ≤ n → Within g m o → Within g n o
  Within-more m (ok a) h p = omega (arith, h, p)
  Within-more m (threw e) h p = tt
  Within-more m loops h p = p

  pub Within-bind :
      {B : Type 0} (o : Outcome B) (f : B → Outcome A)
      → o ≢ loops
      → ((b : B) → Within g n (f b))
      → Within g n (Errors.◌>>=◌ o f)
  Within-bind (ok b) f h p = p b
  Within-bind (threw e) f h p = tt
  Within-bind loops f h p = absurd (h refl)

module _ (weight : String → ℕ) (definition : ProcessDefinition) where
  abbrev pub ids : List SequenceFlow → List String
  ids flows = map (λ f. f.id) flows

  abbrev default_weight : Option SequenceFlow → ℕ
  default_weight none = 0
  default_weight (some f) = flow_weight weight definition f.id

  module _ (gateway_id : String) (default_flow_id : Option String)
      (evaluate : String → Outcome Bool) (answers : (e : String) → evaluate e ≢ loops) where
    select_flow-Within :
        (d : Option SequenceFlow) (flows : List SequenceFlow)
        → Within
            (flow_weight weight definition)
            (default_weight d + flows_weight weight definition (ids flows))
            (select_flow gateway_id default_flow_id evaluate d flows)
    unfolding select_flow
    select_flow-Within none [] = tt
    select_flow-Within (some f) [] = omega arith
    select_flow-Within d (f ∷ flows) =
        let g = flow_weight weight definition in
        let n = default_weight d + flows_weight weight definition (ids (f ∷ flows)) in
        let skipped : Within g n (select_flow gateway_id default_flow_id evaluate (some f) flows) =
          Within-more g n _ _ (omega arith) (select_flow-Within (some f) flows) in
        let next : Within g n (select_flow gateway_id default_flow_id evaluate d flows) =
          Within-more g n _ _ (omega arith) (select_flow-Within d flows) in
        let own : Within g n (ok f.id) = omega arith in
        search (Within-if, Within-option, Within-bind, answers, skipped, next, own)

    activated_or_default-Within :
        (activated : List String) (d : Option SequenceFlow) (n : ℕ)
        → flows_weight weight definition activated + default_weight d ≤ n
        → Within
            (flows_weight weight definition)
            n
            (activated_or_default gateway_id default_flow_id evaluate activated d)
    unfolding activated_or_default
    activated_or_default-Within [] none n h = tt
    activated_or_default-Within [] (some f) n h = omega (arith, h)
    activated_or_default-Within (x ∷ xs) d n h = omega (arith, h)

    flows_weight-append :
        (xs ys : List String)
        → flows_weight weight definition (xs ++ ys)
          ≡ flows_weight weight definition xs + flows_weight weight definition ys
    flows_weight-append [] ys = omega arith
    flows_weight-append (x ∷ xs) ys = omega (arith, flows_weight-append xs ys)

    activate_flows-Within :
        (activated : List String) (d : Option SequenceFlow) (flows : List SequenceFlow) (n : ℕ)
        → flows_weight weight definition activated
            + default_weight d
            + flows_weight weight definition (ids flows)
          ≤ n
        → Within
            (flows_weight weight definition)
            n
            (activate_flows gateway_id default_flow_id evaluate activated d flows)
    unfolding activate_flows
    activate_flows-Within activated d [] n h =
        activated_or_default-Within activated d n (omega (arith, h))
    activate_flows-Within activated d (f ∷ flows) n h =
        let g = flows_weight weight definition in
        let skipped : Within g n
            (activate_flows gateway_id default_flow_id evaluate activated (some f) flows) =
          activate_flows-Within activated (some f) flows n (omega (arith, h)) in
        let pushed : Within g n
            (activate_flows gateway_id default_flow_id evaluate (activated ++ f.id ∷ []) d flows) =
          activate_flows-Within (activated ++ f.id ∷ []) d flows n
            (omega (arith, h, flows_weight-append activated (f.id ∷ []))) in
        let next : Within g n
            (activate_flows gateway_id default_flow_id evaluate activated d flows) =
          activate_flows-Within activated d flows n (omega (arith, h)) in
        let tested : (o : Option String) → case_option o (ok true) evaluate ≢ loops =
          by_condition in
        search (Within-if, Within-option, Within-bind, tested, skipped, pushed, next)
      where
        by_condition : (o : Option String) → case_option o (ok true) evaluate ≢ loops
        by_condition none e = absurd (cc)
        by_condition (some x) e = answers x e

    pub exclusive_split-Within :
        (flows : List SequenceFlow)
        → Within
            (flow_weight weight definition)
            (flows_weight weight definition (ids flows))
            (evaluate_exclusive_split gateway_id flows default_flow_id evaluate)
    unfolding evaluate_exclusive_split
    exclusive_split-Within [] = tt
    exclusive_split-Within (f ∷ flows) =
        Within-more (flow_weight weight definition) _ _ _ (omega arith)
          (select_flow-Within none (f ∷ flows))

    pub inclusive_split-Within :
        (flows : List SequenceFlow)
        → Within
            (flows_weight weight definition)
            (flows_weight weight definition (ids flows))
            (evaluate_inclusive_split gateway_id flows default_flow_id evaluate)
    unfolding evaluate_inclusive_split
    inclusive_split-Within [] = tt
    inclusive_split-Within (f ∷ flows) = activate_flows-Within [] none (f ∷ flows) _ (omega arith)

  pub parallel_split-Within :
      (gateway_id : String) (flows : List SequenceFlow)
      → Within
          (flows_weight weight definition)
          (flows_weight weight definition (ids flows))
          (evaluate_parallel_split gateway_id flows)
  unfolding evaluate_parallel_split
  parallel_split-Within gateway_id [] = tt
  parallel_split-Within gateway_id (f ∷ flows) = omega arith
