-- ===== src/Engine/Definition/Flows.antt =====
-- The flows into and out of an element, at any depth (engine/ExecutionEngine.ts).
use nexus_workflow.Common.{
  not, String, Bool, true, false, ◌&&◌, ◌||◌, List, [], ◌∷◌, ◌++◌, ◌≡◌, refl, arith, ◌==◌, filter,
  all, any,
}
use nexus_workflow.Model.Elements.{
  SequenceFlow, BpmnFlowElement, Elements, ProcessDefinition, sub_process,
}
use nexus_workflow.Engine.Definition.{
  nonempty_or, find_flows_below, find_flows_inside, find_flows_by_source, find_flows_by_target,
  get_outgoing_flows, get_incoming_flows,
}

-- The flows of all levels.
mutual
  pub tree_flows : Elements → List SequenceFlow
  tree_flows Elements.nil = []
  tree_flows (Elements.cons e es) = inside_flows e ++ tree_flows es

  inside_flows : BpmnFlowElement → List SequenceFlow
  inside_flows (sub_process b t es fs s) = fs ++ tree_flows es
  inside_flows _ = []

abbrev pub is_empty {ℓ} : {A : Type ℓ} → List A → Bool
is_empty [] = true
is_empty (x ∷ xs) = false

module _ (end : SequenceFlow → String) (id : String) where
  abbrev pub ends_here : SequenceFlow → Bool
  ends_here f = end f == id

  all-filter : (fs : List SequenceFlow) → all ends_here (filter ends_here fs) ≡ true
  all-filter [] = refl
  all-filter (f ∷ fs) = ground (arith, all-filter fs)

  is_empty-filter :
      (fs : List SequenceFlow) → is_empty (filter ends_here fs) ≡ not (any ends_here fs)
  is_empty-filter [] = refl
  is_empty-filter (f ∷ fs) = ground (arith, is_empty-filter fs)

  all-nonempty_or :
      (xs ys : List SequenceFlow)
      → all ends_here xs ≡ true
      → all ends_here ys ≡ true
      → all ends_here (nonempty_or xs ys) ≡ true
  all-nonempty_or [] ys h k = k
  all-nonempty_or (x ∷ xs) ys h k = h

  is_empty-nonempty_or :
      (xs ys : List SequenceFlow) → is_empty (nonempty_or xs ys) ≡ (is_empty xs && is_empty ys)
  is_empty-nonempty_or [] ys = refl
  is_empty-nonempty_or (x ∷ xs) ys = refl

  any-append :
      (xs ys : List SequenceFlow)
      → any ends_here (xs ++ ys) ≡ (any ends_here xs || any ends_here ys)
  any-append [] ys = refl
  any-append (x ∷ xs) ys = ground (arith, any-append xs ys)

  none_of-nonempty_or :
      (xs ys fs gs : List SequenceFlow)
      → is_empty xs ≡ not (any ends_here fs)
      → is_empty ys ≡ not (any ends_here gs)
      → is_empty (nonempty_or xs ys) ≡ not (any ends_here (fs ++ gs))
  none_of-nonempty_or xs ys fs gs h k = ground (arith, is_empty-nonempty_or xs ys, any-append fs gs)

  mutual
    unfolding find_flows_below tree_flows

    flows_below :
        (es : Elements)
        → (all ends_here (find_flows_below end es id) ≡ true)
          × (is_empty (find_flows_below end es id) ≡ not (any ends_here (tree_flows es)))
    flows_below Elements.nil = (refl, refl)
    flows_below (Elements.cons e es) = (
      all-nonempty_or (find_flows_inside end e id) (find_flows_below end es id) (flows_inside e).0
          (flows_below es).0,
      none_of-nonempty_or (find_flows_inside end e id) (find_flows_below end es id) (inside_flows e)
          (tree_flows es) (flows_inside e).1 (flows_below es).1,
    )

    flows_inside :
        (e : BpmnFlowElement)
        → (all ends_here (find_flows_inside end e id) ≡ true)
          × (is_empty (find_flows_inside end e id) ≡ not (any ends_here (inside_flows e)))
    flows_inside (sub_process b t es fs s) = (
      all-nonempty_or (filter ends_here fs) (find_flows_below end es id) (all-filter fs)
          (flows_below es).0,
      none_of-nonempty_or (filter ends_here fs) (find_flows_below end es id) fs (tree_flows es)
          (is_empty-filter fs) (flows_below es).1,
    )
    flows_inside _ = (refl, refl)

-- The flows of a definition, those of its sub-processes included.
abbrev pub all_flows : ProcessDefinition → List SequenceFlow
all_flows definition = definition.sequence_flows ++ tree_flows definition.elements

-- `getOutgoingFlows` gives only flows whose source is the element, and none only when no flow at any
-- depth has it as its source; `getIncomingFlows` likewise for targets.
pub get_flows-finds :
    (definition : ProcessDefinition) (id : String)
    → ((all (λ f. f.source_ref == id) (get_outgoing_flows definition id) ≡ true)
        × (is_empty (get_outgoing_flows definition id)
            ≡ not (any (λ f. f.source_ref == id) (all_flows definition))))
      × ((all (λ f. f.target_ref == id) (get_incoming_flows definition id) ≡ true)
          × (is_empty (get_incoming_flows definition id)
              ≡ not (any (λ f. f.target_ref == id) (all_flows definition))))
unfolding get_outgoing_flows get_incoming_flows find_flows_by_source find_flows_by_target
get_flows-finds definition id = (found (λ f. f.source_ref), found (λ f. f.target_ref))
  where
    found :
        (end : SequenceFlow → String)
        → (all (ends_here end id) (
              nonempty_or
                (filter (ends_here end id) definition.sequence_flows)
                (find_flows_below end definition.elements id))
            ≡ true)
          × (is_empty (
                nonempty_or
                  (filter (ends_here end id) definition.sequence_flows)
                  (find_flows_below end definition.elements id))
              ≡ not (any (ends_here end id) (all_flows definition)))
    found end =
        let top = filter (ends_here end id) definition.sequence_flows in
        let below = find_flows_below end definition.elements id in
        (
          all-nonempty_or end id top below (all-filter end id definition.sequence_flows)
              (flows_below end id definition.elements).0,
          none_of-nonempty_or end id top below definition.sequence_flows
              (tree_flows definition.elements) (is_empty-filter end id definition.sequence_flows)
              (flows_below end id definition.elements).1,
        )
