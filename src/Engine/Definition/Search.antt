-- ===== src/Engine/Definition/Search.antt =====
-- The search for an element of a process definition, at any depth (engine/ExecutionEngine.ts).
use nexus_workflow.Common.{
  ◌⊎◌, inl, inr, String, Bool, true, false, ◌||◌, Option, none, some, List, [], ◌∷◌, ◌++◌, ◌≡◌,
  refl, ap, sym, ◌∙◌, arith, ◌==◌, if◌then◌else◌, case_option, is_some, includes, includes-append,
}
use nexus_workflow.Model.Elements.{
  BpmnFlowElement, Elements, ProcessDefinition, element_id, sub_process,
}
use nexus_workflow.Model.Errors.{ok, threw, element_not_found}
use nexus_workflow.Engine.State.{ExecutionContext}
use nexus_workflow.Engine.Monad.{require}
use nexus_workflow.Engine.Definition.{find_element_in_tree, find_element_inside, get_element}

-- The ids of all elements, those of sub-processes included.
mutual
  pub tree_ids : Elements → List String
  tree_ids Elements.nil = []
  tree_ids (Elements.cons e es) = element_id e ∷ inside_ids e ++ tree_ids es

  inside_ids : BpmnFlowElement → List String
  inside_ids (sub_process b t es fs s) = tree_ids es
  inside_ids _ = []

module _ {A : Type 0} where
  -- Whether the search of an element, then of what is inside it, then of the rest finds something.
  is_some-choice :
      (b : Bool) (x : A) (inside rest : Option A)
      → is_some (if b then some x else case_option inside rest (λ found. some found))
        ≡ (b || (is_some inside || is_some rest))
  is_some-choice true x inside rest = refl
  is_some-choice false x none rest = refl
  is_some-choice false x (some y) rest = refl

  -- What such a search finds passes a test, if all that it may find does.
  choice-passes :
      (p : A → Bool) (b : Bool) (x : A) (inside rest : Option A) (e : A)
      → (b ≡ true → p x ≡ true)
      → (inside ≡ some e → p e ≡ true)
      → (rest ≡ some e → p e ≡ true)
      → (if b then some x else case_option inside rest (λ found. some found)) ≡ some e
      → p e ≡ true
  choice-passes p true x inside rest e f g h k = ap p (sym (some-inj k)) ∙ f refl
    where
      some-inj : {y : A} → some x ≡ some y → x ≡ y
      some-inj q = cc
  choice-passes p false x none rest e f g h k = h k
  choice-passes p false x (some y) rest e f g h k = g k

mutual
  unfolding find_element_in_tree tree_ids

  is_some-find_element_in_tree :
      (es : Elements) (id : String)
      → is_some (find_element_in_tree es id) ≡ includes (tree_ids es) id
  is_some-find_element_in_tree Elements.nil id = refl
  is_some-find_element_in_tree (Elements.cons e es) id =
      is_some-choice (element_id e == id) e (find_element_inside e id) (find_element_in_tree es id)
      ∙ rw (
        is_some-find_element_inside e id,
        is_some-find_element_in_tree es id,
        includes-append (inside_ids e) (tree_ids es) id,
      )

  is_some-find_element_inside :
      (e : BpmnFlowElement) (id : String)
      → is_some (find_element_inside e id) ≡ includes (inside_ids e) id
  is_some-find_element_inside (sub_process b t es fs s) id = is_some-find_element_in_tree es id
  is_some-find_element_inside _ id = refl

mutual
  unfolding find_element_in_tree

  pub id_of_found :
      (es : Elements) (id : String) (e : BpmnFlowElement)
      → find_element_in_tree es id ≡ some e
      → (element_id e == id) ≡ true
  id_of_found Elements.nil id e h = absurd (cc)
  id_of_found (Elements.cons x es) id e h =
      choice-passes (λ y. element_id y == id) (element_id x == id) x (find_element_inside x id)
        (find_element_in_tree es id) e (λ k. k) (id_of_found_inside x id e) (id_of_found es id e) h

  id_of_found_inside :
      (x : BpmnFlowElement) (id : String) (e : BpmnFlowElement)
      → find_element_inside x id ≡ some e
      → (element_id e == id) ≡ true
  id_of_found_inside (sub_process b t es fs s) id e h = id_of_found es id e h
  id_of_found_inside _ id e h = absurd (cc)

-- `getElement` in a definition, for an id that some element at any depth has, returns an element of
-- that id and changes nothing; for any other id it throws "element not found".
pub get_element-finds :
    (definition : ProcessDefinition) (id : String) (c : ExecutionContext)
    → ((includes (tree_ids definition.elements) id ≡ true)
        × ((e : BpmnFlowElement) × (get_element definition id c ≡ ok (e, c))
            × ((element_id e == id) ≡ true)))
      ⊎ ((includes (tree_ids definition.elements) id ≡ false)
          × (get_element definition id c ≡ threw (element_not_found id)))
unfolding get_element require
get_element-finds definition id c = by_search (find_element_in_tree definition.elements id) refl
  where
    by_search :
        (o : Option BpmnFlowElement)
        → find_element_in_tree definition.elements id ≡ o
        → ((includes (tree_ids definition.elements) id ≡ true)
            × ((e : BpmnFlowElement) × (get_element definition id c ≡ ok (e, c))
                × ((element_id e == id) ≡ true)))
          ⊎ ((includes (tree_ids definition.elements) id ≡ false)
              × (get_element definition id c ≡ threw (element_not_found id)))
    by_search none k = inr (
      ground (arith, is_some-find_element_in_tree definition.elements id),
      ap (λ o. require o (element_not_found id) c) k,
    )
    by_search (some e) k = inl (
      ground (arith, is_some-find_element_in_tree definition.elements id),
      (e, ap (λ o. require o (element_not_found id) c) k, id_of_found definition.elements id e k),
    )
