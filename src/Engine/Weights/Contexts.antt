-- ===== src/Engine/Weights/Contexts.antt =====
-- The tokens and the flows that a command can start from: bounds on their weights.
use nexus_workflow.Common.{
  all-filter, ℕ, suc, ◌+◌, ◌≤◌, String, Bool, true, false, ◌&&◌, ◌≡◌, refl, ap, ◌∙◌, Option, none,
  some, List, [], ◌∷◌, arith, ◌==◌, eq_iff, leb, if◌then◌else◌, case_option, filter, find, all,
}
use nexus_workflow.Common.Dict.{Dict, lookup, insert, values, index_by}
use nexus_workflow.Model.Types.{Token}
use nexus_workflow.Model.Elements.{
  BpmnFlowElement, Elements, ProcessDefinition, boundary_event, sub_process, element_id,
  outgoing_flows,
}
use nexus_workflow.Engine.Definition.{
  Boundary, find_element_in_tree, attached_boundaries, find_boundaries_below, find_element_inside,
  find_boundaries_in_tree, find_boundaries_for, find_matching_error_boundary, nonempty_or,
}
use nexus_workflow.Engine.Weights.{is_outer, token_weight, total}
use nexus_workflow.Engine.Weights.Moves.{flows_weight, element_id-found}
use nexus_workflow.Engine.Weights.Elements.{
  is_plain, is_heavy, all_heavy, found-heavy, inside-none, both_of, all_of,
}

module _ {V : Type 0} (p : V → Bool) where
  pub all-values-insert :
      (k : String) (v : V) (m : Dict V)
      → p v ≡ true
      → all p (values m) ≡ true
      → all p (values (insert k v m)) ≡ true
  all-values-insert k v [] h g = ground arith
  all-values-insert k v ((j, w) ∷ m) h g = ground (arith, all-values-insert k v m)

  pub all-values-index_by :
      (key : V → String) (acc : Dict V) (xs : List V)
      → all p (values acc) ≡ true
      → all p xs ≡ true
      → all p (values (index_by key acc xs)) ≡ true
  all-values-index_by key acc [] h g = h
  all-values-index_by key acc (x ∷ xs) h g =
      all-values-index_by key (insert (key x) x acc) xs
        (all-values-insert (key x) x acc (ground arith) h) (ground arith)

  pub lookup-passes :
      (k : String) (v : V) (m : Dict V) → all p (values m) ≡ true → lookup k m ≡ some v → p v ≡ true
  lookup-passes k v [] h e = absurd (cc)
  lookup-passes k v ((j, w) ∷ m) h e = ground (arith, lookup-passes k v m)

  pub find-passes :
      (q : V → Bool) (v : V) (xs : List V) → all p xs ≡ true → find q xs ≡ some v → p v ≡ true
  find-passes q v [] h e = absurd (cc)
  find-passes q v (x ∷ xs) h e = ground (arith, find-passes q v xs)

module _ (weight : String → ℕ) where
  pub total-filter :
      (q : Token → Bool) (ts : List Token) → total weight (filter q ts) ≤ total weight ts
  total-filter q [] = omega arith
  total-filter q (t ∷ ts) = ground (arith, total-filter q ts)

  pub lookup-total :
      (id : String) (t : Token) (m : Dict Token)
      → lookup id m ≡ some t
      → token_weight weight t ≤ total weight (values m)
  lookup-total id t [] e = absurd (cc)
  lookup-total id t ((j, x) ∷ m) e = ground (arith, lookup-total id t m)

  total-insert :
      (id : String) (t : Token) (m : Dict Token)
      → total weight (values (insert id t m)) ≤ token_weight weight t + total weight (values m)
  total-insert id t [] = omega arith
  total-insert id t ((j, x) ∷ m) = ground (arith, total-insert id t m)

  pub total-index_by :
      (key : Token → String) (acc : Dict Token) (ts : List Token)
      → total weight (values (index_by key acc ts)) ≤ total weight (values acc) + total weight ts
  total-index_by key acc [] = omega arith
  total-index_by key acc (t ∷ ts) =
      omega (arith, total-insert (key t) t acc, total-index_by key (insert (key t) t acc) ts)

  -- The weight of all elements of a process without sub-processes.
  abbrev pub elements_weight : Elements → ℕ
  elements_weight Elements.nil = 0
  elements_weight (Elements.cons e es) = suc (weight (element_id e)) + elements_weight es

module _ (weight : String → ℕ) (definition : ProcessDefinition) where
  -- What leaves a boundary event weighs no more than this.
  abbrev pub is_light : ℕ → Boundary → Bool
  is_light n b = leb (flows_weight weight definition b.0.outgoing_flows) n

  attached_boundaries-light :
      (n : ℕ) (es : Elements) (id : String)
      → all_heavy weight definition es ≡ true
      → elements_weight weight es ≤ n
      → all (is_light n) (attached_boundaries es id) ≡ true
  unfolding attached_boundaries
  attached_boundaries-light n Elements.nil id h k = refl
  attached_boundaries-light n (Elements.cons (boundary_event b e) es) id h k =
      ground (arith, attached_boundaries-light n es id)
  attached_boundaries-light n (Elements.cons _ es) id h k =
      attached_boundaries-light n es id (ground arith) (omega (arith, k))

  boundaries_below-nil :
      (es : Elements) (id : String)
      → all_heavy weight definition es ≡ true
      → find_boundaries_below es id ≡ []
  unfolding find_boundaries_below
  boundaries_below-nil Elements.nil id h = refl
  boundaries_below-nil (Elements.cons (sub_process b tr fs gs s) es) id h = absurd (cc)
  boundaries_below-nil (Elements.cons _ es) id h = boundaries_below-nil es id (ground arith)

  nonempty_or-light :
      (n : ℕ) (xs ys : List Boundary)
      → all (is_light n) xs ≡ true
      → ys ≡ []
      → all (is_light n) (nonempty_or xs ys) ≡ true
  nonempty_or-light n [] ys h e = ap (all (is_light n)) e
  nonempty_or-light n (x ∷ xs) ys h e = h

  pub error_boundary-light :
      (n : ℕ) (id code : String) (b : Boundary)
      → all_heavy weight definition definition.elements ≡ true
      → elements_weight weight definition.elements ≤ n
      → find_matching_error_boundary definition id code ≡ some b
      → is_light n b ≡ true
  unfolding find_matching_error_boundary find_boundaries_for find_boundaries_in_tree
  error_boundary-light n id code b h k e = chosen _ _ _ (all-filter (is_light n) _ _ light) e
    where
      attached : List Boundary
      attached = attached_boundaries definition.elements id

      light :
          all (is_light n) (nonempty_or attached (find_boundaries_below definition.elements id))
          ≡ true
      light =
          nonempty_or-light n attached (find_boundaries_below definition.elements id)
            (attached_boundaries-light n definition.elements id h k)
            (boundaries_below-nil definition.elements id h)

      chosen :
          (p q : Boundary → Bool) (bs : List Boundary)
          → all (is_light n) bs ≡ true
          → case_option (find p bs) (find q bs) (λ exact. some exact) ≡ some b
          → is_light n b ≡ true
      chosen p q bs l c = by_exact (find p bs) refl c
        where
          by_exact :
              (o : Option Boundary)
              → find p bs ≡ o
              → case_option o (find q bs) (λ exact. some exact) ≡ some b
              → is_light n b ≡ true
          by_exact none f g = find-passes (is_light n) q b bs l g
          by_exact (some x) f g = find-passes (is_light n) p b bs l (f ∙ g)

  pub found-weight :
      (es : Elements) (id : String) (e : BpmnFlowElement)
      → all_heavy weight definition es ≡ true
      → find_element_in_tree es id ≡ some e
      → suc (weight id) ≤ elements_weight weight es
  unfolding find_element_in_tree
  found-weight Elements.nil id e h f = absurd (cc)
  found-weight (Elements.cons x es) id e h f =
      by_test (find_element_inside x id) (element_id x == id)
        (inside-none x id
          (both_of (is_plain x) (is_heavy weight definition x) (all_heavy weight definition es)
            h).0)
        refl f
        (found-weight es id e
          (all_of (is_plain x) (is_heavy weight definition x) (all_heavy weight definition es) h))
    where
      by_test :
          (inside : Option BpmnFlowElement) (b : Bool)
          → inside ≡ none
          → (element_id x == id) ≡ b
          → (if b
              then some x
              else case_option inside (find_element_in_tree es id) (λ found. some found))
            ≡ some e
          → (find_element_in_tree es id ≡ some e → suc (weight id) ≤ elements_weight weight es)
          → suc (weight id) ≤ suc (weight (element_id x)) + elements_weight weight es
      by_test inside true n t g rest =
          let same : element_id x ≡ id = (eq_iff (element_id x) id).0 t in
          omega (arith, ap weight same)
      by_test none false n t g rest = omega (arith, rest g)
      by_test (some y) false n t g rest = absurd (cc)

  -- What follows an element that is found.
  pub found-follows :
      (id : String) (e : BpmnFlowElement)
      → all_heavy weight definition definition.elements ≡ true
      → find_element_in_tree definition.elements id ≡ some e
      → (is_plain e ≡ true) × (flows_weight weight definition (outgoing_flows e) ≤ weight id)
  found-follows id e h f =
      let (plain, weighs) = found-heavy weight definition definition.elements id e f h in
      (plain, ground (arith, ap weight (element_id-found weight definition id e f), weighs))

  -- With this fuel a token is in no sub-process, and its element does not weigh more.
  abbrev pub is_known : ℕ → Token → Bool
  is_known fuel t = is_outer t && leb (weight t.element_id) fuel

  pub all-known :
      (fuel : ℕ) (ts : List Token)
      → all is_outer ts ≡ true
      → total weight ts ≤ fuel
      → all (is_known fuel) ts ≡ true
  all-known fuel [] h n = refl
  all-known fuel (t ∷ ts) h n = ground (arith, all-known fuel ts)
