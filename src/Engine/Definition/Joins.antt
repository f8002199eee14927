-- ===== src/Engine/Definition/Joins.antt =====
-- The join that an inclusive split finds for itself (engine/ExecutionEngine.ts).
use nexus_workflow.Common.{
  ◌<◌, String, Bool, true, false, ◌&&◌, Option, none, some, List, [], ◌∷◌, ◌≡◌, refl, subst, ◌∙◌,
  arith, ◌==◌, if◌then◌else◌, case_option, is_some, find, filter, map, length, includes,
}
use nexus_workflow.Model.Elements.{BpmnElement, Elements, ProcessDefinition, GatewayType, gateway}
use nexus_workflow.Engine.Definition.{
  get_incoming_flows, join_candidate, inclusive_candidate, find_join_among,
  find_inclusive_join_incoming,
}

module _ (definition : ProcessDefinition) (activated : List String) where
  -- The ids of the flows that lead into an element.
  abbrev pub entering : String → List String
  entering id = map (λ f. f.id) (get_incoming_flows definition id)

  -- A join with several incoming flows, and the activated ones among them, at least one.
  abbrev pub IsDirect : String × List String → Type 0
  IsDirect (id, incoming) =
      (1 < length (entering id))
      × (incoming ≡ filter (includes (entering id)) activated)
      × (0 < length incoming)

  length-filter-weaker :
      (p q : String → Bool) (xs : List String)
      → 0 < length (filter (λ x. p x && q x) xs)
      → 0 < length (filter q xs)
  length-filter-weaker p q [] h = h
  length-filter-weaker p q (x ∷ xs) h = ground (arith, length-filter-weaker p q xs)

  candidate-IsDirect :
      (base : BpmnElement) (found : String × List String)
      → join_candidate definition activated base ≡ some found
      → IsDirect found
  unfolding join_candidate
  candidate-IsDirect base found h =
      let (both, e) = chosen_by _ h in
      subst IsDirect e (
        ground arith,
        refl,
        length-filter-weaker (λ fid. is_some (find (λ f. f.id == fid) definition.sequence_flows))
            (includes (entering base.id)) activated (ground arith),
      )
    where
      chosen_by :
          {x : String × List String} (b : Bool)
          → (if b then some x else none) ≡ some found
          → (b ≡ true) × (x ≡ found)
      chosen_by true k = (refl, cc)
      chosen_by false k = absurd (cc)

  among-IsDirect :
      (es : Elements) (found : String × List String)
      → find_join_among definition activated es ≡ some found
      → IsDirect found
  unfolding find_join_among inclusive_candidate
  among-IsDirect Elements.nil found h = absurd (cc)
  among-IsDirect (Elements.cons (gateway b g) es) found h =
      by_candidate (inclusive_candidate definition activated b g.type) refl h
        (among-IsDirect es found)
    where
      by_type :
          (type : GatewayType)
          → inclusive_candidate definition activated b type ≡ some found
          → IsDirect found
      by_type GatewayType.inclusive k = candidate-IsDirect b found k
      by_type _ k = absurd (cc)

      by_candidate :
          (o : Option (String × List String))
          → inclusive_candidate definition activated b g.type ≡ o
          → case_option o (find_join_among definition activated es) (λ x. some x) ≡ some found
          → (find_join_among definition activated es ≡ some found → IsDirect found)
          → IsDirect found
      by_candidate none k e rest = rest e
      by_candidate (some x) k e rest = by_type g.type (k ∙ e)
  among-IsDirect (Elements.cons _ es) found h = among-IsDirect es found h

  pub find_inclusive_join_incoming-IsDirect :
      (id : String) (incoming : List String)
      → find_inclusive_join_incoming definition activated ≡ some (id, incoming)
      → (1 < length (entering id))
        × (incoming ≡ filter (includes (entering id)) activated)
        × (0 < length incoming)
  unfolding find_inclusive_join_incoming
  find_inclusive_join_incoming-IsDirect id incoming h =
      among-IsDirect definition.elements (id, incoming) h
