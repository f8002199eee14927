-- ===== src/History/Chain.antt =====
-- The chain of scopes of a history snapshot (History) ends, also where the parents form a cycle.
use nexus_workflow.Common.{
  ℕ, zero, suc, ◌+◌, ◌≤◌, ◌<◌, String, Bool, true, false, ◌≡◌, refl, ap, sym, subst, ◌∙◌, Option,
  none, some, List, [], ◌∷◌, ◌++◌, arith, is_some, map, all, all-append, length, includes,
  if◌then◌else◌, case_option, truthy, length-append,
}
use nexus_workflow.Common.Sets.{Distinct, Distinct-snoc, length-subset}
use nexus_workflow.Common.Dict.{Dict, lookup, keys, includes-keys}
use nexus_workflow.Common.Dict.Keys.{Keyed, key_of_lookup}
use nexus_workflow.Model.Types.{VariableScope}
use nexus_workflow.Model.Errors.{Outcome, ok}
use nexus_workflow.History.{chain_from}

module _ (scopes : Dict VariableScope) (keyed : Keyed (λ s. s.id) scopes) where
  abbrev pub ids : List VariableScope → List String
  ids chain = map (λ s. s.id) chain

  -- A chain of different scopes of the map.
  pub record IsChain (chain : List VariableScope) : Type 0 where
    pub distinct : Distinct (ids chain)
    pub members : all (includes (keys scopes)) (ids chain) ≡ true

  length-ids : (chain : List VariableScope) → length (ids chain) ≡ length chain
  length-ids [] = refl
  length-ids (s ∷ chain) = ap suc (length-ids chain)

  length-keys : (m : Dict VariableScope) → length (keys m) ≡ length m
  length-keys [] = refl
  length-keys (x ∷ m) = ap suc (length-keys m)

  length-chain : (chain : List VariableScope) → IsChain chain → length chain ≤ length scopes
  length-chain chain h = omega (
    arith,
    length-subset (ids chain) (keys scopes) h.distinct h.members,
    length-ids chain,
    length-keys scopes,
  )

  ids-snoc :
      (chain : List VariableScope) (s : VariableScope)
      → ids (chain ++ s ∷ []) ≡ ids chain ++ s.id ∷ []
  ids-snoc [] s = refl
  ids-snoc (x ∷ chain) s = ap (λ ys. x.id ∷ ys) (ids-snoc chain s)

  IsChain-snoc :
      (chain : List VariableScope) (id : String) (s : VariableScope)
      → IsChain chain
      → lookup id scopes ≡ some s
      → includes (ids chain) s.id ≡ false
      → IsChain (chain ++ s ∷ [])
  IsChain-snoc chain id s h e n = record {
    distinct =
        subst Distinct (sym (ids-snoc chain s)) (Distinct-snoc (ids chain) s.id h.distinct n);
    members =
        ap (all (includes (keys scopes))) (ids-snoc chain s)
        ∙ all-append (includes (keys scopes)) (ids chain) (s.id ∷ [])
        ∙ ground (arith, h.members, member);
  }
    where
      member : includes (keys scopes) s.id ≡ true
      member =
          ap (includes (keys scopes)) (key_of_lookup (λ x. x.id) id scopes s keyed e)
          ∙ includes-keys id scopes
          ∙ ap is_some e

  abbrev pub Returns : Outcome (List VariableScope) → Type 0
  Returns o = (found : List VariableScope) × (o ≡ ok found) × IsChain found

  Returns-if :
      (b : Bool) (x y : Outcome (List VariableScope))
      → (b ≡ true → Returns x)
      → (b ≡ false → Returns y)
      → Returns (if b then x else y)
  Returns-if true x y p q = p refl
  Returns-if false x y p q = q refl

  -- One more round than there are scopes is enough, from a chain of different ones.
  pub chain_from_lem :
      (fuel : ℕ) (chain : List VariableScope) (id : Option String)
      → IsChain chain
      → length scopes < fuel + length chain
      → Returns (chain_from scopes fuel chain id)
  unfolding chain_from
  chain_from_lem fuel chain none h n = (chain, refl, h)
  chain_from_lem zero chain (some id) h n = absurd (omega (arith, n, length-chain chain h))
  chain_from_lem (suc fuel) chain (some id) h n =
      Returns-if (truthy (some id)) _ _
        (λ t. found (lookup id scopes) refl (λ s e k.
          chain_from_lem fuel (chain ++ s ∷ []) s.parent_scope_id (IsChain-snoc chain id s h e k)
            (omega (arith, n, length-append chain (s ∷ [])))))
        (λ t. (chain, refl, h))
    where
      found :
          (o : Option VariableScope)
          → lookup id scopes ≡ o
          → ((s : VariableScope)
              → lookup id scopes ≡ some s
              → includes (ids chain) s.id ≡ false
              → Returns (chain_from scopes fuel (chain ++ s ∷ []) s.parent_scope_id))
          → Returns (
              case_option o (ok chain) λ scope.
                if includes (map (λ s. s.id) chain) scope.id
                then ok chain
                else chain_from scopes fuel (chain ++ scope ∷ []) scope.parent_scope_id)
      found none e rest = (chain, refl, h)
      found (some s) e rest =
          Returns-if (includes (ids chain) s.id) _ _ (λ t. (chain, refl, h)) (rest s e)
