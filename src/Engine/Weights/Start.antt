-- ===== src/Engine/Weights/Start.antt =====
-- `StartProcess` (Engine.Commands) on a process without sub-processes, multi-instance activities and
-- compensation, whose elements have weights.
use nexus_workflow.Common.{ℕ, suc, ◌≤◌, String, true, false, ◌≡◌, refl, ◌∙◌, Option, arith, truthy}
use nexus_workflow.Model.Types.{Variables, VariableScope}
use nexus_workflow.Model.Elements.{ProcessDefinition, element_id}
use nexus_workflow.Engine.Monad.{Exec}
use nexus_workflow.Engine.Commands.{run_from_start, handle_start_process}
use nexus_workflow.Engine.Weights.{Costs}
use nexus_workflow.Engine.Scopes.{save_scope}
use nexus_workflow.Engine.Definition.{get_element}
use nexus_workflow.Engine.Weights.Rules.{Ready-insert}
use nexus_workflow.Engine.Weights.Moves.{
  IsNew, create_token-IsNew, token_costs, element_id-found, enqueue_new,
}
use nexus_workflow.Engine.Weights.Elements.{all_heavy}
use nexus_workflow.Engine.Weights.Contexts.{elements_weight, found-weight}
use nexus_workflow.Engine.Weights.Loop.{
  Halts, Halts-given, Halts-bind, Halts-require, run_loop-Halts,
}

module _ (weight : String → ℕ) (definition : ProcessDefinition)
    (heavy : all_heavy weight definition definition.elements ≡ true) where
  save_scope-Costs :
      (s : VariableScope) → truthy s.parent_scope_id ≡ false → Costs weight 0 (save_scope s)
  unfolding save_scope
  save_scope-Costs s h = record { at = λ c r. (Ready-insert c s.id s h r, omega arith) }

  pub Halts-less :
      {A : Type 0} {m : Exec A} (k n : ℕ)
      → k ≤ n
      → Halts weight definition heavy n m
      → Halts weight definition heavy k m
  Halts-less k n h p = record { at = λ c r q. p.at c r (omega (arith, q, h)) }

  run_from_start-Halts :
      (fuel : ℕ) (instance_id scope_id : String)
      → elements_weight weight definition.elements ≤ fuel
      → Halts weight definition heavy 0 (run_from_start fuel definition instance_id scope_id)
  unfolding run_from_start get_element
  run_from_start-Halts fuel instance_id scope_id h =
      Halts-bind weight definition heavy 0 0 _ _ (search token_costs) λ _.
        Halts-require weight definition heavy 0 _ _ _ λ start found.
          Halts-given weight definition heavy 0 0 (IsNew weight (element_id start)) _ _
            (search token_costs) (search create_token-IsNew)
            λ token new.
              Halts-bind weight definition heavy (suc (weight definition.start_event_id)) 0 _ _
                (enqueue_new weight definition token token definition.start_event_id refl new.1 (
                  new.0 ∙ element_id-found weight definition definition.start_event_id start found))
                (λ _.
                  Halts-less _ fuel
                    (omega (
                      arith,
                      h,
                      found-weight weight definition definition.elements definition.start_event_id
                          start heavy found,
                    ))
                    (run_loop-Halts weight definition heavy fuel))

  pub handle_start_process-Halts :
      (fuel : ℕ) (variables : Option Variables) (ck bk : Option String)
      → elements_weight weight definition.elements ≤ fuel
      → Halts weight definition heavy 0 (handle_start_process fuel definition variables ck bk)
  unfolding handle_start_process
  handle_start_process-Halts fuel variables ck bk h =
      Halts-bind weight definition heavy 0 0 _ _ (search token_costs) λ time.
        Halts-bind weight definition heavy 0 0 _ _ (search token_costs) λ instance_id.
          Halts-bind weight definition heavy 0 0 _ _ (search token_costs) λ scope_id.
            Halts-bind weight definition heavy 0 0 _ _ (save_scope-Costs _ refl) λ _.
              Halts-bind weight definition heavy 0 0 _ _ (search token_costs)
                λ _. run_from_start-Halts fuel instance_id scope_id h
