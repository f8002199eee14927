-- ===== src/Engine/Weights/Triggers.antt =====
-- Messages and signals (Engine.EventCommands) on a process without sub-processes,
-- multi-instance activities and compensation, whose elements have weights.
use nexus_workflow.Common.{
  all-filter, ℕ, ◌≤◌, String, Bool, true, false, ◌≡◌, ◌≢◌, Option, List, [], ◌∷◌, arith, filter,
  all, truthy,
}
use nexus_workflow.Common.Dict.{values}
use nexus_workflow.Model.Types.{Variables, Token, is_waiting}
use nexus_workflow.Model.Elements.{ProcessDefinition, outgoing_flows}
use nexus_workflow.Model.Errors.{loops}
use nexus_workflow.Engine.State.{ExecutionContext}
use nexus_workflow.Engine.Monad.{Exec, for_each, ◌>>=◌, ◌>>◌}
use nexus_workflow.Engine.Context.{require_token, get_all_tokens}
use nexus_workflow.Engine.Definition.{get_element}
use nexus_workflow.Engine.Moves.{skip, advance_token_flows}
use nexus_workflow.Engine.Boundaries.{cancel_ebg_siblings}
use nexus_workflow.Engine.Loop.{run_loop}
use nexus_workflow.Engine.EventCommands.{
  waits_for_message, waits_for_signal, trigger_waiting, handle_deliver_message,
  handle_broadcast_signal,
}
use nexus_workflow.Engine.Weights.{is_outer, token_weight, total, Ready, Costs}
use nexus_workflow.Engine.Weights.Rules.{
  Costs-pure, Costs-both, Costs-bind, Costs-if, Costs-more, Costs-require_bind,
}
use nexus_workflow.Engine.Weights.Moves.{flows_weight, move_token_to_flows-Costs}
use nexus_workflow.Engine.Weights.Elements.{all_heavy}
use nexus_workflow.Engine.Weights.Contexts.{found-follows, total-filter}
use nexus_workflow.Engine.Weights.Tasks.{command_costs}
use nexus_workflow.Engine.Weights.Completion.{move_and_run}

module _ (weight : String → ℕ) where
  require_token-Costs : (k : ℕ) (id : String) → Costs weight k (require_token id)
  unfolding require_token
  require_token-Costs k id = search command_costs

  pub cancel_siblings-Costs : (k : ℕ) (t : Token) → Costs weight k (cancel_ebg_siblings t)
  unfolding cancel_ebg_siblings
  cancel_siblings-Costs k t = search command_costs

-- A loop over tokens that are in no sub-process.
Costs-for_each_outer :
    (weight : String → ℕ) (ts : List Token) (body : Token → Exec (Unit {0}))
    → all is_outer ts ≡ true
    → ((t : Token)
        → truthy t.sub_process_instance_id ≡ false
        → Costs weight (token_weight weight t) (body t))
    → Costs weight (total weight ts) (for_each ts body)
unfolding for_each
Costs-for_each_outer weight [] body h p = Costs-pure weight 0 tt
Costs-for_each_outer weight (t ∷ ts) body h p =
    Costs-both weight (token_weight weight t) (total weight ts) (body t) (λ _. for_each ts body)
      (p t (ground arith)) (λ _. Costs-for_each_outer weight ts body (ground arith) p)

module _ (weight : String → ℕ) (definition : ProcessDefinition)
    (heavy : all_heavy weight definition definition.elements ≡ true) (fuel : ℕ) where
  advance_flows-Costs :
      (t : Token)
      → truthy t.sub_process_instance_id ≡ false
      → Costs weight (weight t.element_id) (advance_token_flows definition t)
  unfolding advance_token_flows get_element
  advance_flows-Costs t h = Costs-require_bind weight _ _ _ _ λ e found.
      let (plain, follows) = found-follows weight definition t.element_id e heavy found in
      Costs-more weight (flows_weight weight definition (outgoing_flows e)) _ _ follows
        (move_token_to_flows-Costs weight definition t (outgoing_flows e) h)

  trigger_waiting-Costs :
      (vars : Option Variables) (t : Token)
      → truthy t.sub_process_instance_id ≡ false
      → Costs weight (token_weight weight t) (trigger_waiting definition vars t)
  unfolding trigger_waiting
  trigger_waiting-Costs vars t h = Costs-bind weight _ _ _ (search require_token-Costs) λ current.
      Costs-if weight _ (is_waiting current.status) _ skip
        (Costs-bind weight _ _ _ (search command_costs) λ _.
          Costs-bind weight _ _ _ (search command_costs) λ _.
            Costs-bind weight _ _ _ (search cancel_siblings-Costs) λ _.
              Costs-more weight (weight t.element_id) _ _ (omega arith) (advance_flows-Costs t h))
        (search command_costs)

  -- The loop over the tokens that wait for an event, and the execution loop.
  trigger_all-ends :
      (chosen : Token → Bool) (vars : Option Variables) (c : ExecutionContext)
      → Ready c
      → total weight c.pending_queue ≤ 0
      → all is_outer (values c.token_map) ≡ true
      → total weight (values c.token_map) ≤ fuel
      → (get_all_tokens >>= λ tokens.
            for_each (filter chosen tokens) (trigger_waiting definition vars)
            >> run_loop fuel definition)
          c
        ≢ loops
  unfolding get_all_tokens ◌>>=◌
  trigger_all-ends chosen vars c r empty outer light =
      (move_and_run weight definition heavy fuel _ _
          (omega (arith, light, total-filter weight chosen (values c.token_map)))
          (Costs-for_each_outer weight (filter chosen (values c.token_map)) _
            (all-filter is_outer chosen (values c.token_map) outer)
            (trigger_waiting-Costs vars))).at
        c r empty

  pub handle_deliver_message-ends :
      (name : String) (vars : Option Variables) (c : ExecutionContext)
      → Ready c
      → total weight c.pending_queue ≤ 0
      → all is_outer (values c.token_map) ≡ true
      → total weight (values c.token_map) ≤ fuel
      → handle_deliver_message fuel definition name vars c ≢ loops
  unfolding handle_deliver_message
  handle_deliver_message-ends name vars c = trigger_all-ends (waits_for_message name) vars c

  pub handle_broadcast_signal-ends :
      (name : String) (vars : Option Variables) (c : ExecutionContext)
      → Ready c
      → total weight c.pending_queue ≤ 0
      → all is_outer (values c.token_map) ≡ true
      → total weight (values c.token_map) ≤ fuel
      → handle_broadcast_signal fuel definition name vars c ≢ loops
  unfolding handle_broadcast_signal
  handle_broadcast_signal-ends name vars c = trigger_all-ends (waits_for_signal name) vars c
