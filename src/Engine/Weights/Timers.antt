-- ===== src/Engine/Weights/Timers.antt =====
-- Timers (Engine.EventCommands) on a process without sub-processes,
-- multi-instance activities and compensation, whose elements have weights.
use nexus_workflow.Common.{
  ℕ, ◌≤◌, String, Bool, true, false, ◌≡◌, ◌≢◌, refl, ap, ◌∙◌, none, List, [], ◌∷◌, arith,
  if◌then◌else◌, all, truthy,
}
use nexus_workflow.Common.Dict.{values}
use nexus_workflow.Model.Types.{Token, cancelled, is_waiting}
use nexus_workflow.Model.Elements.{
  BpmnFlowElement, ProcessDefinition, boundary_event, outgoing_flows,
}
use nexus_workflow.Model.Errors.{Outcome, ok, threw, loops, token_not_waiting}
use nexus_workflow.Model.Events.{ExecutionEvent}
use nexus_workflow.Engine.State.{ExecutionContext}
use nexus_workflow.Engine.Monad.{Exec, throw, for_each, continue, ◌>>=◌, ◌>>◌}
use nexus_workflow.Engine.Context.{now, emit, update_token, get_all_tokens}
use nexus_workflow.Engine.Definition.{get_element}
use nexus_workflow.Engine.Moves.{skip, cancel_token}
use nexus_workflow.Engine.Boundaries.{is_boundary_type, cancel_ebg_siblings, cancel_where}
use nexus_workflow.Engine.TaskCommands.{require_waiting, handle_complete_task}
use nexus_workflow.Engine.EventCommands.{fire_boundary_timer, handle_fire_timer}
use nexus_workflow.Engine.Weights.{total, Ready, Spends, Costs}
use nexus_workflow.Engine.Weights.Moves.{flows_weight, move_token_to_flows-Costs}
use nexus_workflow.Engine.Weights.Elements.{all_heavy}
use nexus_workflow.Engine.Weights.Contexts.{
  lookup-passes, found-follows, is_known, all-values-insert,
}
use nexus_workflow.Engine.Weights.Tasks.{command_costs}
use nexus_workflow.Engine.Weights.Completion.{
  Ending, Ending-bind, move_and_run, with_token, handle_complete_task-ends,
}
use nexus_workflow.Engine.Weights.Triggers.{cancel_siblings-Costs}
use nexus_workflow.Engine.Weights.Loop.{Halts-require}

-- What the actions before a timer's task leave as it was: every token in the map passes a test that
-- does not read the status.
module _ (p : Token → Bool) where
  abbrev Passing : ExecutionContext → Type 0
  Passing c = all p (values c.token_map) ≡ true

  abbrev Left : {A : Type 0} → Outcome (A × ExecutionContext) → Type 0
  Left (ok (a, d)) = Passing d
  Left (threw e) = Unit
  Left loops = Unit

  record Leaves {A : Type 0} (m : Exec A) : Type 0 where
    left : (c : ExecutionContext) → Passing c → Left (m c)

  Leaves-bind :
      {A B : Type 0} (m : Exec A) (f : A → Exec B)
      → Leaves m
      → ((a : A) → Leaves (f a))
      → Leaves (m >>= f)
  unfolding ◌>>=◌
  Leaves-bind {A} m f h g = record { left = λ c k. go (m c) (h.left c k) }
    where
      go : (r : Outcome (A × ExecutionContext)) → Left r → Left (continue r f)
      go (ok (a, d)) k = (g a).left d k
      go (threw e) k = tt
      go loops k = tt

  Leaves-if :
      {A : Type 0} (b : Bool) (m n : Exec A) → Leaves m → Leaves n → Leaves (if b then m else n)
  Leaves-if true m n h k = h
  Leaves-if false m n h k = k

  Leaves-same :
      {A : Type 0} (m : Exec A)
      → ((c d : ExecutionContext) (a : A) → m c ≡ ok (a, d) → d.token_map ≡ c.token_map)
      → Leaves m
  Leaves-same {A} m h = record { left = λ c k. go c (m c) refl k }
    where
      go :
          (c : ExecutionContext) (r : Outcome (A × ExecutionContext)) → m c ≡ r → Passing c → Left r
      go c (ok (a, d)) e k = ap (λ x. all p (values x)) (h c d a e) ∙ k
      go c (threw x) e k = tt
      go c loops e k = tt

  now-Leaves : Leaves now
  unfolding now ◌>>=◌
  now-Leaves = record { left = λ c k. k }

  emit-Leaves : (event : ExecutionEvent) → Leaves (emit event)
  unfolding emit ◌>>=◌
  emit-Leaves event = record { left = λ c k. k }

  skip-Leaves : Leaves skip
  unfolding ◌>>=◌
  skip-Leaves = record { left = λ c k. k }

  require_waiting-Leaves : (id : String) (t : Token) → Leaves (require_waiting id t)
  unfolding require_waiting ◌>>=◌
  require_waiting-Leaves id t =
      Leaves-if (is_waiting t.status) skip (throw (token_not_waiting id t.status)) skip-Leaves
        (record { left = λ c k. tt })

  update_token-Leaves : (t : Token) → p t ≡ true → Leaves (update_token t)
  unfolding update_token ◌>>=◌
  update_token-Leaves t h = record { left = λ c k. all-values-insert p t.id t c.token_map h k }

  module _
      (status_free : (t : Token) (time : ℕ)
        → p t ≡ true
        → p (record t { status = cancelled; updated_at = time }) ≡ true) where
    cancel_token-Leaves : (time : ℕ) (t : Token) → p t ≡ true → Leaves (cancel_token time t)
    unfolding cancel_token
    cancel_token-Leaves time t h =
        Leaves-bind _ _ (update_token-Leaves _ (status_free t time h)) (λ _. emit-Leaves _)

    cancel_all-Leaves :
        (time : ℕ) (chosen : Token → Bool) (ts : List Token)
        → all p ts ≡ true
        → Leaves (for_each ts (λ t. if chosen t then cancel_token time t else skip))
    unfolding for_each
    cancel_all-Leaves time chosen [] h = skip-Leaves
    cancel_all-Leaves time chosen (t ∷ ts) h =
        Leaves-bind _ _
          (Leaves-if (chosen t) _ _ (cancel_token-Leaves time t (ground arith)) skip-Leaves)
          (λ _. cancel_all-Leaves time chosen ts (ground arith))

    cancel_where-Leaves : (chosen : Token → Bool) → Leaves (cancel_where chosen)
    unfolding cancel_where get_all_tokens ◌>>=◌
    cancel_where-Leaves chosen = Leaves-bind _ _ now-Leaves λ time. record {
      left = λ c k. (cancel_all-Leaves time chosen (values c.token_map) k).left c k;
    }

    cancel_siblings-Leaves : (t : Token) → Leaves (cancel_ebg_siblings t)
    unfolding cancel_ebg_siblings
    cancel_siblings-Leaves t = Leaves-if _ _ _ (cancel_where-Leaves _) skip-Leaves

module _ (weight : String → ℕ) (definition : ProcessDefinition)
    (heavy : all_heavy weight definition definition.elements ≡ true) (fuel : ℕ) where
  fire_boundary_timer-Ending :
      (id : String) (t : Token) (e : BpmnFlowElement)
      → truthy t.sub_process_instance_id ≡ false
      → flows_weight weight definition (outgoing_flows e) ≤ fuel
      → Ending weight definition heavy fuel (fire_boundary_timer fuel definition id t e)
  unfolding fire_boundary_timer
  fire_boundary_timer-Ending id t (boundary_event base e) h light =
      Ending-bind weight definition heavy fuel _ _ (search command_costs) λ _.
        Ending-bind weight definition heavy fuel _ _ (search command_costs) λ _.
          move_and_run weight definition heavy fuel _ _ light
            (move_token_to_flows-Costs weight definition t base.outgoing_flows h)
  fire_boundary_timer-Ending id t e h light =
      Ending-bind weight definition heavy fuel _ _ (search command_costs) λ _.
        move_and_run weight definition heavy fuel _ _ light
          (move_token_to_flows-Costs weight definition t (outgoing_flows e) h)

  -- An action, and then one that ends where the tokens still pass.
  then_ends :
      {A B : Type 0} (m : Exec A) (f : A → Exec B) (c : ExecutionContext)
      → Costs weight 0 m
      → Leaves (is_known weight definition fuel) m
      → Ready c
      → total weight c.pending_queue ≤ 0
      → all (is_known weight definition fuel) (values c.token_map) ≡ true
      → ((a : A) (d : ExecutionContext)
          → Ready d
          → total weight d.pending_queue ≤ 0
          → all (is_known weight definition fuel) (values d.token_map) ≡ true
          → f a d ≢ loops)
      → (m >>= f) c ≢ loops
  unfolding ◌>>=◌
  then_ends {A} m f c cost leaves r empty known p = go (m c) (cost.at c r) (leaves.left c known)
    where
      go :
          (o : Outcome (A × ExecutionContext))
          → Spends weight 0 c o
          → Left (is_known weight definition fuel) o
          → continue o f ≢ loops
      go (ok (a, d)) (q, n) k e = p a d q (omega (arith, n, empty)) k e
      go (threw x) q k e = absurd (cc)
      go loops q k e = q

  pub handle_fire_timer-ends :
      (id : String) (c : ExecutionContext)
      → Ready c
      → total weight c.pending_queue ≤ 0
      → all (is_known weight definition fuel) (values c.token_map) ≡ true
      → handle_fire_timer fuel definition id c ≢ loops
  unfolding handle_fire_timer get_element
  handle_fire_timer-ends id c r empty known =
      with_token weight definition heavy fuel id _ c λ t found.
        then_ends (require_waiting id t) _ c (search command_costs) (require_waiting-Leaves _ id t)
          r empty known
          λ u d q n k.
            waited t (lookup-passes (is_known weight definition fuel) id t c.token_map known found)
              (is_boundary_type t.element_type) d q n k
    where
      waited :
          (t : Token)
          → is_known weight definition fuel t ≡ true
          → (b : Bool) (d : ExecutionContext) → Ready d
          → total weight d.pending_queue ≤ 0
          → all (is_known weight definition fuel) (values d.token_map) ≡ true
          → (if b
                then (get_element definition t.element_id >>= λ element.
                    fire_boundary_timer fuel definition id t element)
                else (cancel_ebg_siblings t >> handle_complete_task fuel definition id none))
              d
            ≢ loops
      waited t here true d q n k =
          (Halts-require weight definition heavy 0 _ _ _ λ e is_e.
              let (plain, follows) = found-follows weight definition t.element_id e heavy is_e in
              fire_boundary_timer-Ending id t e (ground arith) (ground arith)).at
            d q n
      waited t here false d q n k =
          then_ends (cancel_ebg_siblings t) _ d (cancel_siblings-Costs weight 0 t)
            (cancel_siblings-Leaves _ (λ x time h. h) t) q n k
            λ u e. handle_complete_task-ends weight definition heavy fuel id none e
