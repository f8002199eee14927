-- ===== src/Engine/Weights/Completion.antt =====
-- The commands that complete and fail a task (Engine.TaskCommands) end on a process without sub-processes,
-- multi-instance activities and compensation, whose elements have weights.
use nexus_workflow.Common.{
  ℕ, ◌+◌, ◌≤◌, String, Bool, true, false, ◌&&◌, ◌≡◌, ◌≢◌, refl, Option, none, some, arith, ◌==◌,
  is_some, if◌then◌else◌, case_option, all, truthy,
}
use nexus_workflow.Common.Dict.{lookup, values}
use nexus_workflow.Model.Types.{Variables, Token}
use nexus_workflow.Model.Elements.{
  BpmnFlowElement, MultiInstanceLoopCharacteristics, ProcessDefinition, service_task, user_task,
  script_task, manual_task, outgoing_flows,
}
use nexus_workflow.Model.Errors.{Outcome, ok, threw, loops, token_not_found}
use nexus_workflow.Engine.State.{ExecutionContext}
use nexus_workflow.Engine.Monad.{Exec, continue, require, ◌>>=◌, ◌>>◌}
use nexus_workflow.Engine.Context.{require_token}
use nexus_workflow.Engine.Definition.{Boundary, get_element}
use nexus_workflow.Engine.Compensation.{handle_compensation_handler_completion}
use nexus_workflow.Engine.MultiInstance.{get_loop_characteristics}
use nexus_workflow.Engine.Loop.{run_loop}
use nexus_workflow.Engine.TaskCommands.{
  is_compensation_source, is_for_compensation, complete_plain_task, complete_child_task,
  complete_handler_or_plain, complete_with_parent, complete_task, handle_complete_task,
  catch_failure, handle_fail_service_task,
}
use nexus_workflow.Engine.Weights.{total, Ready, Spends, Costs}
use nexus_workflow.Engine.Weights.Moves.{
  flows_weight, advance_token-Costs, move_token_to_flows-Costs,
}
use nexus_workflow.Engine.Weights.Elements.{is_plain, all_heavy}
use nexus_workflow.Engine.Weights.Contexts.{
  is_light, error_boundary-light, elements_weight, lookup-passes, found-follows, is_known,
}
use nexus_workflow.Engine.Weights.Tasks.{command_costs, record_if_needed-Costs}
use nexus_workflow.Engine.Weights.Loop.{Halts, Halts-bind, Halts-require, run_loop-Halts}
use nexus_workflow.Engine.Weights.Start.{Halts-less}

no_some : {A : Type 0} (o : Option A) → is_some o ≡ false → o ≡ none
no_some none h = refl
no_some (some a) h = absurd (cc)

no_handler : (e : BpmnFlowElement) → is_plain e ≡ true → is_for_compensation e ≡ false
no_handler (service_task b t) h = ground arith
no_handler (user_task b t) h = ground arith
no_handler (script_task b t) h = ground arith
no_handler (manual_task b t) h = ground arith
no_handler _ h = refl

no_loop : (e : BpmnFlowElement) → is_plain e ≡ true → get_loop_characteristics e ≡ none
no_loop (service_task b t) h = no_some t.loop_characteristics (ground arith)
no_loop (user_task b t) h = no_some t.loop_characteristics (ground arith)
no_loop (script_task b t) h = no_some t.loop_characteristics (ground arith)
no_loop (manual_task b t) h = no_some t.loop_characteristics (ground arith)
no_loop _ h = refl

module _ (weight : String → ℕ) (definition : ProcessDefinition)
    (heavy : all_heavy weight definition definition.elements ≡ true) (fuel : ℕ) where
  abbrev pub Ending : {A : Type 0} → Exec A → Type 0
  Ending m = Halts weight definition heavy 0 m

  pub Ending-if :
      {A : Type 0} (b : Bool) (m n : Exec A) → Ending m → Ending n → Ending (if b then m else n)
  Ending-if true m n p q = p
  Ending-if false m n p q = q

  Ending-option :
      {A B : Type 0} (o : Option B) (m : Exec A) (f : B → Exec A)
      → Ending m
      → ((b : B) → Ending (f b))
      → Ending (case_option o m f)
  Ending-option none m f p q = p
  Ending-option (some b) m f p q = q b

  -- An action that queues nothing comes first.
  pub Ending-bind :
      {A B : Type 0} (m : Exec A) (f : A → Exec B)
      → Costs weight 0 m
      → ((a : A) → Ending (f a))
      → Ending (m >>= f)
  Ending-bind m f p q =
      Halts-bind weight definition heavy 0 0 m f p
        (λ a. Halts-less weight definition heavy (0 + 0) 0 (omega arith) (q a))

  pub Ending-free : {A : Type 0} (m : Exec A) → Costs weight 0 m → Ending m
  Ending-free m p = record { at = λ c r h. answered c (m c) (p.at c r) }
    where
      answered :
          {B : Type 0} (c : ExecutionContext) (r : Outcome (B × ExecutionContext))
          → Spends weight 0 c r
          → r ≢ loops
      answered c (ok x) p e = absurd (cc)
      answered c (threw x) p e = absurd (cc)
      answered c loops p e = p

  -- The end of a command: tokens are moved, and the loop runs.
  pub move_and_run :
      {A : Type 0} (k : ℕ) (m : Exec A)
      → k ≤ fuel
      → Costs weight k m
      → Ending (m >>= λ _. run_loop fuel definition)
  move_and_run k m h p = Halts-bind weight definition heavy k 0 m _ p (λ _.
      Halts-less weight definition heavy (0 + k) fuel (omega (arith, h))
        (run_loop-Halts weight definition heavy fuel))

  ruleset ending_rules = (Ending-if, Ending-option, Ending-bind)

  module _ (t : Token) (outer : truthy t.sub_process_instance_id ≡ false) (e : BpmnFlowElement)
      (plain : is_plain e ≡ true)
      (enough : flows_weight weight definition (outgoing_flows e) ≤ fuel) where
    complete_plain_task-Ending : Ending (complete_plain_task fuel definition t e)
    unfolding complete_plain_task
    complete_plain_task-Ending = Ending-bind _ _ (search command_costs) λ _.
        Ending-bind _ _ (search command_costs) λ _.
          Ending-bind _ _ (search record_if_needed-Costs)
            λ _. move_and_run _ _ enough (advance_token-Costs weight definition t e outer)

    complete_handler_or_plain-Ending :
        (parent : Token) → Ending (complete_handler_or_plain fuel definition t e parent)
    unfolding complete_handler_or_plain
    complete_handler_or_plain-Ending parent =
        by_handler (is_compensation_source parent.element_type) (is_for_compensation e)
          (no_handler e plain)
      where
        by_handler :
            (a b : Bool)
            → b ≡ false
            → Ending (
                if a && b
                then (handle_compensation_handler_completion definition t parent
                    >> run_loop fuel definition)
                else complete_plain_task fuel definition t e)
        by_handler true true h = absurd (cc)
        by_handler true false h = complete_plain_task-Ending
        by_handler false b h = complete_plain_task-Ending

    complete_with_parent-Ending :
        (parent : Token) → Ending (complete_with_parent fuel definition t e parent)
    unfolding complete_with_parent
    complete_with_parent-Ending parent =
        by_loop (parent.element_id == t.element_id) (get_loop_characteristics e) (no_loop e plain)
      where
        by_loop :
            (b : Bool) (o : Option MultiInstanceLoopCharacteristics)
            → o ≡ none
            → Ending (
                case_option
                  (if b then o else none)
                  (complete_handler_or_plain fuel definition t e parent)
                  (complete_child_task fuel definition t e))
        by_loop b (some lc) h = absurd (cc)
        by_loop true none h = complete_handler_or_plain-Ending parent
        by_loop false none h = complete_handler_or_plain-Ending parent

    complete_task-Ending : Ending (complete_task fuel definition t e)
    unfolding complete_task
    complete_task-Ending = Ending-bind _ _ (search command_costs) λ tokens.
        search (Ending-if, Ending-option, complete_plain_task-Ending, complete_with_parent-Ending)

  -- The action after a token was looked up.
  pub with_token :
      {A : Type 0} (id : String) (f : Token → Exec A) (c : ExecutionContext)
      → ((t : Token) → lookup id c.token_map ≡ some t → f t c ≢ loops)
      → (require_token id >>= f) c ≢ loops
  unfolding require_token require ◌>>=◌
  with_token id f c p = found (lookup id c.token_map) refl
    where
      found :
          (o : Option Token)
          → lookup id c.token_map ≡ o
          → continue (continue (ok (o, c)) (λ x. require x (token_not_found id))) f ≢ loops
      found none e k = absurd (cc)
      found (some t) e k = p t e k

  pub handle_complete_task-ends :
      (id : String) (vars : Option Variables) (c : ExecutionContext)
      → Ready c
      → total weight c.pending_queue ≤ 0
      → all (is_known weight definition fuel) (values c.token_map) ≡ true
      → handle_complete_task fuel definition id vars c ≢ loops
  unfolding handle_complete_task get_element
  handle_complete_task-ends id vars c r empty known = with_token id _ c λ t found.
      let here = lookup-passes (is_known weight definition fuel) id t c.token_map known found in
      (Ending-bind _ _ (search command_costs) λ _. Ending-bind _ _ (search command_costs) λ _.
          Ending-bind _ _ (search command_costs) λ _.
            Halts-require weight definition heavy 0 _ _ _ λ e is_e.
              let (plain, follows) = found-follows weight definition t.element_id e heavy is_e in
              complete_task-Ending t (ground arith) e plain (ground arith)).at
        c r empty

  -- The first action gives a value and an equation.
  Ending-known :
      {A B : Type 0} (o : Option B) (m : Exec A) (f : B → Exec A)
      → Ending m
      → ((b : B) → o ≡ some b → Ending (f b))
      → Ending (case_option o m f)
  Ending-known none m f p q = p
  Ending-known (some b) m f p q = q b refl

  catch_failure-Ending :
      (t : Token) (code : String) (b : Boundary)
      → truthy t.sub_process_instance_id ≡ false
      → is_light weight definition fuel b ≡ true
      → Ending (catch_failure fuel definition t code b)
  unfolding catch_failure
  catch_failure-Ending t code (base, e) outer light = Ending-bind _ _ (search command_costs) λ time.
      Ending-bind _ _ (search command_costs) λ _. Ending-bind _ _ (search command_costs) λ _.
        Ending-bind _ _ (search command_costs) λ i. Ending-bind _ _ (search command_costs) λ _.
          Ending-bind _ _ (search command_costs) λ _.
            move_and_run _ _ (ground arith)
              (move_token_to_flows-Costs weight definition t base.outgoing_flows outer)

  pub handle_fail_service_task-ends :
      (id code message : String) (c : ExecutionContext)
      → elements_weight weight definition.elements ≤ fuel
      → Ready c
      → total weight c.pending_queue ≤ 0
      → all (is_known weight definition fuel) (values c.token_map) ≡ true
      → handle_fail_service_task fuel definition id code message c ≢ loops
  unfolding handle_fail_service_task
  handle_fail_service_task-ends id code message c size r empty known = with_token id _ c λ t found.
      let here = lookup-passes (is_known weight definition fuel) id t c.token_map known found in
      (Ending-bind _ _ (search command_costs) λ _. Ending-bind _ _ (search command_costs) λ i.
          Ending-bind _ _ (search command_costs) λ _.
            Ending-known _ _ _ (Ending-free _ (search command_costs)) λ b matches.
              catch_failure-Ending t code b (ground arith) (
                error_boundary-light weight definition fuel t.element_id code b heavy size
                  matches)).at
        c r empty
