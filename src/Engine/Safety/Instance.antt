-- ===== src/Engine/Safety/Instance.antt =====
-- The identity of the instance, over the commands of engine/ExecutionEngine.ts.
use nexus_workflow.Common.{ℕ, some, ◌≡◌, refl, sym, ◌∙◌, arith}
use nexus_workflow.Model.Types.{ProcessInstance}
use nexus_workflow.Model.Elements.{ProcessDefinition}
use nexus_workflow.Model.Errors.{ok}
use nexus_workflow.Engine.State.{
  EngineState, EngineResult, ExecuteOptions, ExecutionContext, new_context,
}
use nexus_workflow.Engine.Commands.{EngineCommand, execute}
use nexus_workflow.Engine.Changes.{
  SameIdentity, Change, changed_instance, began, ticked, Changes, here, next,
}
use nexus_workflow.Engine.Changes.Execute.{Fits, execute-Changes}

-- The instance of a context is the same one as before.
abbrev Keeps : ProcessInstance → ExecutionContext → Type 0
Keeps i c = (j : ProcessInstance) × (c.process_instance ≡ some j) × SameIdentity i j

SameIdentity-trans :
    (i j k : ProcessInstance) → SameIdentity i j → SameIdentity j k → SameIdentity i k
SameIdentity-trans i j k p q = ground arith

Change-Keeps : (i : ProcessInstance) {c d : ExecutionContext} → Change c d → Keeps i c → Keeps i d
Change-Keeps i (changed_instance c k l e same) (j, f, same') =
    (l, refl, SameIdentity-trans i k l (ground arith) same)
Change-Keeps i (began c k e) (j, f, same) = absurd (cc)
Change-Keeps i (ticked c) h = h
Change-Keeps i _ h = h

Changes-Keeps : (i : ProcessInstance) {c d : ExecutionContext} → Changes c d → Keeps i c → Keeps i d
Changes-Keeps i here h = h
Changes-Keeps i (next p s) h = Change-Keeps i s (Changes-Keeps i p h)

pub execute-SameIdentity :
    (fuel : ℕ) (definition : ProcessDefinition) (command : EngineCommand) (options : ExecuteOptions)
    (r : EngineResult) (state : EngineState)
    → Fits command (some state)
    → execute fuel definition command (some state) options ≡ ok r
    → SameIdentity state.process_instance r.new_state.process_instance
unfolding new_context
execute-SameIdentity fuel definition command options r state fits h =
    let (c, p, of) = execute-Changes fuel definition command (some state) options r fits h in
    let (j, e, same) = Changes-Keeps state.process_instance p (
      state.process_instance,
      refl,
      record {
        same_id = refl;
        same_definition = refl;
        same_definition_version = refl;
        same_root_scope = refl;
        same_correlation_key = refl;
        same_business_key = refl;
        same_started_at = refl;
        same_version = refl;
      },
    ) in
    conclude j r.new_state.process_instance same (sym e ∙ of.of_instance)
  where
    conclude :
        (j k : ProcessInstance)
        → SameIdentity state.process_instance j
        → some j ≡ some k
        → SameIdentity state.process_instance k
    conclude j k same e = ground arith
