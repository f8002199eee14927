-- ===== src/Engine/Weights.antt =====
-- How many tokens a command of engine/ExecutionEngine.ts can still put into the queue of the
-- execution loop: each element of a process definition has a weight, and an action costs at most the
-- weight of the tokens that it queues.
pub mod Rules
pub mod Moves
pub mod Splits
pub mod Gateways
pub mod EventBased
pub mod Elements
pub mod Round
pub mod Loop
pub mod Contexts
pub mod Start
pub mod Tasks
pub mod Completion
pub mod Triggers
pub mod Timers
pub mod Answers
use nexus_workflow.Common.{
  ℕ, suc, ◌+◌, ◌≤◌, String, Bool, true, false, not, ◌≡◌, ◌≢◌, some, List, [], ◌∷◌, all, truthy,
}
use nexus_workflow.Common.Dict.{Dict, lookup}
use nexus_workflow.Model.Types.{Value, Variables, VariableScope, Token}
use nexus_workflow.Model.Errors.{Outcome, ok, threw, loops}
use nexus_workflow.Engine.State.{ExecutionContext}
use nexus_workflow.Engine.Monad.{Exec}

-- A token that is in no sub-process.
abbrev pub is_outer : Token → Bool
is_outer t = not (truthy t.sub_process_instance_id)

-- The evaluator answers every call.
abbrev pub Answers : (String → Variables → Outcome Value) → Type 0
Answers evaluate = (expression : String) (scope : Variables) → evaluate expression scope ≢ loops

-- Contexts of processes without sub-processes.
pub record Ready (c : ExecutionContext) : Type 0 where
  pub answers : Answers c.options.evaluate
  pub rooted :
      (id : String) (s : VariableScope)
      → lookup id c.scope_map ≡ some s
      → truthy s.parent_scope_id ≡ false
  pub outer : all is_outer c.pending_queue ≡ true

module _ (weight : String → ℕ) where
  -- One for the round of the loop that takes the token, and the weight of its element.
  abbrev pub token_weight : Token → ℕ
  token_weight t = suc (weight t.element_id)

  abbrev pub total : List Token → ℕ
  total [] = 0
  total (t ∷ ts) = token_weight t + total ts

  abbrev pub Spends {ℓ} :
      {A : Type ℓ} → ℕ → ExecutionContext → Outcome (A × ExecutionContext) → Type 0
  Spends k c (ok (a, d)) = Ready d × (total d.pending_queue ≤ total c.pending_queue + k)
  Spends k c (threw e) = Unit
  Spends k c loops = ⊥

  -- In a ready context the action answers, and leaves a ready context and no more than `k` further
  -- weight in the queue.
  pub record Costs {A : Type 0} (k : ℕ) (m : Exec A) : Type 0 where
    pub at : (c : ExecutionContext) → Ready c → Spends k c (m c)
