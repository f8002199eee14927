-- ===== src/Engine/Loop.antt =====
-- The execution loop of engine/ExecutionEngine.ts, with fuel: one unit for each token that it takes
-- from the queue.
use nexus_workflow.Common.{ℕ, zero, suc, Option, none, some}
use nexus_workflow.Model.Types.{Token}
use nexus_workflow.Model.Elements.{ProcessDefinition}
use nexus_workflow.Engine.Monad.{Exec, stuck, ◌>>=◌, ◌>>◌}
use nexus_workflow.Engine.Context.{dequeue_pending}
use nexus_workflow.Engine.Moves.{skip}
use nexus_workflow.Engine.Handlers.{process_token}

-- The loop, from the token that was taken last.
unfoldable pub run_loop_from : (Token → Exec (Unit {0})) → ℕ → Option Token → Exec (Unit {0})
run_loop_from process fuel none = skip
run_loop_from process zero (some token) = stuck
run_loop_from process (suc fuel) (some token) = do
  process token
  next ← dequeue_pending
  run_loop_from process fuel next

unfoldable pub run_loop : ℕ → ProcessDefinition → Exec (Unit {0})
unfolding run_loop_from
run_loop fuel definition = do
  token ← dequeue_pending
  run_loop_from (process_token definition) fuel token
