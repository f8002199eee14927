-- ===== src/Engine/Safety/Queue.antt =====
-- The queue and the fuel of the execution loop (engine/ExecutionEngine.ts).
use nexus_workflow.Common.{
  ℕ, zero, suc, Option, none, some, List, [], ◌∷◌, ◌≡◌, refl, arith, ◌∙◌, sym, ◌≢◌,
}
use nexus_workflow.Model.Types.{Token}
use nexus_workflow.Model.Elements.{ProcessDefinition}
use nexus_workflow.Model.Errors.{Outcome, ok, threw, loops}
use nexus_workflow.Engine.State.{ExecutionContext}
use nexus_workflow.Engine.Monad.{Exec, ◌>>=◌}
use nexus_workflow.Engine.Context.{dequeue_pending, head?, tail}
use nexus_workflow.Engine.Handlers.{process_token}
use nexus_workflow.Engine.Loop.{run_loop_from, run_loop}

module _ (process : Token → Exec (Unit {0})) where
  -- The context in which the loop takes its next token from the queue.
  abbrev pub unqueue : ExecutionContext → ExecutionContext
  unqueue c = record c { pending_queue = tail c.pending_queue }

  -- One round of the loop.
  abbrev pub round :
      ℕ → Outcome (Unit {0} × ExecutionContext) → Outcome (Unit {0} × ExecutionContext)
  round fuel (ok (u, c)) = run_loop_from process fuel (head? c.pending_queue) (unqueue c)
  round fuel (threw e) = threw e
  round fuel loops = loops

  pub run_loop_from-suc :
      (fuel : ℕ) (t : Token) (c : ExecutionContext)
      → run_loop_from process (suc fuel) (some t) c ≡ round fuel (process t c)
  unfolding run_loop_from dequeue_pending ◌>>=◌
  run_loop_from-suc fuel t c = ground arith

  -- Taken from an empty queue, there was none left.
  abbrev Fresh : Option Token → ExecutionContext → Type 0
  Fresh none c = c.pending_queue ≡ []
  Fresh (some t) c = Unit

  Fresh-unqueue :
      (l : List Token) (c : ExecutionContext) → c.pending_queue ≡ l → Fresh (head? l) (unqueue c)
  Fresh-unqueue [] c e = ground arith
  Fresh-unqueue (t ∷ l) c e = tt

  round-empties :
      (fuel : ℕ) (r : Outcome (Unit {0} × ExecutionContext)) (d : ExecutionContext)
      → ((o : Option Token) (c : ExecutionContext)
          → Fresh o c
          → run_loop_from process fuel o c ≡ ok (tt, d)
          → d.pending_queue ≡ [])
      → round fuel r ≡ ok (tt, d)
      → d.pending_queue ≡ []
  round-empties fuel (ok (u, c)) d rest h =
      rest (head? c.pending_queue) (unqueue c) (Fresh-unqueue c.pending_queue c refl) h
  round-empties fuel (threw e) d rest h = absurd (cc)
  round-empties fuel loops d rest h = absurd (cc)

  run_loop_from-empties :
      (fuel : ℕ) (o : Option Token) (c d : ExecutionContext)
      → Fresh o c
      → run_loop_from process fuel o c ≡ ok (tt, d)
      → d.pending_queue ≡ []
  run_loop_from-empties fuel none c d f h = unfold run_loop_from ◌>>=◌ in ground arith
  run_loop_from-empties zero (some t) c d f h = absurd (unfold run_loop_from ◌>>=◌ in cc)
  run_loop_from-empties (suc fuel) (some t) c d f h =
      round-empties fuel (process t c) d (λ o e. run_loop_from-empties fuel o e d)
        (sym (run_loop_from-suc fuel t c) ∙ h)

  round-more :
      (fuel : ℕ) (r : Outcome (Unit {0} × ExecutionContext))
      → ((o : Option Token) (c : ExecutionContext)
          → run_loop_from process fuel o c ≢ loops
          → run_loop_from process (suc fuel) o c ≡ run_loop_from process fuel o c)
      → round fuel r ≢ loops
      → round (suc fuel) r ≡ round fuel r
  round-more fuel (ok (u, c)) rest h = rest (head? c.pending_queue) (unqueue c) h
  round-more fuel (threw e) rest h = refl
  round-more fuel loops rest h = refl

  -- One more unit of fuel changes no answer.
  pub run_loop_from-more :
      (fuel : ℕ) (o : Option Token) (c : ExecutionContext)
      → run_loop_from process fuel o c ≢ loops
      → run_loop_from process (suc fuel) o c ≡ run_loop_from process fuel o c
  run_loop_from-more fuel none c h = unfold run_loop_from in refl
  run_loop_from-more zero (some t) c h = absurd (h (unfold run_loop_from ◌>>=◌ in refl))
  run_loop_from-more (suc fuel) (some t) c h =
      run_loop_from-suc (suc fuel) t c
      ∙ round-more fuel (process t c) (run_loop_from-more fuel)
          (λ e. h (run_loop_from-suc fuel t c ∙ e))
      ∙ sym (run_loop_from-suc fuel t c)

-- When the execution loop returns, no token is left in the queue, whatever the definition, the state
-- and the fuel were.
pub run_loop-empties :
    (fuel : ℕ) (definition : ProcessDefinition) (c d : ExecutionContext)
    → run_loop fuel definition c ≡ ok (tt, d)
    → d.pending_queue ≡ []
run_loop-empties fuel definition c d h =
    run_loop_from-empties (process_token definition) fuel (head? c.pending_queue)
      (unqueue (process_token definition) c) d
      (Fresh-unqueue (process_token definition) c.pending_queue c refl)
      (unfold run_loop dequeue_pending ◌>>=◌ in h)
