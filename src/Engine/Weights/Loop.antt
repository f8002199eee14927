-- ===== src/Engine/Weights/Loop.antt =====
-- The execution loop (Engine.Loop) ends on a process without sub-processes, multi-instance activities
-- and compensation, when its elements have weights: then no path leads back to an element.
use nexus_workflow.Common.{
  ℕ, zero, suc, ◌+◌, ◌≤◌, String, true, false, ◌≡◌, ◌≢◌, refl, ap, sym, ◌∙◌, Option, none, some,
  List, [], ◌∷◌, arith, all, truthy,
}
use nexus_workflow.Model.Types.{Token}
use nexus_workflow.Model.Elements.{ProcessDefinition}
use nexus_workflow.Model.Errors.{Outcome, ok, threw, loops, EngineError}
use nexus_workflow.Engine.State.{ExecutionContext}
use nexus_workflow.Engine.Monad.{Exec, continue, require, ◌>>=◌}
use nexus_workflow.Engine.Context.{dequeue_pending, head?, tail}
use nexus_workflow.Engine.Handlers.{process_token}
use nexus_workflow.Engine.Loop.{run_loop_from, run_loop}
use nexus_workflow.Engine.Safety.Queue.{unqueue, round, run_loop_from-suc}
use nexus_workflow.Engine.Weights.{is_outer, Ready, token_weight, total, Spends, Costs}
use nexus_workflow.Engine.Weights.Rules.{Gives}
use nexus_workflow.Engine.Weights.Elements.{all_heavy}
use nexus_workflow.Engine.Weights.Round.{process_token-Costs}

module _ (weight : String → ℕ) (definition : ProcessDefinition)
    (heavy : all_heavy weight definition definition.elements ≡ true) where
  -- The weight of the token taken last, and of the queue.
  abbrev held : Option Token → ExecutionContext → ℕ
  held none c = total weight c.pending_queue
  held (some t) c = token_weight weight t + total weight c.pending_queue

  abbrev Outer : Option Token → Type 0
  Outer none = Unit
  Outer (some t) = truthy t.sub_process_instance_id ≡ false

  -- The token that the loop takes next.
  next_token :
      (c : ExecutionContext) (queue : List Token)
      → c.pending_queue ≡ queue
      → Ready c
      → Outer (head? queue)
        × Ready (record c { pending_queue = tail queue })
        × (held (head? queue) (record c { pending_queue = tail queue }) ≡ total weight queue)
  next_token c [] e r = (tt, record { answers = r.answers; rooted = r.rooted; outer = refl }, refl)
  next_token c (t ∷ queue) e r =
      let outer : all is_outer (t ∷ queue) ≡ true = ap (all is_outer) (sym e) ∙ r.outer in
      (ground arith, record { answers = r.answers; rooted = r.rooted; outer = ground arith }, refl)

  round_ends :
      (fuel : ℕ) (t : Token) (c : ExecutionContext) (r : Outcome (Unit {0} × ExecutionContext))
      → Spends weight (weight t.element_id) c r
      → held (some t) c ≤ suc fuel
      → ((o : Option Token) (d : ExecutionContext)
          → Ready d
          → Outer o
          → held o d ≤ fuel
          → run_loop_from (process_token definition) fuel o d ≢ loops)
      → round (process_token definition) fuel r ≢ loops
  round_ends fuel t c (ok (u, d)) (p, q) n rest e =
      let (outer, ready, same) = next_token d d.pending_queue refl p in
      rest (head? d.pending_queue) (unqueue (process_token definition) d) ready outer
        (omega (arith, q, n, same)) e
  round_ends fuel t c (threw x) s n rest e = absurd (cc)
  round_ends fuel t c loops s n rest e = s

  -- With as much fuel as the weight of what is left, the loop answers.
  loop_ends :
      (fuel : ℕ) (o : Option Token) (c : ExecutionContext)
      → Ready c
      → Outer o
      → held o c ≤ fuel
      → run_loop_from (process_token definition) fuel o c ≢ loops
  loop_ends fuel none c r h n e = absurd (unfold run_loop_from ◌>>=◌ in cc)
  loop_ends zero (some t) c r h n e = absurd (omega (arith, n))
  loop_ends (suc fuel) (some t) c r h n e =
      round_ends fuel t c (process_token definition t c)
        ((process_token-Costs weight definition t h heavy).at c r) n (loop_ends fuel)
        (sym (run_loop_from-suc (process_token definition) fuel t c) ∙ e)

  -- In a ready context with no more than this weight in the queue, the action answers.
  pub record Halts {A : Type 0} (n : ℕ) (m : Exec A) : Type 0 where
    pub at : (c : ExecutionContext) → Ready c → total weight c.pending_queue ≤ n → m c ≢ loops

  pub run_loop-Halts : (fuel : ℕ) → Halts fuel (run_loop fuel definition)
  unfolding run_loop dequeue_pending ◌>>=◌
  run_loop-Halts fuel = record {
    at = λ c r n.
        let (outer, ready, e) = next_token c c.pending_queue refl r in
        loop_ends fuel (head? c.pending_queue) (unqueue (process_token definition) c) ready outer
          (omega (arith, n, e));
  }

  module _ {A B : Type 0} where
    continue-ends :
        (k n : ℕ) (P : A → Type 0) (c : ExecutionContext) (r : Outcome (A × ExecutionContext))
        (f : A → Exec B)
        → Spends weight k c r
        → total weight c.pending_queue ≤ n
        → ((a : A) (d : ExecutionContext) → r ≡ ok (a, d) → P a)
        → ((a : A) → P a → Halts (n + k) (f a))
        → continue r f ≢ loops
    continue-ends k n P c (ok (a, d)) f (p, q) h g s e =
        (s a (g a d refl)).at d p (omega (arith, q, h)) e
    continue-ends k n P c (threw x) f p h g s e = absurd (cc)
    continue-ends k n P c loops f p h g s e = p

    pub Halts-given :
        (k n : ℕ) (P : A → Type 0) (m : Exec A) (f : A → Exec B)
        → Costs weight k m
        → Gives P m
        → ((a : A) → P a → Halts (n + k) (f a))
        → Halts n (m >>= f)
    unfolding ◌>>=◌
    Halts-given k n P m f p g s = record {
      at = λ c r h. continue-ends k n P c (m c) f (p.at c r) h (λ a d e. g.given c d a e) s;
    }

    pub Halts-bind :
        (k n : ℕ) (m : Exec A) (f : A → Exec B)
        → Costs weight k m
        → ((a : A) → Halts (n + k) (f a))
        → Halts n (m >>= f)
    Halts-bind k n m f p s =
        Halts-given k n (λ a. Unit) m f p (record { given = λ c d a e. tt }) (λ a u. s a)

    pub Halts-require :
        (n : ℕ) (o : Option A) (e : EngineError) (f : A → Exec B)
        → ((a : A) → o ≡ some a → Halts n (f a))
        → Halts n (require o e >>= f)
    unfolding require ◌>>=◌
    Halts-require n none e f p = record { at = λ c r h k. absurd (cc) }
    Halts-require n (some a) e f p = record { at = (p a refl).at }
