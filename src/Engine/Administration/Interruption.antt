-- ===== src/Engine/Administration/Interruption.antt =====
-- Interrupting a task: `cancelHostTaskAndBoundaries` of engine/ExecutionEngine.ts.
use nexus_workflow.Common.{
  ℕ, String, Bool, true, false, not, ◌&&◌, ◌||◌, List, [], ◌∷◌, ◌≡◌, refl, ap, ◌∙◌, ◌==◌,
  if◌then◌else◌, all,
}
use nexus_workflow.Common.Sets.{Distinct}
use nexus_workflow.Common.Dict.{keys, values}
use nexus_workflow.Common.Dict.Keys.{Keyed}
use nexus_workflow.Common.Dict.Rebuild.{values-replaced}
use nexus_workflow.Model.Types.{Token, is_waiting}
use nexus_workflow.Model.Errors.{ok}
use nexus_workflow.Engine.State.{ExecutionContext}
use nexus_workflow.Engine.Boundaries.{correlates, cancel_host_task_and_boundaries}
use nexus_workflow.Engine.Administration.Cancellation.{
  cancelled_at, cancelled_where, cancel_where-eq,
}

-- A token that waits at a task, or as one of its boundary events.
abbrev pub waits_on : String → Token → Bool
waits_on host t = is_waiting t.status && (t.element_id == host || correlates t "hostTaskId" host)

-- The tokens that an interruption cancels.
abbrev pub is_interrupted : String → String → Token → Bool
is_interrupted host firing t =
    not (t.id == firing)
    && is_waiting t.status
    && (t.element_id == host || correlates t "hostTaskId" host)

not_waiting : (a w b : Bool) → (not a && w && b) ≡ false → (a || not (w && b)) ≡ true
not_waiting true w b e = refl
not_waiting false true true e = cc
not_waiting false true false e = refl
not_waiting false false b e = refl

or_true : (a : Bool) → (a || true) ≡ true
or_true true = refl
or_true false = refl

and_true : (a b : Bool) → a ≡ true → b ≡ true → (a && b) ≡ true
and_true true b e f = f
and_true false b e f = e

module _ (host firing : String) (time : ℕ) where
  abbrev pub is_left : Token → Bool
  is_left t = t.id == firing || not (waits_on host t)

  is_left-cancelled :
      (t : Token) (b : Bool)
      → is_interrupted host firing t ≡ b
      → is_left (if b then cancelled_at time t else t) ≡ true
  is_left-cancelled t true e = or_true (t.id == firing)
  is_left-cancelled t false e =
      not_waiting (t.id == firing) (is_waiting t.status)
        (t.element_id == host || correlates t "hostTaskId" host) e

  all-is_left :
      (ts : List Token) → all is_left (cancelled_where (is_interrupted host firing) time ts) ≡ true
  all-is_left [] = refl
  all-is_left (t ∷ ts) =
      and_true _ _ (is_left-cancelled t (is_interrupted host firing t) refl) (all-is_left ts)

-- Interrupting a task, in a context where each token stands under its own id once, returns. Afterwards
-- no token but the firing one waits at the task or as one of its boundary events, each token that did
-- is cancelled, every other token is as it was and where it was, and the instance and the queue are
-- untouched.
pub interruption :
    (host firing : String) (c : ExecutionContext)
    → Keyed (λ t. t.id) c.token_map
    → Distinct (keys c.token_map)
    → (d : ExecutionContext) × (cancel_host_task_and_boundaries host firing c ≡ ok (tt, d))
      × (values d.token_map
          ≡ cancelled_where
              (is_interrupted host firing)
              (c.options.now c.ticks)
              (values c.token_map))
      × (all (λ t. t.id == firing || not (waits_on host t)) (values d.token_map) ≡ true)
      × (d.process_instance ≡ c.process_instance)
      × (d.pending_queue ≡ c.pending_queue)
unfolding cancel_host_task_and_boundaries
interruption host firing c k d =
    let replaced =
      values-replaced (λ t. t.id) (cancelled_at (c.options.now c.ticks))
        (is_interrupted host firing) c.token_map (λ t. refl) k d in
    (
      _,
      cancel_where-eq (is_interrupted host firing) c,
      replaced,
      ap (all (λ t. t.id == firing || not (waits_on host t))) replaced
          ∙ all-is_left host firing (c.options.now c.ticks) (values c.token_map),
      refl,
      refl,
    )
