-- ===== src/Engine/Monad.antt =====
-- The monad of code that works on an `ExecutionContext` and may throw, and the loops over a list.
-- A `throw` ends the whole command, and the context with it.
use nexus_workflow.Common.{List, [], ◌∷◌, ◌++◌, Option, none, some}
use nexus_workflow.Model.Errors.{Outcome, ok, threw, loops, EngineError}
use nexus_workflow.Engine.State.{ExecutionContext}

abbrev pub map_outcome {ℓ κ} : {A : Type ℓ} {B : Type κ} → (A → B) → Outcome A → Outcome B
map_outcome f (ok a) = ok (f a)
map_outcome f (threw e) = threw e
map_outcome f loops = loops

abbrev pub Exec : Type 0 → Type 0
Exec A = ExecutionContext → Outcome (A × ExecutionContext)

module _ {A : Type 0} where
  unfoldable pub pure : A → Exec A
  pure a ctx = ok (a, ctx)

  unfoldable pub throw : EngineError → Exec A
  throw e ctx = threw e

  unfoldable pub stuck : Exec A
  stuck ctx = loops

  -- A call of code that works on no context and may throw.
  unfoldable pub lift : Outcome A → Exec A
  lift (ok a) ctx = ok (a, ctx)
  lift (threw e) ctx = threw e
  lift loops ctx = loops

  unfoldable pub gets : (ExecutionContext → A) → Exec A
  gets f ctx = ok (f ctx, ctx)

unfoldable pub modify : (ExecutionContext → ExecutionContext) → Exec (Unit {0})
modify f ctx = ok (tt, f ctx)

module _ {A B : Type 0} where
  abbrev pub continue :
      Outcome (A × ExecutionContext) → (A → Exec B) → Outcome (B × ExecutionContext)
  continue (ok (a, ctx)) f = f a ctx
  continue (threw e) f = threw e
  continue loops f = loops

  infixl 10 ◌>>=◌ ◌>>◌
  -- Opening this opens the operations above.
  unfoldable pub ◌>>=◌ : Exec A → (A → Exec B) → Exec B
  unfolding pure throw stuck lift gets modify
  ◌>>=◌ m f ctx = continue (m ctx) f

  abbrev pub ◌>>◌ : Exec A → Exec B → Exec B
  m >> n = m >>= λ _. n

-- `for (const x of xs) body(x)`
unfoldable pub for_each : {A : Type 0} → List A → (A → Exec (Unit {0})) → Exec (Unit {0})
unfolding ◌>>=◌
for_each [] body = pure tt
for_each (x ∷ xs) body = body x >> for_each xs body

-- A loop that collects what its body returns, `push` after `push`.
unfoldable pub collect : {A B : Type 0} → List A → (A → Exec (List B)) → Exec (List B)
unfolding ◌>>=◌
collect [] body = pure []
collect (x ∷ xs) body = do ys ← body x; rest ← collect xs body; pure (ys ++ rest)

-- A value that must be there.
unfoldable pub require : {A : Type 0} → Option A → EngineError → Exec A
unfolding pure throw
require none e = throw e
require (some a) e = pure a
