-- ===== src/Engine/Changes/Rules.antt =====
-- The rules of `Steps`, one for each way to build an action.
use nexus_workflow.Common.{
  Bool, true, false, ◌≡◌, refl, Option, none, some, List, [], ◌∷◌, if◌then◌else◌, case_option,
}
use nexus_workflow.Model.Types.{ProcessInstance}
use nexus_workflow.Model.Errors.{Outcome, ok, threw, loops, EngineError}
use nexus_workflow.Engine.State.{ExecutionContext}
use nexus_workflow.Engine.Monad.{
  Exec, pure, throw, stuck, lift, gets, continue, require, for_each, collect, ◌>>=◌, ◌>>◌,
}
use nexus_workflow.Engine.Context.{require_instance, set_instance}
use nexus_workflow.Engine.Changes.{
  changed_instance, SameIdentity, Changes, here, Changes-trans, one, Ends, Steps,
}

module _ {A : Type 0} where
  pub Steps-pure : (a : A) → Steps (pure a)
  unfolding pure
  Steps-pure a = record { at = λ c. here }

  pub Steps-throw : (e : EngineError) → Steps {A = A} (throw e)
  unfolding throw
  Steps-throw e = record { at = λ c. tt }

  pub Steps-stuck : Steps {A = A} stuck
  unfolding stuck
  Steps-stuck = record { at = λ c. tt }

  pub Steps-lift : (r : Outcome A) → Steps (lift r)
  unfolding lift
  Steps-lift (ok a) = record { at = λ c. here }
  Steps-lift (threw e) = record { at = λ c. tt }
  Steps-lift loops = record { at = λ c. tt }

  pub Steps-gets : (f : ExecutionContext → A) → Steps (gets f)
  unfolding gets
  Steps-gets f = record { at = λ c. here }

  pub Steps-require : (o : Option A) (e : EngineError) → Steps (require o e)
  unfolding require
  Steps-require none e = Steps-throw e
  Steps-require (some a) e = Steps-pure a

  pub Steps-if : (b : Bool) (m n : Exec A) → Steps m → Steps n → Steps (if b then m else n)
  Steps-if true m n sm sn = sm
  Steps-if false m n sm sn = sn

  pub Steps-option :
      {B : Type 0} (o : Option B) (m : Exec A) (f : B → Exec A)
      → Steps m
      → ((b : B) → Steps (f b))
      → Steps (case_option o m f)
  Steps-option none m f sm sf = sm
  Steps-option (some b) m f sm sf = sf b

pub Ends-trans :
    {B : Type 0} {c d : ExecutionContext} (r : Outcome (B × ExecutionContext))
    → Changes c d
    → Ends d r
    → Ends c r
Ends-trans (ok (b, e)) p q = Changes-trans p q
Ends-trans (threw e) p q = tt
Ends-trans loops p q = tt

module _ {A B : Type 0} where
  continue-Ends :
      (c : ExecutionContext) (r : Outcome (A × ExecutionContext)) (f : A → Exec B)
      → Ends c r
      → ((a : A) → Steps (f a))
      → Ends c (continue r f)
  continue-Ends c (ok (a, d)) f p sf = Ends-trans (f a d) p ((sf a).at d)
  continue-Ends c (threw e) f p sf = tt
  continue-Ends c loops f p sf = tt

  pub Steps-bind :
      (m : Exec A) (f : A → Exec B) → Steps m → ((a : A) → Steps (f a)) → Steps (m >>= f)
  unfolding ◌>>=◌
  Steps-bind m f sm sf = record { at = λ c. continue-Ends c (m c) f (sm.at c) sf }

pub Steps-for_each :
    {A : Type 0} (xs : List A) (body : A → Exec (Unit {0}))
    → ((x : A) → Steps (body x))
    → Steps (for_each xs body)
unfolding for_each
Steps-for_each [] body s = Steps-pure tt
Steps-for_each (x ∷ xs) body s =
    Steps-bind (body x) (λ _. for_each xs body) (s x) (λ _. Steps-for_each xs body s)

pub Steps-collect :
    {A B : Type 0} (xs : List A) (body : A → Exec (List B))
    → ((x : A) → Steps (body x))
    → Steps (collect xs body)
unfolding collect
Steps-collect [] body s = Steps-pure []
Steps-collect (x ∷ xs) body s =
    Steps-bind (body x) _ (s x)
      (λ ys. Steps-bind (collect xs body) _ (Steps-collect xs body s) (λ rest. Steps-pure _))

-- A change of the instance that keeps its identity, and what follows it.
pub Steps-set_instance :
    {A : Type 0} (b : ProcessInstance → Bool) (f : ProcessInstance → ProcessInstance)
    (m n : ProcessInstance → Exec A)
    → ((i : ProcessInstance) → SameIdentity i (f i))
    → ((i : ProcessInstance) → Steps (m i))
    → ((i : ProcessInstance) → Steps (n i))
    → Steps (require_instance >>= λ i. if b i then (set_instance (f i) >> m i) else n i)
unfolding require_instance set_instance require ◌>>=◌
Steps-set_instance {A} b f m n same sm sn = record {
  at = λ c. with_instance c c.process_instance refl;
}
  where
    run : ProcessInstance → Exec A
    run i = if b i then (set_instance (f i) >> m i) else n i

    chosen :
        (c : ExecutionContext) (i : ProcessInstance) (t : Bool)
        → c.process_instance ≡ some i
        → Ends c ((if t then (set_instance (f i) >> m i) else n i) c)
    chosen c i true e =
        continue-Ends c (ok (tt, record c { process_instance = some (f i) })) (λ _. m i)
          (one (changed_instance c i (f i) e (same i))) (λ _. sm i)
    chosen c i false e = (sn i).at c

    with_instance :
        (c : ExecutionContext) (o : Option ProcessInstance)
        → c.process_instance ≡ o
        → Ends c ((require_instance >>= run) c)
    with_instance c none e = simp e tt
    with_instance c (some i) e = simp e (chosen c i (b i) e)

pub ruleset steps_rules = (
  Steps-pure, Steps-throw, Steps-stuck, Steps-lift, Steps-gets, Steps-require, Steps-if,
  Steps-option, Steps-bind, Steps-for_each, Steps-collect,
)
