-- ===== src/Engine/Weights/Rules.antt =====
-- The rules of `Costs`, one for each way to build an action.
use nexus_workflow.Common.{
  ℕ, ◌+◌, ◌≤◌, String, Bool, true, false, ◌≡◌, ◌≢◌, refl, ap, sym, subst, ◌∙◌, all, Option, none,
  some, List, [], ◌∷◌, arith, ◌==◌, truthy, if◌then◌else◌, case_option,
}
use nexus_workflow.Common.Dict.{lookup, insert, lookup-insert}
use nexus_workflow.Model.Types.{Variables, VariableScope}
use nexus_workflow.Model.Errors.{Outcome, ok, threw, loops, EngineError}
use nexus_workflow.Engine.State.{ExecutionContext}
use nexus_workflow.Engine.Monad.{
  Exec, pure, throw, lift, gets, modify, continue, require, for_each, collect, ◌>>=◌,
}
use nexus_workflow.Engine.Weights.{is_outer, Ready, total, Spends, Costs}

-- Whatever the action returns satisfies `P`.
pub record Gives {A : Type 0} (P : A → Type 0) (m : Exec A) : Type 0 where
  pub given : (c d : ExecutionContext) (a : A) → m c ≡ ok (a, d) → P a

-- A scope without a parent is added, or replaces another.
pub Ready-insert :
    (c : ExecutionContext) (id : String) (s : VariableScope)
    → truthy s.parent_scope_id ≡ false
    → Ready c
    → Ready (record c { scope_map = insert id s c.scope_map })
Ready-insert c id s h r = record {
  answers = r.answers;
  rooted = λ key x e.
      by_key (id == key) x (sym (lookup-insert id key s c.scope_map) ∙ e) (r.rooted key x);
  outer = r.outer;
}
  where
    by_key :
        {o : Option VariableScope} (b : Bool) (x : VariableScope)
        → (if b then some s else o) ≡ some x
        → (o ≡ some x → truthy x.parent_scope_id ≡ false)
        → truthy x.parent_scope_id ≡ false
    by_key true x e k = subst (λ y. truthy y.parent_scope_id ≡ false) (some_inj e) h
      where
        some_inj : {y : VariableScope} → some y ≡ some x → y ≡ x
        some_inj e = cc
    by_key false x e k = k e

module _ (weight : String → ℕ) where
  -- A context with the same queue, scopes and options.
  pub keeps :
      {A : Type 0} (k : ℕ) (c d : ExecutionContext) (a : A)
      → d.options ≡ c.options
      → d.scope_map ≡ c.scope_map
      → d.pending_queue ≡ c.pending_queue
      → Ready c
      → Spends weight k c (ok (a, d))
  keeps k c d a e f g r = (
    record {
      answers =
          subst (λ o. (x : String) (v : Variables) → o.evaluate x v ≢ loops) (sym e) r.answers;
      rooted = λ id s h. r.rooted id s (sym (ap (lookup id) f) ∙ h);
      outer = ap (all is_outer) g ∙ r.outer;
    },
    rw (ap (total weight) g) (omega arith),
  )

  module _ {A : Type 0} where
    pub Costs-pure : (k : ℕ) (a : A) → Costs weight k (pure a)
    unfolding pure
    Costs-pure k a = record { at = λ c r. keeps k c c a refl refl refl r }

    pub Costs-throw : (k : ℕ) (e : EngineError) → Costs weight {A = A} k (throw e)
    unfolding throw
    Costs-throw k e = record { at = λ c r. tt }

    pub Costs-gets : (k : ℕ) (f : ExecutionContext → A) → Costs weight k (gets f)
    unfolding gets
    Costs-gets k f = record { at = λ c r. keeps k c c (f c) refl refl refl r }

    pub Costs-require : (k : ℕ) (o : Option A) (e : EngineError) → Costs weight k (require o e)
    unfolding require
    Costs-require k none e = Costs-throw k e
    Costs-require k (some a) e = Costs-pure k a

    pub Costs-if :
        (k : ℕ) (b : Bool) (m n : Exec A)
        → Costs weight k m
        → Costs weight k n
        → Costs weight k (if b then m else n)
    Costs-if k true m n p q = p
    Costs-if k false m n p q = q

    pub Costs-option :
        {B : Type 0} (k : ℕ) (o : Option B) (m : Exec A) (f : B → Exec A)
        → Costs weight k m
        → ((b : B) → Costs weight k (f b))
        → Costs weight k (case_option o m f)
    Costs-option k none m f p q = p
    Costs-option k (some b) m f p q = q b

  Spends-more :
      {A : Type 0} (k n : ℕ) (c d : ExecutionContext) (r : Outcome (A × ExecutionContext))
      → total weight d.pending_queue + k ≤ total weight c.pending_queue + n
      → Spends weight k d r
      → Spends weight n c r
  Spends-more k n c d (ok (a, e)) h (p, q) = (p, omega (arith, h, q))
  Spends-more k n c d (threw e) h s = tt
  Spends-more k n c d loops h s = s

  pub Costs-more : {A : Type 0} (k n : ℕ) (m : Exec A) → k ≤ n → Costs weight k m → Costs weight n m
  Costs-more k n m h p = record {
    at = λ c r. Spends-more k n c c (m c) (omega (arith, h)) (p.at c r);
  }

  module _ {A B : Type 0} where
    continue-Spends :
        (k n : ℕ) (c : ExecutionContext) (r : Outcome (A × ExecutionContext)) (f : A → Exec B)
        → Spends weight k c r
        → ((a : A) → Costs weight n (f a))
        → Spends weight (k + n) c (continue r f)
    continue-Spends k n c (ok (a, d)) f (p, q) s =
        Spends-more n (k + n) c d (f a d) (omega (arith, q)) ((s a).at d p)
    continue-Spends k n c (threw e) f p s = tt
    continue-Spends k n c loops f p s = p

    pub Costs-both :
        (k n : ℕ) (m : Exec A) (f : A → Exec B)
        → Costs weight k m
        → ((a : A) → Costs weight n (f a))
        → Costs weight (k + n) (m >>= f)
    unfolding ◌>>=◌
    Costs-both k n m f p q = record { at = λ c r. continue-Spends k n c (m c) f (p.at c r) q }

    -- The first action queues nothing.
    pub Costs-bind :
        (k : ℕ) (m : Exec A) (f : A → Exec B)
        → Costs weight 0 m
        → ((a : A) → Costs weight k (f a))
        → Costs weight k (m >>= f)
    Costs-bind k m f p q = Costs-more (0 + k) k (m >>= f) (omega arith) (Costs-both 0 k m f p q)

    continue-given :
        (k : ℕ) (P : A → Type 0) (c : ExecutionContext) (r : Outcome (A × ExecutionContext))
        (f : A → Exec B)
        → Spends weight 0 c r
        → ((a : A) (d : ExecutionContext) → r ≡ ok (a, d) → P a)
        → ((a : A) → P a → Costs weight k (f a))
        → Spends weight k c (continue r f)
    continue-given k P c (ok (a, d)) f (p, q) g s =
        Spends-more k k c d (f a d) (omega (arith, q)) ((s a (g a d refl)).at d p)
    continue-given k P c (threw e) f p g s = tt
    continue-given k P c loops f p g s = p

    pub Costs-given_bind :
        (k : ℕ) (P : A → Type 0) (m : Exec A) (f : A → Exec B)
        → Costs weight 0 m
        → Gives P m
        → ((a : A) → P a → Costs weight k (f a))
        → Costs weight k (m >>= f)
    unfolding ◌>>=◌
    Costs-given_bind k P m f p g s = record {
      at = λ c r. continue-given k P c (m c) f (p.at c r) (λ a d e. g.given c d a e) s;
    }

    -- The others queue nothing.
    pub Costs-first :
        (k : ℕ) (m : Exec A) (f : A → Exec B)
        → Costs weight k m
        → ((a : A) → Costs weight 0 (f a))
        → Costs weight k (m >>= f)
    Costs-first k m f p q = Costs-more (k + 0) k (m >>= f) (omega arith) (Costs-both k 0 m f p q)

    pub Costs-gets_bind :
        (k : ℕ) (g : ExecutionContext → A) (f : A → Exec B)
        → ((c : ExecutionContext) → Ready c → Spends weight k c (f (g c) c))
        → Costs weight k (gets g >>= f)
    unfolding ◌>>=◌
    Costs-gets_bind k g f p = record { at = p }

    pub Costs-require_bind :
        (k : ℕ) (o : Option A) (e : EngineError) (f : A → Exec B)
        → ((a : A) → o ≡ some a → Costs weight k (f a))
        → Costs weight k (require o e >>= f)
    unfolding require ◌>>=◌
    Costs-require_bind k none e f p = record { at = λ c r. tt }
    Costs-require_bind k (some a) e f p = record { at = (p a refl).at }

    pub Costs-lift_bind :
        (k : ℕ) (o : Outcome A) (f : A → Exec B)
        → o ≢ loops
        → ((a : A) → o ≡ ok a → Costs weight k (f a))
        → Costs weight k (lift o >>= f)
    unfolding lift ◌>>=◌
    Costs-lift_bind k (ok a) f h p = record { at = (p a refl).at }
    Costs-lift_bind k (threw e) f h p = record { at = λ c r. tt }
    Costs-lift_bind k loops f h p = absurd (h refl)

  -- The cost of a loop whose body has one.
  abbrev pub sum_of : {A : Type 0} → (A → ℕ) → List A → ℕ
  sum_of g [] = 0
  sum_of g (x ∷ xs) = g x + sum_of g xs

  pub Costs-for_each :
      {A : Type 0} (g : A → ℕ) (xs : List A) (body : A → Exec (Unit {0}))
      → ((x : A) → Costs weight (g x) (body x))
      → Costs weight (sum_of g xs) (for_each xs body)
  unfolding for_each
  Costs-for_each g [] body p = Costs-pure 0 tt
  Costs-for_each g (x ∷ xs) body p =
      Costs-both (g x) (sum_of g xs) (body x) (λ _. for_each xs body) (p x)
        (λ _. Costs-for_each g xs body p)

  pub Costs-for_each_free :
      {A : Type 0} (k : ℕ) (xs : List A) (body : A → Exec (Unit {0}))
      → ((x : A) → Costs weight 0 (body x))
      → Costs weight k (for_each xs body)
  unfolding for_each
  Costs-for_each_free k [] body p = Costs-pure k tt
  Costs-for_each_free k (x ∷ xs) body p =
      Costs-bind k (body x) (λ _. for_each xs body) (p x) (λ _. Costs-for_each_free k xs body p)

  pub Costs-collect :
      {A B : Type 0} (g : A → ℕ) (xs : List A) (body : A → Exec (List B))
      → ((x : A) → Costs weight (g x) (body x))
      → Costs weight (sum_of g xs) (collect xs body)
  unfolding collect
  Costs-collect g [] body p = Costs-pure 0 []
  Costs-collect g (x ∷ xs) body p = Costs-both (g x) (sum_of g xs) (body x) _ (p x) (λ ys.
      Costs-first (sum_of g xs) (collect xs body) _ (Costs-collect g xs body p)
        (λ rest. Costs-pure 0 _))

  pub Costs-modify :
      (k : ℕ) (f : ExecutionContext → ExecutionContext)
      → ((c : ExecutionContext) → (f c).options ≡ c.options)
      → ((c : ExecutionContext) → (f c).scope_map ≡ c.scope_map)
      → ((c : ExecutionContext) → (f c).pending_queue ≡ c.pending_queue)
      → Costs weight k (modify f)
  unfolding modify
  Costs-modify k f o s q = record { at = λ c r. keeps k c (f c) tt (o c) (s c) (q c) r }

pub ruleset costs_rules = (
  Costs-pure, Costs-throw, Costs-gets, Costs-require, Costs-if, Costs-option, Costs-bind,
  Costs-for_each_free,
)
