-- ===== src/Adapters/Scheduler/Due.antt =====
-- The timers that are due at an instant, and the actions that leave a timer alone (Adapters.Scheduler).
use nexus_workflow.Common.{
  ℕ, String, Bool, true, false, Bool-cases, ◌≡◌, refl, ap, ◌∙◌, some, List, [], ◌∷◌, ◌++◌, arith,
  ◌⊎◌, inl, inr, ◌==◌, eq_iff, filter, includes, All, if◌then◌else◌,
}
use nexus_workflow.Common.Sets.{Distinct}
use nexus_workflow.Common.Dict.{Dict, lookup, erase, values, keys}
use nexus_workflow.Common.Dict.Keys.{Keyed}
use nexus_workflow.Store.State.{ScheduledTimer}
use nexus_workflow.Adapters.Scheduler.{
  call_all, Action, schedules, cancels, times_out, pops, resets,
}
use nexus_workflow.Adapters.Scheduler.Timers.{timer_id}

module _ {A : Type 0} where
  abbrev pub Member : A → List A → Type 0
  Member x [] = ⊥
  Member x (y ∷ ys) = (y ≡ x) ⊎ Member x ys

  pub Member-append_left : (x : A) (xs ys : List A) → Member x xs → Member x (xs ++ ys)
  Member-append_left x [] ys m = elim m [ ]
  Member-append_left x (y ∷ xs) ys (inl e) = inl e
  Member-append_left x (y ∷ xs) ys (inr m) = inr (Member-append_left x xs ys m)

  pub Member-append_right : (x : A) (xs ys : List A) → Member x ys → Member x (xs ++ ys)
  Member-append_right x [] ys m = m
  Member-append_right x (y ∷ xs) ys m = inr (Member-append_right x xs ys m)

  pub Member-filter :
      (p : A → Bool) (x : A) (xs : List A) → p x ≡ true → Member x xs → Member x (filter p xs)
  Member-filter p x [] h m = m
  Member-filter p x (y ∷ xs) h (inl e) = rw (ap p e ∙ h) (inl e)
  Member-filter p x (y ∷ xs) h (inr m) = by_test (p y) (Member-filter p x xs h m)
    where
      by_test :
          (b : Bool)
          → Member x (filter p xs)
          → Member x (if b then y ∷ filter p xs else filter p xs)
      by_test true k = inr k
      by_test false k = k

pub Member-call_all :
    (cb : ℕ) (t : ScheduledTimer) (cbs : List ℕ) → Member cb cbs → Member (cb, t) (call_all cbs t)
Member-call_all cb t [] m = m
Member-call_all cb t (c ∷ cbs) (inl e) = inl (ap (λ x. (x, t)) e)
Member-call_all cb t (c ∷ cbs) (inr m) = inr (Member-call_all cb t cbs m)

pub lookup-erase :
    (k j : String) (m : Dict ScheduledTimer) → (k == j) ≡ false → lookup j (erase k m) ≡ lookup j m
lookup-erase k j [] n = refl
lookup-erase k j ((i, t) ∷ m) n =
    ground (arith, lookup-erase k j m n, eq_iff i k, eq_iff i j, eq_iff k j)

pub Member-lookup :
    (k : String) (t : ScheduledTimer) (m : Dict ScheduledTimer)
    → lookup k m ≡ some t
    → Member t (values m)
Member-lookup k t [] e = absurd (cc)
Member-lookup k t ((j, u) ∷ m) e = ground (arith, Member-lookup k t m)

module _ (t : ScheduledTimer) where
  -- A timer of the same id is this timer.
  abbrev pub IsOnly : ScheduledTimer → Type 0
  IsOnly u = (u.id == t.id) ≡ true → u ≡ t

  -- The action does not take the timer away: it does not schedule another of its id, cancel it, pop
  -- timers or reset, and a timeout that it lets fire for that id is one of this timer.
  abbrev pub LeavesAlone : Action → Type 0
  LeavesAlone (schedules now u) = (u.id == t.id) ≡ false
  LeavesAlone (cancels id) = (id == t.id) ≡ false
  LeavesAlone (times_out x) = IsOnly x.timer
  LeavesAlone (pops now) = ⊥
  LeavesAlone resets = ⊥
  LeavesAlone _ = Unit

  IsOnly-absent :
      (m : Dict ScheduledTimer)
      → Keyed timer_id m
      → includes (keys m) t.id ≡ false
      → All IsOnly (values m)
  IsOnly-absent [] k n = tt
  IsOnly-absent ((j, u) ∷ m) k n =
      let other : (u.id == t.id) ≡ false =
        ground (arith, k.0, n, eq_iff u.id t.id, eq_iff j t.id) in
      (λ e. absurd (cc), IsOnly-absent m k.1 (ground (arith, n)))

  pub IsOnly-values :
      (m : Dict ScheduledTimer)
      → Keyed timer_id m
      → Distinct (keys m)
      → lookup t.id m ≡ some t
      → All IsOnly (values m)
  IsOnly-values [] k d e = tt
  IsOnly-values ((j, u) ∷ m) k d e = elim (Bool-cases (j == t.id)) [
    | inl h ↦
        let here : some u ≡ some t = ground (arith, e, h) in
        let there : includes (keys m) t.id ≡ false = ground (arith, d.0, h, eq_iff j t.id) in
        (λ x. ground (arith, here), IsOnly-absent m k.1 there)
    | inr n ↦
        let other : (u.id == t.id) ≡ false =
          ground (arith, k.0, n, eq_iff u.id t.id, eq_iff j t.id) in
        (λ x. absurd (cc), IsOnly-values m k.1 d.1 (ground (arith, e, n)))
  ]

  pub All-filter :
      (p : ScheduledTimer → Bool) (us : List ScheduledTimer)
      → All IsOnly us
      → All IsOnly (filter p us)
  All-filter p [] o = tt
  All-filter p (u ∷ us) o = by_test (p u) (All-filter p us o.1)
    where
      by_test :
          (b : Bool)
          → All IsOnly (filter p us)
          → All IsOnly (if b then u ∷ filter p us else filter p us)
      by_test true k = (o.0, k)
      by_test false k = k
