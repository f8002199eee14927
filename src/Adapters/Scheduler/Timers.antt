-- ===== src/Adapters/Scheduler/Timers.antt =====
-- The timers of the scheduler (Adapters.Scheduler), each under its own id, and its callbacks.
use nexus_workflow.Common.{
  ℕ, String, true, ◌≡◌, refl, sym, subst, Option, none, some, List, [], ◌∷◌, arith, ◌⊎◌, inl, inr,
  ⊎_elim, leb, filter, case_option,
}
use nexus_workflow.Common.Sets.{Distinct}
use nexus_workflow.Common.Dict.{lookup, insert, erase, values, keys}
use nexus_workflow.Common.Dict.Keys.{
  Keyed, Keyed-insert, Keyed-erase, Distinct-insert, Distinct-erase,
}
use nexus_workflow.Store.State.{ScheduledTimer}
use nexus_workflow.Adapters.Scheduler.{
  Timeout, InMemoryScheduler, clear_timeout, after, arm_timeout, schedule, cancel, on_timer_fired,
  arm_all, start, stop, timeout_fired, fire_all, tick_due, earliest, pop_next_due, reset, Action,
  schedules, cancels, registers, starts, stops, times_out, ticks, pops, resets, act,
}

abbrev pub timer_id : ScheduledTimer → String
timer_id t = t.id

-- Every timer stands once, under its own id.
pub record IsValid (s : InMemoryScheduler) : Type 0 where
  pub keyed : Keyed timer_id s.timers
  pub distinct : Distinct (keys s.timers)

pub arm_all-timers :
    (now : ℕ) (ts : List ScheduledTimer) (s : InMemoryScheduler)
    → (arm_all now ts s).timers ≡ s.timers
unfolding arm_timeout
arm_all-timers now [] s = refl
arm_all-timers now (t ∷ ts) s = arm_all-timers now ts (arm_timeout now t s)

pub schedule-timers :
    (now : ℕ) (t : ScheduledTimer) (s : InMemoryScheduler)
    → (schedule now t s).timers ≡ insert t.id t s.timers
unfolding schedule arm_timeout
schedule-timers now t s = ground arith

pub cancel-timers : (id : String) (s : InMemoryScheduler) → (cancel id s).timers ≡ erase id s.timers
unfolding cancel
cancel-timers id s = by_handle (lookup id s.timeout_handles)
  where
    by_handle :
        (o : Option ℕ)
        → (case_option o
            (record s { timers = erase id s.timers })
            λ handle. record s {
              timers = erase id s.timers;
              pending = clear_timeout handle s.pending;
              timeout_handles = erase id s.timeout_handles;
            }).timers
          ≡ erase id s.timers
    by_handle none = refl
    by_handle (some handle) = refl

pub schedule-callbacks :
    (now : ℕ) (u : ScheduledTimer) (s : InMemoryScheduler)
    → (schedule now u s).callbacks ≡ s.callbacks
unfolding schedule arm_timeout
schedule-callbacks now u s = ground arith

pub cancel-callbacks : (id : String) (s : InMemoryScheduler) → (cancel id s).callbacks ≡ s.callbacks
unfolding cancel
cancel-callbacks id s = by_handle (lookup id s.timeout_handles)
  where
    by_handle :
        (o : Option ℕ)
        → (case_option o
            (record s { timers = erase id s.timers })
            λ handle. record s {
              timers = erase id s.timers;
              pending = clear_timeout handle s.pending;
              timeout_handles = erase id s.timeout_handles;
            }).callbacks
          ≡ s.callbacks
    by_handle none = refl
    by_handle (some handle) = refl

pub arm_all-callbacks :
    (now : ℕ) (us : List ScheduledTimer) (s : InMemoryScheduler)
    → (arm_all now us s).callbacks ≡ s.callbacks
unfolding arm_timeout
arm_all-callbacks now [] s = refl
arm_all-callbacks now (u ∷ us) s = arm_all-callbacks now us (arm_timeout now u s)

pub IsValid-same : (s t : InMemoryScheduler) → t.timers ≡ s.timers → IsValid s → IsValid t
IsValid-same s t e h = record {
  keyed = subst (Keyed timer_id) (sym e) h.keyed;
  distinct = subst (λ m. Distinct (keys m)) (sym e) h.distinct;
}

pub IsValid-erase :
    (s t : InMemoryScheduler) (k : String) → t.timers ≡ erase k s.timers → IsValid s → IsValid t
IsValid-erase s t k e h = record {
  keyed = subst (Keyed timer_id) (sym e) (Keyed-erase timer_id k s.timers h.keyed);
  distinct = subst (λ m. Distinct (keys m)) (sym e) (Distinct-erase k s.timers h.distinct);
}

pub IsValid-insert :
    (s t : InMemoryScheduler) (x : ScheduledTimer)
    → t.timers ≡ insert x.id x s.timers
    → IsValid s
    → IsValid t
IsValid-insert s t x e h = record {
  keyed = subst (Keyed timer_id) (sym e) (Keyed-insert timer_id x.id x s.timers refl h.keyed);
  distinct = subst (λ m. Distinct (keys m)) (sym e) (Distinct-insert x.id x s.timers h.distinct);
}

fire_all-IsValid :
    (due : List ScheduledTimer) (s : InMemoryScheduler) → IsValid s → IsValid (fire_all due s).0
fire_all-IsValid [] s h = h
fire_all-IsValid (t ∷ due) s h =
    fire_all-IsValid due (record s { timers = erase t.id s.timers }) (IsValid-erase s _ t.id refl h)

pub timeout_fired-timers :
    (x : Timeout) (s : InMemoryScheduler)
    → ((timeout_fired x s).0.timers ≡ s.timers)
      ⊎ ((timeout_fired x s).0.timers ≡ erase x.timer.id s.timers)
unfolding timeout_fired
timeout_fired-timers x s = ground arith

pub pop_next_due-timers :
    (now : ℕ) (s : InMemoryScheduler)
    → ((pop_next_due now s).0.timers ≡ s.timers)
      ⊎ ((k : String) × ((pop_next_due now s).0.timers ≡ erase k s.timers))
unfolding pop_next_due
pop_next_due-timers now s = by_next (earliest (filter (λ t. leb t.fire_at now) (values s.timers)))
  where
    by_next :
        (o : Option ScheduledTimer)
        → ((case_option o s (λ t. record s { timers = erase t.id s.timers })).timers ≡ s.timers)
          ⊎ ((k : String) × ((case_option o s
                  (λ t. record s { timers = erase t.id s.timers })).timers
                ≡ erase k s.timers))
    by_next none = inl refl
    by_next (some t) = inr (t.id, refl)

pub act-IsValid : (a : Action) (s : InMemoryScheduler) → IsValid s → IsValid (act a s).0
unfolding act on_timer_fired start stop tick_due reset
act-IsValid (schedules now t) s h = IsValid-insert s _ t (schedule-timers now t s) h
act-IsValid (cancels k) s h = IsValid-erase s _ k (cancel-timers k s) h
act-IsValid (registers cb) s h = IsValid-same s _ refl h
act-IsValid (starts now) s h =
    IsValid-same s _ (arm_all-timers now (values s.timers) (record s { running = true })) h
act-IsValid stops s h = IsValid-same s _ refl h
act-IsValid (times_out x) s h =
    ⊎_elim (λ e. IsValid-same s _ e h) (λ e. IsValid-erase s _ x.timer.id e h)
      (timeout_fired-timers x s)
act-IsValid (ticks now) s h =
    fire_all-IsValid (filter (λ t. leb t.fire_at now) (values s.timers)) s h
act-IsValid (pops now) s h =
    ⊎_elim (λ e. IsValid-same s _ e h) (λ e. IsValid-erase s _ e.0 e.1 h)
      (pop_next_due-timers now s)
act-IsValid resets s h = record { keyed = tt; distinct = tt }

pub after-IsValid :
    (actions : List Action) (s : InMemoryScheduler) → IsValid s → IsValid (after actions s)
after-IsValid [] s h = h
after-IsValid (a ∷ actions) s h = after-IsValid actions (act a s).0 (act-IsValid a s h)
