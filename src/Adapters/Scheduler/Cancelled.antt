-- ===== src/Adapters/Scheduler/Cancelled.antt =====
-- A timer that was cancelled does not fire (Adapters.Scheduler).
use nexus_workflow.Common.{
  ℕ, String, Bool, true, false, not, ◌≡◌, refl, ap, sym, ◌∙◌, List, [], ◌∷◌, arith, ⊎_elim, ◌==◌,
  eq_iff, leb, all, all-append, includes, includes_congr, all-filter, if◌then◌else◌, is_some,
}
use nexus_workflow.Common.Sets.{Distinct}
use nexus_workflow.Common.Dict.{Dict, lookup, insert, erase, values, keys, includes-keys}
use nexus_workflow.Common.Dict.Keys.{Keyed, includes-keys-insert}
use nexus_workflow.Store.State.{ScheduledTimer}
use nexus_workflow.Adapters.Scheduler.{
  Timeout, InMemoryScheduler, Call, new_scheduler, clear_timeout, after, cancel, on_timer_fired,
  start, stop, call_all, timeout_fired, fire_all, tick_due, reset, Action, schedules, cancels,
  registers, starts, stops, times_out, ticks, pops, resets, act, calls_of,
}
use nexus_workflow.Adapters.Scheduler.Timers.{
  timer_id, IsValid, arm_all-timers, schedule-timers, cancel-timers, IsValid-same, IsValid-erase,
  IsValid-insert, pop_next_due-timers, after-IsValid,
}

-- The action does not schedule this timer.
abbrev pub leaves_out : String → Action → Bool
leaves_out id (schedules now timer) = not (timer.id == id)
leaves_out id _ = true

-- The call is for another timer.
abbrev pub is_other : String → Call → Bool
is_other id call = not (call.1.id == id)

erase-gone :
    (k : String) (m : Dict ScheduledTimer)
    → Distinct (keys m)
    → includes (keys (erase k m)) k ≡ false
erase-gone k [] d = refl
erase-gone k ((j, t) ∷ m) d = ground (arith, erase-gone k m d.1, d.0, eq_iff j k)

values-others :
    (id : String) (m : Dict ScheduledTimer)
    → Keyed timer_id m
    → includes (keys m) id ≡ false
    → all (λ t. not (t.id == id)) (values m) ≡ true
values-others id [] h g = refl
values-others id ((j, t) ∷ m) h g =
    ground (arith, values-others id m h.1, h.0, eq_iff t.id id, eq_iff j id)

includes-erase :
    (id k : String) (m : Dict ScheduledTimer)
    → includes (keys m) id ≡ false
    → includes (keys (erase k m)) id ≡ false
includes-erase id k [] h = refl
includes-erase id k ((j, t) ∷ m) h = ground (arith, includes-erase id k m)

module _ (id : String) where
  -- Valid, and the timer is not there.
  record Gone (s : InMemoryScheduler) : Type 0 where
    valid : IsValid s
    gone : includes (keys s.timers) id ≡ false

  Gone-same : (s t : InMemoryScheduler) → t.timers ≡ s.timers → Gone s → Gone t
  Gone-same s t e h = record {
    valid = IsValid-same s t e h.valid;
    gone = ap (λ m. includes (keys m) id) e ∙ h.gone;
  }

  Gone-erase :
      (s t : InMemoryScheduler) (k : String) → t.timers ≡ erase k s.timers → Gone s → Gone t
  Gone-erase s t k e h = record {
    valid = IsValid-erase s t k e h.valid;
    gone = ap (λ m. includes (keys m) id) e ∙ includes-erase id k s.timers h.gone;
  }

  Gone-insert :
      (s t : InMemoryScheduler) (x : ScheduledTimer)
      → t.timers ≡ insert x.id x s.timers
      → not (x.id == id) ≡ true
      → Gone s
      → Gone t
  Gone-insert s t x e n h = record {
    valid = IsValid-insert s t x e h.valid;
    gone =
        ap (λ m. includes (keys m) id) e
        ∙ includes-keys-insert x.id id x s.timers
        ∙ ground (arith, h.gone, n);
  }

  all-call_all :
      (callbacks : List ℕ) (t : ScheduledTimer)
      → (t.id == id) ≡ false
      → all (is_other id) (call_all callbacks t) ≡ true
  all-call_all [] t h = refl
  all-call_all (cb ∷ callbacks) t h = ground (arith, all-call_all callbacks t h)

  -- What an action leaves and calls.
  abbrev Leaves : InMemoryScheduler × List Call → Type 0
  Leaves (t, calls) = Gone t × (all (is_other id) calls ≡ true)

  fire_all-Leaves :
      (due : List ScheduledTimer) (s : InMemoryScheduler)
      → Gone s
      → all (λ t. not (t.id == id)) due ≡ true
      → Leaves (fire_all due s)
  fire_all-Leaves [] s h d = (h, refl)
  fire_all-Leaves (t ∷ due) s h d =
      let gone = record s { timers = erase t.id s.timers } in
      let (rest, calls) = fire_all-Leaves due gone (Gone-erase s gone t.id refl h) (ground arith) in
      (
        rest,
        all-append (is_other id) (call_all s.callbacks t) (fire_all due gone).1
            ∙ ground (arith, all-call_all s.callbacks t, calls),
      )

  timeout_fired-Leaves : (x : Timeout) (s : InMemoryScheduler) → Gone s → Leaves (timeout_fired x s)
  unfolding timeout_fired
  timeout_fired-Leaves x s h =
      by_found (is_some (lookup x.timer.id s.timers)) (sym (includes-keys x.timer.id s.timers))
    where
      by_found :
          (b : Bool)
          → b ≡ includes (keys s.timers) x.timer.id
          → Leaves (
              if b
              then (
                record s {
                  pending = clear_timeout x.handle s.pending;
                  timers = erase x.timer.id s.timers;
                  timeout_handles = erase x.timer.id s.timeout_handles;
                },
                call_all s.callbacks x.timer,
              )
              else (record s { pending = clear_timeout x.handle s.pending }, []))
      by_found false e = (Gone-same s _ refl h, refl)
      by_found true e = (
        Gone-erase s _ x.timer.id refl h,
        all-call_all s.callbacks x.timer (
            ground (
              arith,
              e,
              h.gone,
              eq_iff x.timer.id id,
              includes_congr (keys s.timers) x.timer.id id,
            )),
      )

  act-Leaves :
      (a : Action) (s : InMemoryScheduler) → leaves_out id a ≡ true → Gone s → Leaves (act a s)
  unfolding act on_timer_fired start stop tick_due reset
  act-Leaves (schedules now t) s n h = (Gone-insert s _ t (schedule-timers now t s) n h, refl)
  act-Leaves (cancels k) s n h = (Gone-erase s _ k (cancel-timers k s) h, refl)
  act-Leaves (registers cb) s n h = (Gone-same s _ refl h, refl)
  act-Leaves (starts now) s n h =
      (Gone-same s _ (arm_all-timers now (values s.timers) (record s { running = true })) h, refl)
  act-Leaves stops s n h = (Gone-same s _ refl h, refl)
  act-Leaves (times_out x) s n h = timeout_fired-Leaves x s h
  act-Leaves (ticks now) s n h = fire_all-Leaves _ s h (
      all-filter _ (λ t. leb t.fire_at now) (values s.timers)
        (values-others id s.timers h.valid.keyed h.gone))
  act-Leaves (pops now) s n h = (
    ⊎_elim (λ e. Gone-same s _ e h) (λ e. Gone-erase s _ e.0 e.1 h) (pop_next_due-timers now s),
    refl,
  )
  act-Leaves resets s n h =
      (record { valid = record { keyed = tt; distinct = tt }; gone = refl }, refl)

  calls_of-others :
      (actions : List Action) (s : InMemoryScheduler)
      → all (leaves_out id) actions ≡ true
      → Gone s
      → all (is_other id) (calls_of actions s) ≡ true
  calls_of-others [] s n h = refl
  calls_of-others (a ∷ actions) s n h =
      let (gone, calls) = act-Leaves a s (ground arith) h in
      all-append (is_other id) (act a s).1 (calls_of actions (act a s).0)
      ∙ ground (arith, calls, calls_of-others actions (act a s).0)

pub cancelled-never_fires :
    (before later : List Action) (id : String)
    → all (leaves_out id) later ≡ true
    → all (is_other id) (calls_of later (cancel id (after before new_scheduler))) ≡ true
cancelled-never_fires before later id h =
    let s = after before new_scheduler in
    let valid = after-IsValid before new_scheduler (record { keyed = tt; distinct = tt }) in
    calls_of-others id later (cancel id s) h (record {
      valid = IsValid-erase s _ id (cancel-timers id s) valid;
      gone =
          ap (λ m. includes (keys m) id) (cancel-timers id s)
          ∙ erase-gone id s.timers valid.distinct;
    })
