-- ===== src/Adapters/Scheduler/Fired.antt =====
-- A timer that is scheduled fires (Adapters.Scheduler).
use nexus_workflow.Common.{
  ℕ, String, Bool, true, false, Bool-cases, ◌≡◌, refl, ap, sym, subst, ◌∙◌, some, List, [], ◌∷◌,
  ◌++◌, arith, ◌⊎◌, inl, inr, ⊎_elim, ◌==◌, eq_iff, leb, filter, All, if◌then◌else◌, is_some,
}
use nexus_workflow.Common.Dict.{lookup, erase, values, lookup-insert}
use nexus_workflow.Store.State.{ScheduledTimer}
use nexus_workflow.Adapters.Scheduler.{
  Timeout, InMemoryScheduler, Call, new_scheduler, clear_timeout, after, schedule, on_timer_fired,
  start, stop, call_all, timeout_fired, fire_all, tick_due, Action, schedules, cancels, registers,
  starts, stops, times_out, ticks, pops, resets, act, calls_of,
}
use nexus_workflow.Adapters.Scheduler.Timers.{
  IsValid, arm_all-timers, schedule-callbacks, cancel-callbacks, arm_all-callbacks, schedule-timers,
  cancel-timers, act-IsValid, after-IsValid, IsValid-insert,
}
use nexus_workflow.Adapters.Scheduler.Due.{
  Member, Member-append_left, Member-append_right, Member-filter, Member-call_all, lookup-erase,
  Member-lookup, IsOnly, LeavesAlone, IsOnly-values, All-filter,
}

module _ (t : ScheduledTimer) (cb : ℕ) where
  -- The timer is there, and the callback is registered.
  record Waits (s : InMemoryScheduler) : Type 0 where
    armed : lookup t.id s.timers ≡ some t
    heard : Member cb s.callbacks

  abbrev Fires : InMemoryScheduler × List Call → Type 0
  Fires (s, calls) = Member (cb, t) calls ⊎ Waits s

  Waits-erase :
      (s : InMemoryScheduler) (k : String)
      → (k == t.id) ≡ false
      → Waits s
      → lookup t.id (erase k s.timers) ≡ some t
  Waits-erase s k n w = lookup-erase k t.id s.timers n ∙ w.armed

  fire_all-Fires :
      (due : List ScheduledTimer) (s : InMemoryScheduler)
      → All (IsOnly t) due
      → Waits s
      → Fires (fire_all due s)
  fire_all-Fires [] s o w = inr w
  fire_all-Fires (u ∷ due) s o w = elim (Bool-cases (u.id == t.id)) [
    | inl e ↦
        let now : u ≡ t = o.0 e in
        inl (
          Member-append_left (cb, t) (call_all s.callbacks u) _
            (subst (λ x. Member (cb, t) (call_all s.callbacks x)) (sym now)
              (Member-call_all cb t s.callbacks w.heard)))
    | inr n ↦
        ⊎_elim (λ m. inl (Member-append_right (cb, t) (call_all s.callbacks u) _ m)) (λ v. inr v)
          (fire_all-Fires due (record s { timers = erase u.id s.timers }) o.1
            (record { armed = Waits-erase s u.id n w; heard = w.heard }))
  ]

  -- When the timer is among those that are due, it is called.
  fire_all-calls :
      (due : List ScheduledTimer) (s : InMemoryScheduler)
      → Member cb s.callbacks
      → Member t due
      → Member (cb, t) (fire_all due s).1
  fire_all-calls [] s h m = elim m [ ]
  fire_all-calls (u ∷ due) s h (inl e) =
      Member-append_left (cb, t) (call_all s.callbacks u) _
        (subst (λ x. Member (cb, t) (call_all s.callbacks x)) (sym e)
          (Member-call_all cb t s.callbacks h))
  fire_all-calls (u ∷ due) s h (inr m) =
      Member-append_right (cb, t) (call_all s.callbacks u) _
        (fire_all-calls due (record s { timers = erase u.id s.timers }) h m)

  Waits-same :
      (s r : InMemoryScheduler)
      → r.timers ≡ s.timers
      → r.callbacks ≡ s.callbacks
      → Waits s
      → Waits r
  Waits-same s r e c w = record {
    armed = ap (lookup t.id) e ∙ w.armed;
    heard = subst (Member cb) (sym c) w.heard;
  }

  timeout_fired-Fires :
      (x : Timeout) (s : InMemoryScheduler) → IsOnly t x.timer → Waits s → Fires (timeout_fired x s)
  unfolding timeout_fired
  timeout_fired-Fires x s o w = by_found (is_some (lookup x.timer.id s.timers))
    where
      gone : InMemoryScheduler
      gone = record s { pending = clear_timeout x.handle s.pending }

      by_found :
          (b : Bool)
          → Fires (
              if b
              then (
                record gone {
                  timers = erase x.timer.id s.timers;
                  timeout_handles = erase x.timer.id s.timeout_handles;
                },
                call_all s.callbacks x.timer,
              )
              else (gone, []))
      by_found false = inr (Waits-same s _ refl refl w)
      by_found true = elim (Bool-cases (x.timer.id == t.id)) [
        | inl e ↦ inl (
            subst (λ u. Member (cb, t) (call_all s.callbacks u)) (sym (o e))
              (Member-call_all cb t s.callbacks w.heard))
        | inr n ↦ inr (record { armed = Waits-erase s x.timer.id n w; heard = w.heard })
      ]

  act-Fires :
      (a : Action) (s : InMemoryScheduler) → LeavesAlone t a → IsValid s → Waits s → Fires (act a s)
  unfolding act on_timer_fired start stop tick_due
  act-Fires (schedules now u) s l v w = inr (record {
    armed =
        ap (lookup t.id) (schedule-timers now u s)
        ∙ lookup-insert u.id t.id u s.timers
        ∙ ground (arith, l, w.armed);
    heard = subst (Member cb) (sym (schedule-callbacks now u s)) w.heard;
  })
  act-Fires (cancels id) s l v w = inr (record {
    armed = ap (lookup t.id) (cancel-timers id s) ∙ Waits-erase s id l w;
    heard = subst (Member cb) (sym (cancel-callbacks id s)) w.heard;
  })
  act-Fires (registers c) s l v w =
      inr (record { armed = w.armed; heard = Member-append_left cb s.callbacks (c ∷ []) w.heard })
  act-Fires (starts now) s l v w =
      let running = record s { running = true } in
      inr (
        Waits-same s _ (arm_all-timers now (values s.timers) running)
          (arm_all-callbacks now (values s.timers) running) w)
  act-Fires stops s l v w = inr (Waits-same s _ refl refl w)
  act-Fires (times_out x) s l v w = timeout_fired-Fires x s l w
  act-Fires (ticks now) s l v w =
      fire_all-Fires (filter (λ u. leb u.fire_at now) (values s.timers)) s
        (All-filter t (λ u. leb u.fire_at now) (values s.timers)
          (IsOnly-values t s.timers v.keyed v.distinct w.armed))
        w
  act-Fires (pops now) s l v w = elim l [ ]
  act-Fires resets s l v w = elim l [ ]

  -- Once the tick has come, the timer has been called.
  calls_of-Member :
      (later : List Action) (now : ℕ) (s : InMemoryScheduler)
      → leb t.fire_at now ≡ true
      → All (LeavesAlone t) later
      → IsValid s
      → Waits s
      → Member (cb, t) (calls_of (later ++ ticks now ∷ []) s)
  unfolding act tick_due
  calls_of-Member [] now s d l v w =
      Member-append_left (cb, t) _ []
        (fire_all-calls (filter (λ u. leb u.fire_at now) (values s.timers)) s w.heard (
          Member-filter (λ u. leb u.fire_at now) t (values s.timers) d
            (Member-lookup t.id t s.timers w.armed)))
  calls_of-Member (a ∷ later) now s d l v w =
      ⊎_elim (λ m. Member-append_left (cb, t) (act a s).1 _ m)
        (λ r.
          Member-append_right (cb, t) (act a s).1 _
            (calls_of-Member later now (act a s).0 d l.1 (act-IsValid a s v) r))
        (act-Fires a s l.0 v w)

pub scheduled-fires :
    (before later : List Action) (t : ScheduledTimer) (cb scheduled_at now : ℕ)
    → Member cb (after before new_scheduler).callbacks
    → leb t.fire_at now ≡ true
    → All (LeavesAlone t) later
    → Member
        (cb, t)
        (calls_of (later ++ ticks now ∷ []) (schedule scheduled_at t (after before new_scheduler)))
scheduled-fires before later t cb scheduled_at now h d l =
    let s = after before new_scheduler in
    let valid = after-IsValid before new_scheduler (record { keyed = tt; distinct = tt }) in
    calls_of-Member t cb later now (schedule scheduled_at t s) d l
      (IsValid-insert s _ t (schedule-timers scheduled_at t s) valid)
      (record {
        armed =
            ap (lookup t.id) (schedule-timers scheduled_at t s)
            ∙ lookup-insert t.id t.id t s.timers
            ∙ ground (arith, eq_iff t.id t.id);
        heard = subst (Member cb) (sym (schedule-callbacks scheduled_at t s)) h;
      })
