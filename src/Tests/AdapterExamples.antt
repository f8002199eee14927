-- ===== src/Tests/AdapterExamples.antt =====
-- The in-memory scheduler and event bus at concrete runs.
use nexus_workflow.Common.{◌++◌, inl, ℕ, String, true, some, List, [], ◌∷◌, ◌≡◌, refl, all}
use nexus_workflow.Model.Events.{ExecutionEvent, process_instance_suspended, user_task_cancelled}
use nexus_workflow.Store.State.{ScheduledTimer}
use nexus_workflow.Adapters.Scheduler.{
  new_scheduler, cancel, after, calls_of, pop_next_due, Action, schedules, cancels, stops,
  registers, starts, times_out, ticks, act, schedule, arm_timeout, on_timer_fired, start,
  timeout_fired, tick_due,
}
use nexus_workflow.Adapters.Scheduler.Due.{Member}
use nexus_workflow.Adapters.Scheduler.Fired.{scheduled-fires}
use nexus_workflow.Adapters.Scheduler.Cancelled.{is_other, cancelled-never_fires}
use nexus_workflow.Adapters.EventBus.{
  InMemoryEventBus, new_bus, own, publish_many, unsubscribe, subscribe_to_type,
}
use nexus_workflow.Adapters.EventBus.Delivery.{received, subscription-delivers}

abbrev timer : String → ℕ → ScheduledTimer
timer id fire_at = record {
  id = id;
  instance_id = "i";
  token_id = "t";
  fire_at = fire_at;
  created_at = 0;
}

-- Two timers at a scheduler that runs.
abbrev two_timers : List Action
two_timers = starts 0 ∷ registers 7 ∷ schedules 0 (timer "a" 5) ∷ schedules 0 (timer "b" 3) ∷ []

-- The timeout of `a`, should it still fire, and then a tick.
abbrev both_due : List Action
both_due = times_out (record { handle = 0; delay = 5; timer = timer "a" 5 }) ∷ ticks 9 ∷ []

only_b : calls_of both_due (cancel "a" (after two_timers new_scheduler)) ≡ (7, timer "b" 3) ∷ []
unfolding act cancel schedule arm_timeout on_timer_fired start timeout_fired tick_due
only_b = refl

cancelled-never_fires_example :
    all (is_other "a") (calls_of both_due (cancel "a" (after two_timers new_scheduler))) ≡ true
cancelled-never_fires_example = cancelled-never_fires two_timers both_due "a" refl

-- The earlier timer is popped first.
first_is_b : (pop_next_due 9 (after two_timers new_scheduler)).1 ≡ some (timer "b" 3)
unfolding act schedule arm_timeout on_timer_fired start pop_next_due
first_is_b = refl

-- A timer that is scheduled, other timers that come and go, and its own timeout that fires early.
abbrev meanwhile : List Action
meanwhile =
    schedules 1 (timer "c" 50)
    ∷ cancels "b"
    ∷ stops
    ∷ ticks 2
    ∷ starts 2
    ∷ times_out (record { handle = 2; delay = 4; timer = timer "d" 6 })
    ∷ []

scheduled-fires_example :
    Member
      (7, timer "d" 6)
      (calls_of
        (meanwhile ++ ticks 6 ∷ [])
        (schedule 2 (timer "d" 6) (after two_timers new_scheduler)))
scheduled-fires_example =
    scheduled-fires two_timers meanwhile (timer "d" 6) 7 2 6
      (unfold act schedule arm_timeout on_timer_fired start in inl refl) refl
      (refl, (refl, (tt, (tt, (tt, (λ e. refl, tt))))))

-- A timer that is scheduled again, for a later instant, while the scheduler runs: the first timeout is
-- still pending, and fires the first timer.
abbrev moved : List Action
moved = starts 0 ∷ registers 7 ∷ schedules 0 (timer "a" 5) ∷ schedules 1 (timer "a" 90) ∷ []

fires_early :
    calls_of
      (times_out (record { handle = 0; delay = 5; timer = timer "a" 5 }) ∷ ticks 99 ∷ [])
      (after moved new_scheduler)
    ≡ (7, timer "a" 5) ∷ []
unfolding act schedule arm_timeout on_timer_fired start timeout_fired tick_due
fires_early = refl

still_pending :
    (after moved new_scheduler).pending
    ≡ record { handle = 0; delay = 5; timer = timer "a" 5 }
      ∷ record { handle = 1; delay = 89; timer = timer "a" 90 }
      ∷ []
unfolding act schedule arm_timeout on_timer_fired start
still_pending = refl

abbrev three_events : List ExecutionEvent
three_events =
    process_instance_suspended "i" ∷ user_task_cancelled "t" ∷ process_instance_suspended "j" ∷ []

abbrev one_subscriber : InMemoryEventBus
one_subscriber = record new_bus { handlers = own 1 ∷ [] }

subscription-delivers_example :
    (received 2
        (publish_many three_events
          (subscribe_to_type "ProcessInstanceSuspended" 2 one_subscriber).0).1
      ≡ process_instance_suspended "i" ∷ process_instance_suspended "j" ∷ [])
    × (received 2
          (publish_many (process_instance_suspended "k" ∷ []) (
            unsubscribe
              (subscribe_to_type "ProcessInstanceSuspended" 2 one_subscriber).1
              (publish_many three_events
                (subscribe_to_type "ProcessInstanceSuspended" 2 one_subscriber).0).0)).1
        ≡ [])
    × ((publish_many three_events
          (subscribe_to_type "ProcessInstanceSuspended" 2 one_subscriber).0).0.published
        ≡ three_events)
subscription-delivers_example =
    subscription-delivers one_subscriber "ProcessInstanceSuspended" 2 three_events
      (process_instance_suspended "k" ∷ []) refl
