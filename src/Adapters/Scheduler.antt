-- ===== src/Adapters/Scheduler.antt =====
-- nexus-workflow-core/src/adapters/InMemoryScheduler.ts. A callback is known by a number; what a step
-- calls, and in which order, is its result. The runtime's pending `setTimeout` calls are part of the
-- state: any of them may fire at any time.
pub mod Timers
pub mod Cancelled
pub mod Due
pub mod Fired
use nexus_workflow.Common.{
  ℕ, zero, suc, ◌-◌, String, Bool, true, false, not, Option, none, some, List, [], ◌∷◌, ◌++◌, eqb,
  leb, map, filter, if◌then◌else◌, case_option, is_some,
}
use nexus_workflow.Common.Dict.{Dict, lookup, insert, erase, values}
use nexus_workflow.Store.State.{ScheduledTimer}

-- A pending `setTimeout`: its handle, its delay, and the timer of its closure.
pub record Timeout : Type 0 where
  pub handle : ℕ
  pub delay : ℕ
  pub timer : ScheduledTimer

pub record InMemoryScheduler : Type 0 where
  pub timers : Dict ScheduledTimer
  pub callbacks : List ℕ
  pub timeout_handles : Dict ℕ
  pub running : Bool
  pub pending : List Timeout
  pub next_handle : ℕ

abbrev pub new_scheduler : InMemoryScheduler
new_scheduler = record {
  timers = [];
  callbacks = [];
  timeout_handles = [];
  running = false;
  pending = [];
  next_handle = 0;
}

-- A callback with the timer that it is given.
abbrev pub Call : Type 0
Call = ℕ × ScheduledTimer

-- `clearTimeout(handle)`
abbrev pub clear_timeout : ℕ → List Timeout → List Timeout
clear_timeout handle pending = filter (λ t. not (eqb t.handle handle)) pending

-- `Math.max(0, timer.fireAt.getTime() - Date.now())` is the subtraction of natural numbers.
unfoldable pub arm_timeout : ℕ → ScheduledTimer → InMemoryScheduler → InMemoryScheduler
arm_timeout now timer s = record s {
  timeout_handles = insert timer.id s.next_handle s.timeout_handles;
  pending =
      s.pending
      ++ record { handle = s.next_handle; delay = timer.fire_at - now; timer = timer } ∷ [];
  next_handle = suc s.next_handle;
}

unfoldable pub schedule : ℕ → ScheduledTimer → InMemoryScheduler → InMemoryScheduler
unfolding arm_timeout
schedule now timer s =
    let kept = record s { timers = insert timer.id timer s.timers } in
    if s.running then arm_timeout now timer kept else kept

unfoldable pub cancel : String → InMemoryScheduler → InMemoryScheduler
cancel timer_id s =
    let gone = record s { timers = erase timer_id s.timers } in
    case_option (lookup timer_id s.timeout_handles) gone λ handle. record gone {
      pending = clear_timeout handle s.pending;
      timeout_handles = erase timer_id s.timeout_handles;
    }

unfoldable pub on_timer_fired : ℕ → InMemoryScheduler → InMemoryScheduler
on_timer_fired callback s = record s { callbacks = s.callbacks ++ callback ∷ [] }

-- The loop of `start`.
abbrev pub arm_all : ℕ → List ScheduledTimer → InMemoryScheduler → InMemoryScheduler
arm_all now [] s = s
arm_all now (timer ∷ timers) s = arm_all now timers (arm_timeout now timer s)

unfoldable pub start : ℕ → InMemoryScheduler → InMemoryScheduler
start now s = arm_all now (values s.timers) (record s { running = true })

-- The loop that clears the timeouts of all handles.
abbrev pub clear_all : List ℕ → List Timeout → List Timeout
clear_all [] pending = pending
clear_all (handle ∷ handles) pending = clear_all handles (clear_timeout handle pending)

unfoldable pub stop : InMemoryScheduler → InMemoryScheduler
stop s = record s {
  running = false;
  pending = clear_all (values s.timeout_handles) s.pending;
  timeout_handles = [];
}

-- `for (const cb of this.callbacks) await cb(timer)`
abbrev pub call_all : List ℕ → ScheduledTimer → List Call
call_all callbacks timer = map (λ cb. (cb, timer)) callbacks

-- The closure that `armTimeout` hands to `setTimeout`.
unfoldable pub timeout_fired : Timeout → InMemoryScheduler → InMemoryScheduler × List Call
timeout_fired t s =
    let gone = record s { pending = clear_timeout t.handle s.pending } in
    if is_some (lookup t.timer.id s.timers)
    then (
      record gone {
        timers = erase t.timer.id s.timers;
        timeout_handles = erase t.timer.id s.timeout_handles;
      },
      call_all s.callbacks t.timer,
    )
    else (gone, [])

unfoldable pub get_all : InMemoryScheduler → List ScheduledTimer
get_all s = values s.timers

-- The loop of `tickDue` over the due timers.
abbrev pub fire_all : List ScheduledTimer → InMemoryScheduler → InMemoryScheduler × List Call
fire_all [] s = (s, [])
fire_all (timer ∷ due) s =
    let (rest, calls) = fire_all due (record s { timers = erase timer.id s.timers }) in
    (rest, call_all s.callbacks timer ++ calls)

unfoldable pub tick_due : ℕ → InMemoryScheduler → InMemoryScheduler × List Call
tick_due now s = fire_all (filter (λ t. leb t.fire_at now) (values s.timers)) s

-- The first of a stable sort by `fireAt`: the earliest timer, and of those the first.
abbrev pub earliest : List ScheduledTimer → Option ScheduledTimer
earliest [] = none
earliest (timer ∷ timers) =
    let rest = earliest timers in
    case_option rest (some timer) (λ t. if leb timer.fire_at t.fire_at then some timer else some t)

unfoldable pub pop_next_due : ℕ → InMemoryScheduler → InMemoryScheduler × Option ScheduledTimer
pop_next_due now s =
    let next = earliest (filter (λ t. leb t.fire_at now) (values s.timers)) in
    (case_option next s (λ t. record s { timers = erase t.id s.timers }), next)

unfoldable pub reset : InMemoryScheduler → InMemoryScheduler
reset s = record s {
  pending = clear_all (values s.timeout_handles) s.pending;
  timers = [];
  timeout_handles = [];
}

-- One call of a method, or of a timeout's closure. The numbers are the clock's. A timeout that fires
-- need not be pending: a run of actions may do more than the runtime does.
pub data Action : Type 0 where
  schedules : ℕ → ScheduledTimer → Action
  cancels : String → Action
  registers : ℕ → Action
  starts : ℕ → Action
  stops : Action
  times_out : Timeout → Action
  ticks : ℕ → Action
  pops : ℕ → Action
  resets : Action

unfoldable pub act : Action → InMemoryScheduler → InMemoryScheduler × List Call
act (schedules now timer) s = (schedule now timer s, [])
act (cancels id) s = (cancel id s, [])
act (registers callback) s = (on_timer_fired callback s, [])
act (starts now) s = (start now s, [])
act stops s = (stop s, [])
act (times_out t) s = timeout_fired t s
act (ticks now) s = tick_due now s
act (pops now) s = ((pop_next_due now s).0, [])
act resets s = (reset s, [])

-- All calls of a sequence of actions.
abbrev pub calls_of : List Action → InMemoryScheduler → List Call
calls_of [] s = []
calls_of (a ∷ actions) s = (act a s).1 ++ calls_of actions (act a s).0

-- The scheduler after a sequence of actions.
abbrev pub after : List Action → InMemoryScheduler → InMemoryScheduler
after [] s = s
after (a ∷ actions) s = after actions (act a s).0
