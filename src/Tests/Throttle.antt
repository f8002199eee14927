-- ===== src/Tests/Throttle.antt =====
-- The theorems on the login throttle at a small table.
use nexus_workflow.Common.{◌+◌, ◌≤◌, false, none, some, [], ◌∷◌, ◌≡◌, refl, arith, length}
use nexus_workflow.Common.Dict.{lookup}
use nexus_workflow.App.LoginThrottle.{
  LoginThrottleOptions, Entry, Entries, allowed, is_locked, active_failures, active_pending, check,
  begin_allowed, begin_checked, begin,
}
use nexus_workflow.App.LoginThrottle.Counts.{begin-capacity}
use nexus_workflow.App.LoginThrottle.Table.{begins, step, step-Fits}
use nexus_workflow.App.LoginThrottle.Locks.{IsLockedUntil, step-keeps_lock}
use nexus_workflow.App.LoginThrottle.Admission.{begin-eq-check}
use nexus_workflow.App.LoginThrottle.Lockout.{add_failures, failures-lock}

-- Three failures in a second lock a key for a minute, and there is room for two keys.
abbrev strict : LoginThrottleOptions
strict = record {
  max_failures = 3;
  window_ms = 1000;
  lock_ms = 60000;
  max_keys = some 2;
  pending_ttl_ms = none;
}

-- `mallory` is locked until 70000; `alice` has failed once.
abbrev locked : Entry
locked = record { failures = []; pending = []; locked_until = 70000 }

abbrev tracked : Entry
tracked = record { failures = 10000 ∷ []; pending = []; locked_until = 0 }

abbrev table : Entries
table = ("mallory", locked) ∷ ("alice", tracked) ∷ []

abbrev table_after : Entries
table_after = ("mallory", locked) ∷ ("alice", record tracked { pending = 10500 ∷ [] }) ∷ []

begin_runs : begin strict "alice" 10500 10500 table ≡ (allowed, table_after)
unfolding begin begin_checked begin_allowed check
begin_runs = refl

begin-capacity_example :
    (entry : Entry) × (lookup "alice" table_after ≡ some entry)
    × (is_locked strict entry 10500 ≡ false)
    × (active_failures strict entry 10500 + active_pending strict entry 10500 ≤ 3)
begin-capacity_example =
    begin-capacity strict "alice" 10500 10500 table table_after (omega arith) (omega arith)
      begin_runs

step-Fits_example : length (step strict (begins "bob" 10500 10500) table) ≤ 2
step-Fits_example = step-Fits strict (begins "bob" 10500 10500) table (omega arith)

-- A new key takes the place of the key that is not locked.
step-keeps_lock_example :
    IsLockedUntil strict "mallory" 70000 (step strict (begins "bob" 10500 10500) table)
step-keeps_lock_example =
    step-keeps_lock strict "mallory" 70000 (begins "bob" 10500 10500) table
      (omega arith, omega arith) (locked, refl, omega arith)

begin-eq-check_example : (begin strict "bob" 10500 10500 table).0 ≡ check strict "bob" 10500 table
begin-eq-check_example = begin-eq-check strict 10500 "bob" table (omega arith)

abbrev clean : Entry
clean = record { failures = []; pending = []; locked_until = 0 }

abbrev fresh_table : Entries
fresh_table = ("alice", clean) ∷ []

failures-lock_example :
    (lookup "alice" (add_failures strict "alice" (10100 ∷ 10200 ∷ []) fresh_table)
      ≡ some (record clean { failures = 10100 ∷ 10200 ∷ [] }))
    × (lookup "alice" (add_failures strict "alice" (10100 ∷ 10200 ∷ 10300 ∷ []) fresh_table)
        ≡ some (record clean { failures = []; locked_until = 70300 }))
failures-lock_example =
    failures-lock strict "alice" 10000 10400 (omega arith) (10100 ∷ 10200 ∷ []) 10300 fresh_table
      clean ((omega arith, omega arith), ((omega arith, omega arith), tt))
      (omega arith, omega arith) refl refl refl
