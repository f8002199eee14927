-- ===== src/App/LoginThrottle/Table.antt =====
-- The operations of LoginThrottle.ts (nexus-workflow-app/src/auth) as steps, and the size of the table.
use nexus_workflow.Common.{
  ℕ, suc, ◌-◌, ◌≤◌, ◌<◌, String, true, not, Option, none, some, [], ◌∷◌, ◌≡◌, refl, arith,
  if◌then◌else◌, case_option, eqb, length, length-filter-le,
}
use nexus_workflow.Common.Dict.{lookup, insert, erase}
use nexus_workflow.App.LoginThrottle.{
  LoginThrottleOptions, Entry, Entries, ThrottleResult, allowed, refused, fresh_entry, failed_entry,
  max_keys, is_locked, is_stale, drop_stale, drop_unlocked, make_room, check, reserve,
  begin_allowed, begin_checked, begin, settle, add_failure, fail, record_success, active_pending,
  remove_first,
}

-- The calls from outside, with the answers of the clock.
pub data Operation : Type 0 where
  -- key, and the readings of `check` and of `begin`
  begins : String → ℕ → ℕ → Operation
  -- key, the time at which the attempt began, and the reading of `addFailure`
  fails : String → ℕ → ℕ → Operation
  -- key, and the time at which the attempt began
  releases : String → ℕ → Operation
  -- key, and the reading of `addFailure`
  records_failure : String → ℕ → Operation
  -- key, and the two readings
  records_success : String → ℕ → ℕ → Operation

module _ (options : LoginThrottleOptions) where
  abbrev pub step : Operation → Entries → Entries
  step (begins key checked now) entries = (begin options key checked now entries).1
  step (fails key at now) entries = fail options key at now entries
  step (releases key at) entries = settle options key at entries
  step (records_failure key now) entries = add_failure options key now entries
  step (records_success key now later) entries = record_success options key now later entries

  length-insert : (k : String) (e : Entry) (m : Entries) → length (insert k e m) ≤ suc (length m)
  length-insert k e [] = omega arith
  length-insert k e ((j, w) ∷ m) = ground (arith, length-insert k e m)

  length-insert-present :
      (k : String) (e f : Entry) (m : Entries)
      → lookup k m ≡ some f
      → length (insert k e m) ≡ length m
  length-insert-present k e f [] h = absurd (cc)
  length-insert-present k e f ((j, w) ∷ m) h = ground (arith, length-insert-present k e f m)

  length-erase-le : (k : String) (m : Entries) → length (erase k m) ≤ length m
  length-erase-le k [] = omega arith
  length-erase-le k ((j, w) ∷ m) = ground (arith, length-erase-le k m)

  pub length-drop_unlocked-le :
      (now size : ℕ) (m : Entries) → length (drop_unlocked options now size m) ≤ length m
  length-drop_unlocked-le now size [] = omega arith
  length-drop_unlocked-le now size ((k, e) ∷ m) =
      ground (arith, length-drop_unlocked-le now (size - 1) m, length-drop_unlocked-le now size m)

  length-make_room-le : (now : ℕ) (m : Entries) → length (make_room options now m).1 ≤ length m
  unfolding make_room
  length-make_room-le now m = ground (
    arith,
    length-filter-le (λ x. not (is_stale options x.1 now)) m,
    length-drop_unlocked-le now (length (drop_stale options now m)) (drop_stale options now m),
  )

  room-free :
      (now : ℕ) (m : Entries)
      → (make_room options now m).0 ≡ true
      → length (make_room options now m).1 < max_keys options
  unfolding make_room
  room-free now m h = ground arith

  abbrev Fits : Entries → Type 0
  Fits m = length m ≤ max_keys options

  make_room-Fits : (now : ℕ) (m : Entries) → Fits m → Fits (make_room options now m).1
  make_room-Fits now m h = omega (arith, length-make_room-le now m)

  insert-Fits :
      (now : ℕ) (k : String) (e : Entry) (m : Entries)
      → (make_room options now m).0 ≡ true
      → Fits (insert k e (make_room options now m).1)
  insert-Fits now k e m h =
      omega (arith, length-insert k e (make_room options now m).1, room-free now m h)

  settle-Fits : (k : String) (at : ℕ) (m : Entries) → Fits m → Fits (settle options k at m)
  unfolding settle
  settle-Fits k at m h = by_entry (lookup k m) refl
    where
      by_entry :
          (o : Option Entry)
          → lookup k m ≡ o
          → Fits (
              case_option o m
                (λ entry. insert k (record entry { pending = remove_first at entry.pending }) m))
      by_entry none e = h
      by_entry (some entry) e = omega (arith, length-insert-present k _ entry m e)

  add_failure-Fits :
      (k : String) (now : ℕ) (m : Entries) → Fits m → Fits (add_failure options k now m)
  unfolding add_failure
  add_failure-Fits k now m h = by_entry (lookup k m) refl
    where
      by_entry :
          (o : Option Entry)
          → lookup k m ≡ o
          → Fits (
              case_option o
                (if (make_room options now m).0
                  then insert k (failed_entry options fresh_entry now) (make_room options now m).1
                  else (make_room options now m).1)
                (λ entry. insert k (failed_entry options entry now) m))
      by_entry none e = ground (
        arith,
        make_room-Fits now m h,
        insert-Fits now k (failed_entry options fresh_entry now) m,
      )
      by_entry (some entry) e = omega (arith, length-insert-present k _ entry m e)

  begin_allowed-Fits :
      (k : String) (now : ℕ) (m : Entries) → Fits m → Fits (begin_allowed options k now m).1
  unfolding begin_allowed
  begin_allowed-Fits k now m h = by_entry (lookup k m) refl
    where
      by_entry :
          (o : Option Entry)
          → lookup k m ≡ o
          → Fits
              (case_option {B = ThrottleResult × Entries} o
                (if (make_room options now m).0
                  then (allowed, reserve options k now fresh_entry (make_room options now m).1)
                  else (refused (some 1), (make_room options now m).1))
                (λ entry. (allowed, reserve options k now entry m))).1
      by_entry none e = ground (
        arith,
        make_room-Fits now m h,
        insert-Fits now k (record fresh_entry { pending = now ∷ [] }) m,
      )
      by_entry (some entry) e = omega (arith, length-insert-present k _ entry m e)

  begin_checked-Fits :
      (r : ThrottleResult) (k : String) (now : ℕ) (m : Entries)
      → Fits m
      → Fits (begin_checked options r k now m).1
  unfolding begin_checked
  begin_checked-Fits allowed k now m h = begin_allowed-Fits k now m h
  begin_checked-Fits (refused t) k now m h = h

  record_success-Fits :
      (k : String) (now later : ℕ) (m : Entries)
      → Fits m
      → Fits (record_success options k now later m)
  unfolding record_success
  record_success-Fits k now later m h = by_entry (lookup k m) refl
    where
      by_entry :
          (o : Option Entry)
          → lookup k m ≡ o
          → Fits (
              case_option o m (λ entry.
                if is_locked options entry now
                then m
                else (if eqb (active_pending options entry later) 0
                    then erase k m
                    else insert k (record entry { failures = [] }) m)))
      by_entry none e = h
      by_entry (some entry) e = ground (
        arith,
        length-erase-le k m,
        length-insert-present k (record entry { failures = [] }) entry m e,
      )

  -- The table of keys never grows beyond `maxKeys`: every operation on a table within that size gives
  -- a table within it, whatever the keys and the times are.
  pub step-Fits :
      (operation : Operation) (m : Entries)
      → length m ≤ max_keys options
      → length (step operation m) ≤ max_keys options
  unfolding begin fail
  step-Fits (begins k checked now) m h = begin_checked-Fits (check options k checked m) k now m h
  step-Fits (fails k at now) m h =
      add_failure-Fits k now (settle options k at m) (settle-Fits k at m h)
  step-Fits (releases k at) m h = settle-Fits k at m h
  step-Fits (records_failure k now) m h = add_failure-Fits k now m h
  step-Fits (records_success k now later) m h = record_success-Fits k now later m h
