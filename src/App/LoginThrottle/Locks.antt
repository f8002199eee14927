-- ===== src/App/LoginThrottle/Locks.antt =====
-- A lock of LoginThrottle.ts (nexus-workflow-app/src/auth) that is in force.
use nexus_workflow.Common.{
  ℕ, ◌+◌, ◌-◌, ◌≤◌, ◌<◌, String, Bool, true, false, none, some, [], ◌∷◌, ◌≡◌, refl, ap, ◌∙◌, arith,
  if◌then◌else◌, case_option-elim, eqb, length, ◌==◌, eq_iff, Bool-cases, inl, inr,
}
use nexus_workflow.Common.Dict.{lookup, insert, erase, lookup-insert}
use nexus_workflow.App.LoginThrottle.{
  LoginThrottleOptions, Entry, Entries, ThrottleResult, allowed, refused, fresh_entry, failed_entry,
  is_locked, drop_stale, drop_unlocked, make_room, check, reserve, begin_allowed, begin_checked,
  begin, settle, add_failure, fail, record_success, active_pending,
}
use nexus_workflow.App.LoginThrottle.Table.{
  Operation, begins, fails, releases, records_failure, records_success, step,
}

-- All the readings of the clock by an operation fall before the end of a lock, and no lock that they
-- could set would end before it.
abbrev pub IsDuring : LoginThrottleOptions → ℕ → Operation → Type 0
IsDuring options until (begins k checked now) = (checked < until) × (now < until)
IsDuring options until (fails k at now) = (now < until) × (until ≤ now + options.lock_ms)
IsDuring options until (releases k at) = Unit
IsDuring options until (records_failure k now) = (now < until) × (until ≤ now + options.lock_ms)
IsDuring options until (records_success k now later) = now < until

module _ (options : LoginThrottleOptions) (key : String) (until : ℕ) where
  -- The key is locked at least that long.
  abbrev pub IsLockedUntil : Entries → Type 0
  IsLockedUntil m = (e : Entry) × (lookup key m ≡ some e) × (until ≤ e.locked_until)

  drop_stale-keeps :
      (now : ℕ) (m : Entries) (e : Entry)
      → is_locked options e now ≡ true
      → lookup key m ≡ some e
      → lookup key (drop_stale options now m) ≡ some e
  drop_stale-keeps now [] e l h = h
  drop_stale-keeps now ((j, w) ∷ m) e l h = ground (arith, drop_stale-keeps now m e l)

  drop_unlocked-keeps :
      (now size : ℕ) (m : Entries) (e : Entry)
      → is_locked options e now ≡ true
      → lookup key m ≡ some e
      → lookup key (drop_unlocked options now size m) ≡ some e
  drop_unlocked-keeps now size [] e l h = h
  drop_unlocked-keeps now size ((j, w) ∷ m) e l h =
      ground (arith, drop_unlocked-keeps now (size - 1) m e l, drop_unlocked-keeps now size m e l)

  make_room-keeps :
      (now : ℕ) (m : Entries)
      → now < until
      → IsLockedUntil m
      → IsLockedUntil (make_room options now m).1
  unfolding make_room
  make_room-keeps now m t (e, h, u) = (
    e,
    ground (
      arith,
      drop_unlocked-keeps now (length (drop_stale options now m)) (drop_stale options now m) e
          (ground arith) (drop_stale-keeps now m e (ground arith) h),
    ),
    u,
  )

  -- Another entry is put under the key of a table, if it is locked as long.
  insert-keeps_lock :
      (k : String) (w : Entry) (m : Entries)
      → ((k == key) ≡ true → until ≤ w.locked_until)
      → IsLockedUntil m
      → IsLockedUntil (insert k w m)
  insert-keeps_lock k w m f (e, h, u) = elim (Bool-cases (k == key)) [
    | inl same ↦ (w, ground (arith, lookup-insert k key w m), f same)
    | inr other ↦ (e, ground (arith, lookup-insert k key w m), u)
  ]

  -- The entry of a key that is there is replaced by one that is locked as long.
  update-keeps_lock :
      (k : String) (w v : Entry) (m : Entries)
      → lookup k m ≡ some v
      → (until ≤ v.locked_until → until ≤ w.locked_until)
      → IsLockedUntil m
      → IsLockedUntil (insert k w m)
  update-keeps_lock k w v m h f (e, l, u) =
      insert-keeps_lock k w m (λ same. f (ground (arith, congr ((eq_iff k key).0 same)))) (e, l, u)
    where
      congr : k ≡ key → lookup k m ≡ lookup key m
      congr q = ap (λ j. lookup j m) q

  absent-other :
      (k : String) (m : Entries) → lookup k m ≡ none → IsLockedUntil m → (k == key) ≡ false
  absent-other k m h (e, l, u) = ground (arith, congr ((eq_iff k key).0))
    where
      congr : ((k == key) ≡ true → k ≡ key) → (k == key) ≡ true → lookup k m ≡ lookup key m
      congr q same = ap (λ j. lookup j m) (q same)

  settle-keeps_lock :
      (k : String) (at : ℕ) (m : Entries) → IsLockedUntil m → IsLockedUntil (settle options k at m)
  unfolding settle
  settle-keeps_lock k at m l =
      case_option-elim IsLockedUntil (lookup k m) m _ (λ h. l)
        (λ v h. update-keeps_lock k _ v m h (λ u. u) l)

  failed_until :
      (entry : Entry) (now : ℕ)
      → until ≤ now + options.lock_ms
      → until ≤ entry.locked_until
      → until ≤ (failed_entry options entry now).locked_until
  failed_until entry now t u = ground arith

  add_failure-keeps_lock :
      (k : String) (now : ℕ) (m : Entries)
      → now < until
      → until ≤ now + options.lock_ms
      → IsLockedUntil m
      → IsLockedUntil (add_failure options k now m)
  unfolding add_failure
  add_failure-keeps_lock k now m t u l =
      case_option-elim IsLockedUntil (lookup k m) _ _
        (λ h.
          in_room (make_room options now m).0 (absent-other k m h l) (make_room-keeps now m t l))
        (λ v h. update-keeps_lock k (failed_entry options v now) v m h (failed_until v now u) l)
    where
      in_room :
          (b : Bool)
          → (k == key) ≡ false
          → IsLockedUntil (make_room options now m).1
          → IsLockedUntil (
              if b
              then insert k (failed_entry options fresh_entry now) (make_room options now m).1
              else (make_room options now m).1)
      in_room true n r = insert-keeps_lock k _ _ (λ same. absurd (cc)) r
      in_room false n r = r

  begin_allowed-keeps_lock :
      (k : String) (now : ℕ) (m : Entries)
      → now < until
      → IsLockedUntil m
      → IsLockedUntil (begin_allowed options k now m).1
  unfolding begin_allowed
  begin_allowed-keeps_lock k now m t l =
      case_option-elim {B = ThrottleResult × Entries} (λ x. IsLockedUntil x.1) (lookup k m) _ _
        (λ h.
          in_room (make_room options now m).0 (absent-other k m h l) (make_room-keeps now m t l))
        (λ v h. update-keeps_lock k _ v m h (λ u. u) l)
    where
      in_room :
          (b : Bool)
          → (k == key) ≡ false
          → IsLockedUntil (make_room options now m).1
          → IsLockedUntil
              (if◌then◌else◌ {A = ThrottleResult × Entries} b
                (allowed, reserve options k now fresh_entry (make_room options now m).1)
                (refused (some 1), (make_room options now m).1)).1
      in_room true n r = insert-keeps_lock k _ _ (λ same. absurd (cc)) r
      in_room false n r = r

  begin_checked-keeps_lock :
      (r : ThrottleResult) (k : String) (now : ℕ) (m : Entries)
      → now < until
      → IsLockedUntil m
      → IsLockedUntil (begin_checked options r k now m).1
  unfolding begin_checked
  begin_checked-keeps_lock allowed k now m t l = begin_allowed-keeps_lock k now m t l
  begin_checked-keeps_lock (refused s) k now m t l = l

  lookup-erase-other :
      (k : String) (m : Entries) → (k == key) ≡ false → lookup key (erase k m) ≡ lookup key m
  lookup-erase-other k [] n = refl
  lookup-erase-other k ((j, w) ∷ m) n =
      ground (arith, lookup-erase-other k m n, eq_iff j k, eq_iff j key, eq_iff k key)

  record_success-keeps_lock :
      (k : String) (now later : ℕ) (m : Entries)
      → now < until
      → IsLockedUntil m
      → IsLockedUntil (record_success options k now later m)
  unfolding record_success
  record_success-keeps_lock k now later m t l =
      case_option-elim IsLockedUntil (lookup k m) m _ (λ h. l)
        (λ v h.
          by_lock (is_locked options v now) (eqb (active_pending options v later) 0) v h refl l)
    where
      same_entry :
          (v w : Entry)
          → lookup k m ≡ some v
          → lookup key m ≡ some w
          → k ≡ key
          → v.locked_until ≡ w.locked_until
      same_entry v w h f q = ground (arith, ap (λ j. lookup j m) q)

      by_lock :
          (b done_ : Bool) (v : Entry)
          → lookup k m ≡ some v
          → is_locked options v now ≡ b
          → IsLockedUntil m
          → IsLockedUntil (
              if b
              then m
              else (if done_ then erase k m else insert k (record v { failures = [] }) m))
      by_lock true done_ v h e l = l
      by_lock false false v h e l =
          update-keeps_lock k (record v { failures = [] }) v m h (λ u. u) l
      by_lock false true v h e (w, f, u) =
          (w, lookup-erase-other k m (ground (arith, same_entry v w h f, eq_iff k key)) ∙ f, u)

  -- While a lock is in force no operation, on this key or another, lifts or shortens it: when a key is
  -- locked until some time, and the operation reads the clock before that time (and, where it records
  -- a failure, no earlier than `lockMs` before it), the key is still in the table and still locked until
  -- then.
  pub step-keeps_lock :
      (operation : Operation) (m : Entries)
      → IsDuring options until operation
      → IsLockedUntil m
      → IsLockedUntil (step options operation m)
  unfolding begin fail
  step-keeps_lock (begins k checked now) m t l =
      begin_checked-keeps_lock (check options k checked m) k now m t.1 l
  step-keeps_lock (fails k at now) m t l =
      add_failure-keeps_lock k now (settle options k at m) t.0 t.1 (settle-keeps_lock k at m l)
  step-keeps_lock (releases k at) m t l = settle-keeps_lock k at m l
  step-keeps_lock (records_failure k now) m t l = add_failure-keeps_lock k now m t.0 t.1 l
  step-keeps_lock (records_success k now later) m t l = record_success-keeps_lock k now later m t l
