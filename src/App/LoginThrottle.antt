-- ===== src/App/LoginThrottle.antt =====
-- nexus-workflow-app/src/auth/LoginThrottle.ts. Times are milliseconds; an operation takes the answers
-- of the clock that it reads, in their order. `now - at < ms` is written `now < ms + at`, which is the
-- same for integers. Fields of an entry are assigned in place, under its key in the table.
pub mod Counts
pub mod Table
pub mod Locks
pub mod Admission
pub mod Lockout
use Prim.Native.Nat.{◌/◌, min, max}
use nexus_workflow.Common.{
  ℕ, zero, suc, ◌+◌, ◌-◌, String, Bool, true, false, not, ◌&&◌, Option, none, some, List, [], ◌∷◌,
  ◌++◌, if◌then◌else◌, case_option, or_else, ltb, leb, eqb, filter, length, any,
}
use nexus_workflow.Common.Dict.{Dict, lookup, insert, erase, values}

pub record LoginThrottleOptions : Type 0 where
  pub max_failures : ℕ
  pub window_ms : ℕ
  pub lock_ms : ℕ
  pub max_keys : Option ℕ
  pub pending_ttl_ms : Option ℕ

pub record Entry : Type 0 where
  pub failures : List ℕ
  pub pending : List ℕ
  pub locked_until : ℕ

-- `retryAfterSeconds` is `none` for infinity.
pub data ThrottleResult : Type 0 where
  allowed : ThrottleResult
  refused : Option ℕ → ThrottleResult

abbrev pub Entries : Type 0
Entries = Dict Entry

abbrev pub fresh_entry : Entry
fresh_entry = record { failures = []; pending = []; locked_until = 0 }

-- `Math.ceil(ms / 1000)`
abbrev pub seconds : ℕ → ℕ
seconds ms = (ms + 999) / 1000

-- `arr.splice(arr.indexOf(x), 1)`, if it is there.
abbrev pub remove_first : ℕ → List ℕ → List ℕ
remove_first x [] = []
remove_first x (y ∷ ys) = if eqb y x then ys else y ∷ remove_first x ys

module _ (options : LoginThrottleOptions) where
  abbrev pub max_keys : ℕ
  max_keys = or_else options.max_keys 10000

  abbrev pub pending_ttl_ms : ℕ
  pending_ttl_ms = or_else options.pending_ttl_ms 60000

  abbrev pub is_locked : Entry → ℕ → Bool
  is_locked entry now = ltb now entry.locked_until

  abbrev pub active_failures : Entry → ℕ → ℕ
  active_failures entry now =
      length (filter (λ at. ltb now (options.window_ms + at)) entry.failures)

  abbrev pub active_pending : Entry → ℕ → ℕ
  active_pending entry now = length (filter (λ at. ltb now (pending_ttl_ms + at)) entry.pending)

  abbrev pub is_stale : Entry → ℕ → Bool
  is_stale entry now =
      not (is_locked entry now)
      && eqb (active_failures entry now) 0
      && eqb (active_pending entry now) 0

  abbrev pub can_make_room : ℕ → Entries → Bool
  can_make_room now entries = any (λ e. not (is_locked e now)) (values entries)

  -- `Math.min` over all, from infinity.
  abbrev pub earliest_unlock : Entries → Option ℕ
  earliest_unlock [] = none
  earliest_unlock ((k, e) ∷ entries) =
      case_option (earliest_unlock entries) (some e.locked_until) (λ t. some (min e.locked_until t))

  -- The first loop of `makeRoom`.
  abbrev pub drop_stale : ℕ → Entries → Entries
  drop_stale now entries = filter (λ x. not (is_stale x.1 now)) entries

  -- The second loop, with the size of the table as it goes.
  abbrev pub drop_unlocked : ℕ → ℕ → Entries → Entries
  drop_unlocked now size [] = []
  drop_unlocked now size ((k, e) ∷ entries) =
      let dropped = drop_unlocked now (size - 1) entries in
      let kept = drop_unlocked now size entries in
      if ltb size max_keys
      then (k, e) ∷ entries
      else (if is_locked e now then (k, e) ∷ kept else dropped)

  -- The table after `makeRoom`, and whether there is room.
  unfoldable pub make_room : ℕ → Entries → Bool × Entries
  make_room now entries =
      let live = drop_stale now entries in
      let left = drop_unlocked now (length live) live in
      if ltb (length entries) max_keys then (true, entries) else (ltb (length left) max_keys, left)

  unfoldable pub check : String → ℕ → Entries → ThrottleResult
  check key now entries =
      case_option (lookup key entries)
        (if leb max_keys (length entries) && not (can_make_room now entries)
          then refused
              (case_option (earliest_unlock entries) none (λ t. some (max 1 (seconds (t - now)))))
          else allowed)
        λ entry.
          if is_locked entry now
          then refused (some (seconds (entry.locked_until - now)))
          else (if leb options.max_failures (active_failures entry now + active_pending entry now)
              then refused (some 1)
              else allowed)

  -- The end of `begin`: the reservation at its time.
  abbrev pub reserve : String → ℕ → Entry → Entries → Entries
  reserve key now entry entries =
      insert key (record entry { pending = entry.pending ++ now ∷ [] }) entries

  -- `begin` once `check` allows it. An allowed attempt is known by its key and its time.
  unfoldable pub begin_allowed : String → ℕ → Entries → ThrottleResult × Entries
  unfolding make_room
  begin_allowed key now entries =
      case_option (lookup key entries)
        (let (room, left) = make_room now entries in
          if room then (allowed, reserve key now fresh_entry left) else (refused (some 1), left))
        (λ entry. (allowed, reserve key now entry entries))

  -- `begin` from the answer of `check`.
  unfoldable pub begin_checked : ThrottleResult → String → ℕ → Entries → ThrottleResult × Entries
  begin_checked allowed key now entries = begin_allowed key now entries
  begin_checked (refused after) key now entries = (refused after, entries)

  -- `check` reads the clock at `checked`, and `begin` at `now`.
  unfoldable pub begin : String → ℕ → ℕ → Entries → ThrottleResult × Entries
  begin key checked now entries = begin_checked (check key checked entries) key now entries

  -- `settle` of an attempt, which is also its `release`.
  unfoldable pub settle : String → ℕ → Entries → Entries
  settle key at entries =
      case_option (lookup key entries) entries
        λ entry. insert key (record entry { pending = remove_first at entry.pending }) entries

  -- The entry after one more failure.
  abbrev pub failed_entry : Entry → ℕ → Entry
  failed_entry entry now =
      let failures = filter (λ at. ltb now (options.window_ms + at)) entry.failures ++ now ∷ [] in
      if leb options.max_failures (length failures)
      then record entry { failures = []; locked_until = now + options.lock_ms }
      else record entry { failures = failures }

  unfoldable pub add_failure : String → ℕ → Entries → Entries
  unfolding make_room
  add_failure key now entries =
      case_option (lookup key entries)
        (let (room, left) = make_room now entries in
          if room then insert key (failed_entry fresh_entry now) left else left)
        (λ entry. insert key (failed_entry entry now) entries)

  -- `fail` of an attempt that began at `at`.
  unfoldable pub fail : String → ℕ → ℕ → Entries → Entries
  unfolding settle add_failure
  fail key at now entries = add_failure key now (settle key at entries)

  unfoldable pub record_success : String → ℕ → ℕ → Entries → Entries
  record_success key now later entries = case_option (lookup key entries) entries λ entry.
      if is_locked entry now
      then entries
      else (if eqb (active_pending entry later) 0
          then erase key entries
          else insert key (record entry { failures = [] }) entries)
