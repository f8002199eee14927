-- ===== src/App/LoginThrottle/Counts.antt =====
-- How many attempts LoginThrottle.ts (nexus-workflow-app/src/auth) lets through.
use nexus_workflow.Common.{
  ℕ, suc, ◌+◌, ◌≤◌, ◌<◌, String, false, Option, none, some, List, [], ◌∷◌, ◌++◌, ◌≡◌, refl, arith,
  or_else, ltb, filter, length,
}
use nexus_workflow.Common.Dict.{lookup, lookup-insert}
use nexus_workflow.App.LoginThrottle.{
  LoginThrottleOptions, Entry, Entries, ThrottleResult, allowed, refused, fresh_entry, is_locked,
  active_failures, active_pending, pending_ttl_ms, make_room, check, reserve, begin_allowed,
  begin_checked, begin,
}
use text.Mathlib.TextEquality.{eq_iff}

-- The times of a list that are younger than an age.
abbrev young : ℕ → ℕ → List ℕ → ℕ
young age now times = length (filter (λ at. ltb now (age + at)) times)

young-later :
    (age now later : ℕ) (times : List ℕ) → now ≤ later → young age later times ≤ young age now times
young-later age now later [] h = omega arith
young-later age now later (t ∷ times) h = ground (arith, young-later age now later times h)

young-snoc :
    (age now : ℕ) (times : List ℕ) (t : ℕ)
    → young age now (times ++ t ∷ []) ≤ suc (young age now times)
young-snoc age now [] t = ground arith
young-snoc age now (u ∷ times) t = ground (arith, young-snoc age now times t)

module _ (options : LoginThrottleOptions) where
  allowed_of_begin :
      (r : ThrottleResult) (key : String) (now : ℕ) (entries after : Entries)
      → begin_checked options r key now entries ≡ (allowed, after)
      → (r ≡ allowed) × (begin_allowed options key now entries ≡ (allowed, after))
  unfolding begin_checked
  allowed_of_begin allowed key now entries after e = (refl, e)
  allowed_of_begin (refused t) key now entries after e = absurd (cc)

  check-entry :
      (key : String) (now : ℕ) (entries : Entries) (entry : Entry)
      → lookup key entries ≡ some entry
      → check options key now entries ≡ allowed
      → (is_locked options entry now ≡ false)
        × (active_failures options entry now + active_pending options entry now
            < options.max_failures)
  unfolding check
  check-entry key now entries entry k e = ground arith

  lookup-reserve :
      (key : String) (now : ℕ) (entry : Entry) (entries : Entries)
      → lookup key (reserve options key now entry entries)
        ≡ some (record entry { pending = entry.pending ++ now ∷ [] })
  lookup-reserve key now entry entries = ground (
    arith,
    lookup-insert key key (record entry { pending = entry.pending ++ now ∷ [] }) entries,
    eq_iff key key,
  )

  reserved_of_begin :
      (key : String) (now : ℕ) (entries after : Entries) (o : Option Entry)
      → lookup key entries ≡ o
      → begin_allowed options key now entries ≡ (allowed, after)
      → lookup key after
        ≡ some (record (or_else o fresh_entry) {
          pending = (or_else o fresh_entry).pending ++ now ∷ [];
        })
  unfolding begin_allowed
  reserved_of_begin key now entries after none k e =
      ground (arith, lookup-reserve key now fresh_entry (make_room options now entries).1)
  reserved_of_begin key now entries after (some entry) k e =
      ground (arith, lookup-reserve key now entry entries)

  -- An attempt that is let through leaves its key unlocked, and with no more recent failures and
  -- attempts in flight, this one included, than `maxFailures`, when that is not zero and the clock does
  -- not go back between its two readings.
  pub begin-capacity :
      (key : String) (checked now : ℕ) (entries after : Entries)
      → 0 < options.max_failures
      → checked ≤ now
      → begin options key checked now entries ≡ (allowed, after)
      → (entry : Entry) × (lookup key after ≡ some entry)
        × (is_locked options entry now ≡ false)
        × (active_failures options entry now + active_pending options entry now
            ≤ options.max_failures)
  unfolding begin
  begin-capacity key checked now entries after h order e =
      let (ok_, e2) =
        allowed_of_begin (check options key checked entries) key now entries after e in
      by_entry (lookup key entries) refl ok_ e2
    where
      by_entry :
          (o : Option Entry)
          → lookup key entries ≡ o
          → check options key checked entries ≡ allowed
          → begin_allowed options key now entries ≡ (allowed, after)
          → (entry : Entry) × (lookup key after ≡ some entry)
            × (is_locked options entry now ≡ false)
            × (active_failures options entry now + active_pending options entry now
                ≤ options.max_failures)
      by_entry none k c e2 = (
        _,
        reserved_of_begin key now entries after none k e2,
        ground arith,
        ground (arith, young-snoc (pending_ttl_ms options) now [] now),
      )
      by_entry (some entry) k c e2 =
          let (open_, fits) = check-entry key checked entries entry k c in
          (
            _,
            reserved_of_begin key now entries after (some entry) k e2,
            ground arith,
            ground (
              arith,
              young-snoc (pending_ttl_ms options) now entry.pending now,
              young-later (pending_ttl_ms options) checked now entry.pending order,
              young-later options.window_ms checked now entry.failures order,
            ),
          )
