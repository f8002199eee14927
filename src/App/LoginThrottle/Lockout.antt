-- ===== src/App/LoginThrottle/Lockout.antt =====
-- When repeated failures lock a key of LoginThrottle.ts (nexus-workflow-app/src/auth).
use nexus_workflow.Common.{
  ℕ, suc, ◌+◌, ◌≤◌, ◌<◌, String, some, List, [], ◌∷◌, ◌++◌, ◌≡◌, refl, sym, ap, ◌∙◌, arith, ltb,
  filter, length, length-append, All, eq_iff,
}
use mathlib.Core.List.{append_assoc, append-nil}
use nexus_workflow.Common.Dict.{lookup, lookup-insert}
use nexus_workflow.App.LoginThrottle.{
  LoginThrottleOptions, Entry, Entries, failed_entry, add_failure,
}

-- The failures of a key at the times of a list, one after the other.
abbrev pub add_failures : LoginThrottleOptions → String → List ℕ → Entries → Entries
add_failures options key [] m = m
add_failures options key (now ∷ times) m =
    add_failures options key times (add_failure options key now m)

-- All times lie between two times.
abbrev pub AreWithin : ℕ → ℕ → List ℕ → Type 0
AreWithin low high times = All (λ t. (low ≤ t) × (t ≤ high)) times

module _ (options : LoginThrottleOptions) (key : String) (low high : ℕ)
    (short : high < options.window_ms + low) where
  filter-young :
      (now : ℕ) (times : List ℕ)
      → now ≤ high
      → AreWithin low high times
      → filter (λ at. ltb now (options.window_ms + at)) times ≡ times
  filter-young now [] h a = refl
  filter-young now (t ∷ times) h a = ground (arith, filter-young now times h a.1)

  AreWithin-snoc :
      (times : List ℕ) (t : ℕ)
      → AreWithin low high times
      → low ≤ t
      → t ≤ high
      → AreWithin low high (times ++ t ∷ [])
  AreWithin-snoc [] t a l h = ((l, h), tt)
  AreWithin-snoc (u ∷ times) t a l h = (a.0, AreWithin-snoc times t a.1 l h)

  lookup-add_failure :
      (now : ℕ) (m : Entries) (e : Entry)
      → lookup key m ≡ some e
      → lookup key (add_failure options key now m) ≡ some (failed_entry options e now)
  unfolding add_failure
  lookup-add_failure now m e h =
      ground (arith, lookup-insert key key (failed_entry options e now) m, eq_iff key key)

  fewer-failures :
      (times : List ℕ) (m : Entries) (e : Entry)
      → AreWithin low high e.failures
      → AreWithin low high times
      → length e.failures + length times < options.max_failures
      → lookup key m ≡ some e
      → lookup key (add_failures options key times m)
        ≡ some (record e { failures = e.failures ++ times })
  fewer-failures [] m e p q n h =
      h ∙ ap (λ fs. some (record e { failures = fs })) (sym (append-nil e.failures))
  fewer-failures (now ∷ times) m e p q n h =
      fewer-failures times (add_failure options key now m)
        (record e { failures = e.failures ++ now ∷ [] })
        (AreWithin-snoc e.failures now p q.0.0 q.0.1) q.1
        (omega (arith, length-append e.failures (now ∷ [])))
        (lookup-add_failure now m e h
          ∙ ground (arith, filter-young now e.failures, length-append e.failures (now ∷ [])))
      ∙ ap (λ fs. some (record e { failures = fs })) (append_assoc e.failures (now ∷ []) times)

  pub failures-lock :
      (times : List ℕ) (last : ℕ) (m : Entries) (e : Entry)
      → AreWithin low high times
      → (low ≤ last) × (last ≤ high)
      → suc (length times) ≡ options.max_failures
      → e.failures ≡ []
      → lookup key m ≡ some e
      → (lookup key (add_failures options key times m) ≡ some (record e { failures = times }))
        × (lookup key (add_failures options key (times ++ last ∷ []) m)
            ≡ some (record e { failures = []; locked_until = last + options.lock_ms }))
  failures-lock times last m e a b n f h =
      let clean : Entry = record e { failures = [] } in
      let before =
        fewer-failures times m clean tt a (omega (arith, n))
          (h ∙ ap (λ fs. some (record e { failures = fs })) f) in
      (
        before,
        ap (lookup key) (add_failures-snoc times m)
            ∙ lookup-add_failure last (add_failures options key times m)
                (record e { failures = times }) before
            ∙ ground (arith, filter-young last times b.1 a, length-append times (last ∷ [])),
      )
    where
      add_failures-snoc :
          (ts : List ℕ) (m : Entries)
          → add_failures options key (ts ++ last ∷ []) m
            ≡ add_failure options key last (add_failures options key ts m)
      add_failures-snoc [] m = refl
      add_failures-snoc (t ∷ ts) m = add_failures-snoc ts (add_failure options key t m)
