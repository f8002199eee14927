-- ===== src/App/LoginThrottle/Admission.antt =====
-- `check` and `begin` of LoginThrottle.ts (nexus-workflow-app/src/auth), compared.
use nexus_workflow.Common.{
  ℕ, ◌-◌, ◌≤◌, ◌<◌, String, true, false, not, none, [], ◌∷◌, ◌≡◌, refl, arith, case_option-elim,
  length, length-filter-le, ◌⊎◌, Bool-cases, inl, inr,
}
use nexus_workflow.Common.Dict.{lookup}
use nexus_workflow.App.LoginThrottle.{
  LoginThrottleOptions, Entries, ThrottleResult, allowed, refused, max_keys, is_stale,
  can_make_room, drop_stale, drop_unlocked, make_room, check, begin_allowed, begin_checked, begin,
}
use nexus_workflow.App.LoginThrottle.Table.{length-drop_unlocked-le}

module _ (options : LoginThrottleOptions) (now : ℕ) where
  -- A table that has an unlocked entry is shorter without the stale ones, or else has an unlocked one left.
  drop_stale-shrinks :
      (m : Entries)
      → can_make_room options now m ≡ true
      → (length (drop_stale options now m) < length m)
        ⊎ (can_make_room options now (drop_stale options now m) ≡ true)
  drop_stale-shrinks [] h = absurd (cc)
  drop_stale-shrinks ((k, e) ∷ m) h =
      ground (arith, drop_stale-shrinks m, length-filter-le (λ x. not (is_stale options x.1 now)) m)

  drop_unlocked-shrinks :
      (size : ℕ) (m : Entries)
      → can_make_room options now m ≡ true
      → max_keys options ≤ size
      → length (drop_unlocked options now size m) < length m
  drop_unlocked-shrinks size [] h u = absurd (cc)
  drop_unlocked-shrinks size ((k, e) ∷ m) h u =
      ground (arith, drop_unlocked-shrinks size m, length-drop_unlocked-le options now (size - 1) m)

  make_room-succeeds :
      (m : Entries)
      → length m ≤ max_keys options
      → can_make_room options now m ≡ true
      → (make_room options now m).0 ≡ true
  unfolding make_room
  make_room-succeeds m h u =
      let live = drop_stale options now m in
      ground (
        arith,
        drop_stale-shrinks m u,
        length-filter-le (λ x. not (is_stale options x.1 now)) m,
        length-drop_unlocked-le options now (length live) live,
        drop_unlocked-shrinks (length live) live,
      )

  -- In a table of at most `maxKeys` keys, `check` and `begin` at the same time give the same answer: an
  -- attempt that `check` would allow is never refused for want of room.
  pub begin-eq-check :
      (key : String) (m : Entries)
      → length m ≤ max_keys options
      → (begin options key now now m).0 ≡ check options key now m
  unfolding begin
  begin-eq-check key m h = by_check (check options key now m) refl
    where
      room :
          lookup key m ≡ none
          → check options key now m ≡ allowed
          → (make_room options now m).0 ≡ true
      room k c = elim (Bool-cases (can_make_room options now m)) [
        | inl can ↦ make_room-succeeds m h can
        | inr cannot ↦ free k c cannot
      ]
        where
          free :
              lookup key m ≡ none
              → check options key now m ≡ allowed
              → can_make_room options now m ≡ false
              → (make_room options now m).0 ≡ true
          free k c cannot = unfold check make_room in ground arith

      starts : check options key now m ≡ allowed → (begin_allowed options key now m).0 ≡ allowed
      starts c =
          unfold begin_allowed in
          case_option-elim {B = ThrottleResult × Entries} (λ x. x.0 ≡ allowed) (lookup key m) _ _
            (λ k. ground (arith, room k c)) (λ v k. refl)

      by_check :
          (r : ThrottleResult)
          → check options key now m ≡ r
          → (begin_checked options r key now m).0 ≡ r
      by_check allowed c = unfold begin_checked in starts c
      by_check (refused t) c = unfold begin_checked in refl
