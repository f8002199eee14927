-- ===== src/Common/Dict/Rebuild.antt =====
-- A dictionary made of a list by `index_by`, and one whose values are replaced in place.
use mathlib.Core.Path.{◌≡◌, refl, ap, ◌∙◌, sym}
use mathlib.Core.Bool.{Bool, true, false}
use mathlib.Core.Option.{none}
use mathlib.Core.List.{List, [], ◌∷◌, ◌++◌, map, append-nil, append_assoc}
use native.Mathlib.Omega.{arith}
use Prim.Native.String.{String}
use text.Mathlib.Text.{◌==◌}
use text.Mathlib.TextEquality.{eq_iff}
use nexus_workflow.Common.Tests.{if◌then◌else◌, is_some}
use nexus_workflow.Common.Lists.{includes, filter, find, includes_congr}
use nexus_workflow.Common.Sets.{Distinct}
use nexus_workflow.Common.Dict.{Dict, lookup, insert, values, keys, index_by, lookup-insert}
use nexus_workflow.Common.Dict.Keys.{includes-keys-insert, Keyed}

module _ {ℓ} {V : Type ℓ} where
  values-insert-absent :
      (k : String) (v : V) (m : Dict V)
      → includes (keys m) k ≡ false
      → values (insert k v m) ≡ values m ++ v ∷ []
  values-insert-absent k v [] h = refl
  values-insert-absent k v ((j, w) ∷ m) h = ground (arith, values-insert-absent k v m)

  values-index_by-disjoint :
      (key : V → String) (acc : Dict V) (xs : List V)
      → Distinct (map key xs)
      → ((y : String) → includes (map key xs) y ≡ true → includes (keys acc) y ≡ false)
      → values (index_by key acc xs) ≡ values acc ++ xs
  values-index_by-disjoint key acc [] d h = sym (append-nil (values acc))
  values-index_by-disjoint key acc (x ∷ xs) d h =
      values-index_by-disjoint key (insert (key x) x acc) xs d.1 (λ y m. ground (
        arith,
        includes-keys-insert (key x) y x acc,
        h y,
        eq_iff (key x) y,
        includes_congr (map key xs) (key x) y,
      ))
      ∙ ap (λ l. l ++ xs)
          (values-insert-absent (key x) x acc (ground (arith, h (key x), eq_iff (key x) (key x))))
      ∙ append_assoc (values acc) (x ∷ []) xs

  -- A list whose keys are distinct is what its dictionary holds.
  pub values-index_by :
      (key : V → String) (xs : List V) → Distinct (map key xs) → values (index_by key [] xs) ≡ xs
  values-index_by key xs d = values-index_by-disjoint key [] xs d (λ y h. refl)

  index_by-cons :
      (key : V → String) (k : String) (w : V) (m : Dict V) (xs : List V)
      → includes (map key xs) k ≡ false
      → index_by key ((k, w) ∷ m) xs ≡ (k, w) ∷ index_by key m xs
  index_by-cons key k w m [] h = refl
  index_by-cons key k w m (x ∷ xs) h =
      ground
        (arith, index_by-cons key k w (insert (key x) x m) xs, eq_iff k (key x), eq_iff (key x) k)

  includes-replaced :
      (key : V → String) (g : V → V) (p : V → Bool) (m : Dict V) (k : String)
      → ((v : V) → key (g v) ≡ key v)
      → Keyed key m
      → includes (keys m) k ≡ false
      → includes (map key (map g (filter p (values m)))) k ≡ false
  includes-replaced key g p [] k e h n = refl
  includes-replaced key g p ((j, v) ∷ m) k e h n =
      ground (arith, includes-replaced key g p m k e h.1, e v)

  -- When the values that pass a test are put back changed, under their own keys, all stay in place.
  pub values-replaced :
      (key : V → String) (g : V → V) (p : V → Bool) (m : Dict V)
      → ((v : V) → key (g v) ≡ key v)
      → Keyed key m
      → Distinct (keys m)
      → values (index_by key m (map g (filter p (values m))))
        ≡ map (λ v. if p v then g v else v) (values m)
  values-replaced key g p [] e h d = refl
  values-replaced key g p ((j, v) ∷ m) e h d = ground (
    arith,
    values-replaced key g p m e h.1 d.1,
    e v,
    eq_iff j (key (g v)),
    includes-replaced key g p m j e h.1 d.0,
    index_by-cons key j v m (map g (filter p (values m))),
    index_by-cons key j (g v) m (map g (filter p (values m))),
  )

  find-absent :
      (key : V → String) (k : String) (xs : List V)
      → includes (map key xs) k ≡ false
      → find (λ x. key x == k) xs ≡ none
  find-absent key k [] h = refl
  find-absent key k (x ∷ xs) h = ground (arith, find-absent key k xs)

  -- What is found under a key in the dictionary of a list with distinct keys.
  pub lookup-index_by :
      (key : V → String) (acc : Dict V) (xs : List V) (k : String)
      → Distinct (map key xs)
      → lookup k (index_by key acc xs)
        ≡ (if is_some (find (λ x. key x == k) xs) then find (λ x. key x == k) xs else lookup k acc)
  lookup-index_by key acc [] k d = refl
  lookup-index_by key acc (x ∷ xs) k d =
      lookup-index_by key (insert (key x) x acc) xs k d.1
      ∙ ground (
        arith,
        lookup-insert (key x) k x acc,
        find-absent key (key x) xs d.0,
        eq_iff (key x) k,
        find_congr (key x) k,
      )
    where
      find_congr : (a b : String) → a ≡ b → find (λ x. key x == a) xs ≡ find (λ x. key x == b) xs
      find_congr a b e = ap (λ c. find (λ x. key x == c) xs) e
