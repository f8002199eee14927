-- ===== src/Common/Dict/Keys.antt =====
-- The keys of a dictionary: what the operations do to them, and dictionaries that are keyed by a part
-- of their values.
use mathlib.Core.Path.{◌≡◌, refl}
use mathlib.Core.Bool.{true, false, ◌||◌}
use mathlib.Core.Option.{some}
use mathlib.Core.List.{List, [], ◌∷◌, map}
use native.Mathlib.Omega.{arith}
use Prim.Native.String.{String}
use text.Mathlib.Text.{◌==◌}
use text.Mathlib.TextEquality.{eq_iff}
use nexus_workflow.Common.Lists.{includes, All}
use nexus_workflow.Common.Sets.{Distinct}
use nexus_workflow.Common.Dict.{Dict, lookup, insert, erase, values, keys, index_by}

module _ {ℓ} {V : Type ℓ} where
  pub includes-keys-insert :
      (k j : String) (v : V) (m : Dict V)
      → includes (keys (insert k v m)) j ≡ (includes (keys m) j || k == j)
  includes-keys-insert k j v [] = ground arith
  includes-keys-insert k j v ((i, w) ∷ m) =
      ground (arith, includes-keys-insert k j v m, eq_iff i k, eq_iff i j, eq_iff k j)

  pub insert-keeps :
      (k j : String) (v : V) (m : Dict V)
      → includes (keys m) j ≡ true
      → includes (keys (insert k v m)) j ≡ true
  insert-keeps k j v m h = ground (arith, includes-keys-insert k j v m)

  pub Distinct-insert :
      (k : String) (v : V) (m : Dict V) → Distinct (keys m) → Distinct (keys (insert k v m))
  Distinct-insert k v [] d = (refl, tt)
  Distinct-insert k v ((j, w) ∷ m) d =
      ground
        (arith, Distinct-insert k v m d.1, includes-keys-insert k j v m, eq_iff j k, eq_iff k j)

  -- Each value stands under its own key.
  abbrev pub Keyed : (V → String) → Dict V → Type 0
  Keyed key m = All (λ e. key e.1 ≡ e.0) m

  pub Keyed-insert :
      (key : V → String) (k : String) (v : V) (m : Dict V)
      → key v ≡ k
      → Keyed key m
      → Keyed key (insert k v m)
  Keyed-insert key k v [] e h = (e, tt)
  Keyed-insert key k v ((j, w) ∷ m) e h = ground (arith, Keyed-insert key k v m e h.1, eq_iff j k)

  pub map-key-values : (key : V → String) (m : Dict V) → Keyed key m → map key (values m) ≡ keys m
  map-key-values key [] h = refl
  map-key-values key ((k, v) ∷ m) h = ground (arith, map-key-values key m h.1)

  pub Keyed-index_by :
      (key : V → String) (acc : Dict V) (xs : List V)
      → Keyed key acc
      → Keyed key (index_by key acc xs)
  Keyed-index_by key acc [] h = h
  Keyed-index_by key acc (x ∷ xs) h =
      Keyed-index_by key (insert (key x) x acc) xs (Keyed-insert key (key x) x acc refl h)

  pub Distinct-index_by :
      (key : V → String) (acc : Dict V) (xs : List V)
      → Distinct (keys acc)
      → Distinct (keys (index_by key acc xs))
  Distinct-index_by key acc [] d = d
  Distinct-index_by key acc (x ∷ xs) d =
      Distinct-index_by key (insert (key x) x acc) xs (Distinct-insert (key x) x acc d)

  pub includes-index_by :
      (key : V → String) (acc : Dict V) (xs : List V) (j : String)
      → includes (keys (index_by key acc xs)) j ≡ (includes (keys acc) j || includes (map key xs) j)
  includes-index_by key acc [] j = ground arith
  includes-index_by key acc (x ∷ xs) j = ground (
    arith,
    includes-index_by key (insert (key x) x acc) xs j,
    includes-keys-insert (key x) j x acc,
  )

  -- A value that is found stands under its key.
  pub key_of_lookup :
      (key : V → String) (k : String) (m : Dict V) (v : V)
      → Keyed key m
      → lookup k m ≡ some v
      → key v ≡ k
  key_of_lookup key k [] v h e = absurd (cc)
  key_of_lookup key k ((j, w) ∷ m) v h e = ground (arith, key_of_lookup key k m v h.1, eq_iff j k)

  includes-keys-erase :
      (k j : String) (m : Dict V)
      → includes (keys m) j ≡ false
      → includes (keys (erase k m)) j ≡ false
  includes-keys-erase k j [] h = h
  includes-keys-erase k j ((i, w) ∷ m) h = ground (arith, includes-keys-erase k j m)

  pub Distinct-erase : (k : String) (m : Dict V) → Distinct (keys m) → Distinct (keys (erase k m))
  Distinct-erase k [] d = d
  Distinct-erase k ((i, w) ∷ m) d =
      ground (arith, Distinct-erase k m d.1, includes-keys-erase k i m d.0)

  pub Keyed-erase :
      (key : V → String) (k : String) (m : Dict V) → Keyed key m → Keyed key (erase k m)
  Keyed-erase key k [] h = h
  Keyed-erase key k ((i, w) ∷ m) h = ground (arith, Keyed-erase key k m h.1)
