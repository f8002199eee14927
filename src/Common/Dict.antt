-- ===== src/Common/Dict.antt =====
-- A JavaScript `Map` or object with text keys: its entries in the order of insertion.
pub mod Keys
pub mod Rebuild
use mathlib.Core.Path.{◌≡◌, refl}
use mathlib.Core.Bool.{true, false}
use mathlib.Core.Option.{Option, none, some}
use mathlib.Core.List.{List, [], ◌∷◌, ◌++◌, map}
use native.Mathlib.Omega.{arith}
use Prim.Native.String.{String}
use text.Mathlib.Text.{◌==◌}
use text.Mathlib.TextEquality.{eq_iff}
use nexus_workflow.Common.Tests.{if◌then◌else◌, is_some}
use nexus_workflow.Common.Lists.{includes}

abbrev pub Dict {ℓ} : Type ℓ → Type ℓ
Dict V = List (String × V)

module _ {ℓ} {V : Type ℓ} where
  -- `m.get(k)`
  abbrev pub lookup : String → Dict V → Option V
  lookup k [] = none
  lookup k ((j, v) ∷ m) = if j == k then some v else lookup k m

  -- `m.set(k, v)`: a key that is there keeps its place.
  abbrev pub insert : String → V → Dict V → Dict V
  insert k v [] = (k, v) ∷ []
  insert k v ((j, w) ∷ m) = if j == k then (j, v) ∷ m else (j, w) ∷ insert k v m

  -- `m.delete(k)`
  abbrev pub erase : String → Dict V → Dict V
  erase k [] = []
  erase k ((j, w) ∷ m) = if j == k then m else (j, w) ∷ erase k m

  -- `[...m.values()]`
  abbrev pub values : Dict V → List V
  values m = map (λ e. e.1) m

  abbrev pub keys : Dict V → List String
  keys m = map (λ e. e.0) m

  -- `Object.assign(target, source)`, and `{ ...target, ...source }`
  abbrev pub assign : Dict V → Dict V → Dict V
  assign target [] = target
  assign target ((k, v) ∷ source) = assign (insert k v target) source

  -- `new Map(xs.map(x => [key(x), x]))`, from a map that has been begun.
  abbrev pub index_by : (V → String) → Dict V → List V → Dict V
  index_by key acc [] = acc
  index_by key acc (x ∷ xs) = index_by key (insert (key x) x acc) xs

  pub lookup-insert :
      (k j : String) (v : V) (m : Dict V)
      → lookup j (insert k v m) ≡ (if k == j then some v else lookup j m)
  lookup-insert k j v [] = refl
  lookup-insert k j v ((i, w) ∷ m) =
      ground (arith, eq_iff k j, eq_iff i k, eq_iff i j, lookup-insert k j v m)

  pub includes-keys : (k : String) (m : Dict V) → includes (keys m) k ≡ is_some (lookup k m)
  includes-keys k [] = refl
  includes-keys k ((j, v) ∷ m) = ground (arith, includes-keys k m)

  -- The last entry of `m` at `k`, or else `d`.
  abbrev pub last_lookup : String → Dict V → Option V → Option V
  last_lookup k [] d = d
  last_lookup k ((j, v) ∷ m) d = last_lookup k m (if j == k then some v else d)

  pub lookup-assign :
      (k : String) (target source : Dict V)
      → lookup k (assign target source) ≡ last_lookup k source (lookup k target)
  lookup-assign k target [] = refl
  lookup-assign k target ((j, v) ∷ source) =
      rw (lookup-assign k (insert j v target) source, lookup-insert j k v target)

  pub keys-insert-present :
      (k : String) (v : V) (m : Dict V) → includes (keys m) k ≡ true → keys (insert k v m) ≡ keys m
  keys-insert-present k v [] h = ground arith
  keys-insert-present k v ((j, w) ∷ m) h = ground (arith, keys-insert-present k v m)

  pub keys-insert-absent :
      (k : String) (v : V) (m : Dict V)
      → includes (keys m) k ≡ false
      → keys (insert k v m) ≡ keys m ++ k ∷ []
  keys-insert-absent k v [] h = refl
  keys-insert-absent k v ((j, w) ∷ m) h = ground (arith, keys-insert-absent k v m)
