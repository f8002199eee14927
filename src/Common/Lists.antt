-- ===== src/Common/Lists.antt =====
-- The array methods that the code uses, over Boolean tests and native numbers.
use Prim.Native.Nat.{ℕ, zero, suc, ◌+◌, ◌≤◌}
use Prim.Native.String.{String}
use mathlib.Core.Path.{◌≡◌, refl, ap}
use mathlib.Core.Bool.{Bool, true, false, ◌&&◌, ◌||◌}
use mathlib.Core.Option.{Option, none, some}
use mathlib.Core.List.{List, [], ◌∷◌, ◌++◌}
use native.Mathlib.Omega.{arith}
use text.Mathlib.Text.{◌==◌}
use text.Mathlib.TextEquality.{eq_iff}
use nexus_workflow.Common.Tests.{if◌then◌else◌}

module _ {ℓ} {A : Type ℓ} where
  abbrev pub length : List A → ℕ
  length [] = 0
  length (x ∷ xs) = suc (length xs)

  abbrev pub get_elem? : List A → ℕ → Option A
  get_elem? [] i = none
  get_elem? (x ∷ xs) zero = some x
  get_elem? (x ∷ xs) (suc i) = get_elem? xs i

  -- `xs.filter(p)`
  abbrev pub filter : (A → Bool) → List A → List A
  filter p [] = []
  filter p (x ∷ xs) = let rest = filter p xs in if p x then x ∷ rest else rest

  -- `xs.find(p)`
  abbrev pub find : (A → Bool) → List A → Option A
  find p [] = none
  find p (x ∷ xs) = let rest = find p xs in if p x then some x else rest

  -- `xs.every(p)`
  abbrev pub all : (A → Bool) → List A → Bool
  all p [] = true
  all p (x ∷ xs) = p x && all p xs

  abbrev pub any : (A → Bool) → List A → Bool
  any p [] = false
  any p (x ∷ xs) = p x || any p xs

  -- A statement of every entry.
  abbrev pub All {κ} : (A → Type κ) → List A → Type κ
  All P [] = Unit
  All P (x ∷ xs) = P x × All P xs

  pub length-append : (xs ys : List A) → length (xs ++ ys) ≡ length xs + length ys
  length-append [] ys = omega arith
  length-append (x ∷ xs) ys = omega (arith, length-append xs ys)

  pub all-append : (p : A → Bool) (xs ys : List A) → all p (xs ++ ys) ≡ (all p xs && all p ys)
  all-append p [] ys = refl
  all-append p (x ∷ xs) ys = ground (arith, all-append p xs ys)

  pub all-filter : (p q : A → Bool) (xs : List A) → all p xs ≡ true → all p (filter q xs) ≡ true
  all-filter p q [] h = refl
  all-filter p q (x ∷ xs) h = ground (arith, all-filter p q xs)

  pub length-filter-le : (p : A → Bool) (xs : List A) → length (filter p xs) ≤ length xs
  length-filter-le p [] = omega arith
  length-filter-le p (x ∷ xs) = ground (arith, length-filter-le p xs)

-- `xs.includes(x)` on texts, and a `Set` of texts as the list of its members.
abbrev pub includes : List String → String → Bool
includes [] x = false
includes (y ∷ ys) x = y == x || includes ys x

-- `set.add(x)`: a member that is there keeps its place.
abbrev pub set_add : List String → String → List String
set_add xs x = if includes xs x then xs else xs ++ x ∷ []

-- `new Set(xs)`, from a set that has been begun.
abbrev pub set_from : List String → List String → List String
set_from acc [] = acc
set_from acc (x ∷ xs) = set_from (set_add acc x) xs

abbrev pub to_set : List String → List String
to_set xs = set_from [] xs

pub includes-append :
    (xs ys : List String) (x : String) → includes (xs ++ ys) x ≡ (includes xs x || includes ys x)
includes-append [] ys x = refl
includes-append (y ∷ xs) ys x = ground (arith, includes-append xs ys x)

pub includes_congr : (xs : List String) (x y : String) → x ≡ y → includes xs x ≡ includes xs y
includes_congr xs x y e = ap (includes xs) e

pub includes-set_add :
    (xs : List String) (x y : String) → includes (set_add xs x) y ≡ (includes xs y || x == y)
includes-set_add xs x y =
    ground (arith, includes-append xs (x ∷ []) y, eq_iff x y, includes_congr xs x y)

pub includes-set_from :
    (acc xs : List String) (y : String)
    → includes (set_from acc xs) y ≡ (includes acc y || includes xs y)
includes-set_from acc [] y = ground arith
includes-set_from acc (x ∷ xs) y =
    ground (arith, includes-set_from (set_add acc x) xs y, includes-set_add acc x y)
