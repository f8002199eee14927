-- ===== src/Common/Sets.antt =====
-- Lists of texts as sets: no repetition, and the size of a subset.
use nexus_workflow.Common.Tests.{if◌then◌else◌}
use nexus_workflow.Common.Lists.{
  length, all, includes, set_add, set_from, to_set, includes-append, includes-set_from,
}
use Prim.Native.Nat.{suc, ◌≤◌}
use Prim.Native.String.{String}
use mathlib.Core.Path.{◌≡◌, refl}
use mathlib.Core.Bool.{Bool, true, false}
use mathlib.Core.List.{List, [], ◌∷◌, ◌++◌}
use native.Mathlib.Omega.{arith}
use text.Mathlib.Text.{◌==◌}
use text.Mathlib.TextEquality.{eq_iff}

-- No text stands twice.
abbrev pub Distinct : List String → Type 0
Distinct [] = Unit
Distinct (x ∷ xs) = (includes xs x ≡ false) × Distinct xs

pub Distinct-snoc :
    (xs : List String) (x : String) → Distinct xs → includes xs x ≡ false → Distinct (xs ++ x ∷ [])
Distinct-snoc [] x d h = (refl, tt)
Distinct-snoc (y ∷ xs) x d h = (
  ground (arith, includes-append xs (x ∷ []) y, eq_iff x y, eq_iff y x),
  Distinct-snoc xs x d.1 (ground arith),
)

pub Distinct-set_add : (xs : List String) (x : String) → Distinct xs → Distinct (set_add xs x)
Distinct-set_add xs x d = ground (arith, Distinct-snoc xs x d)

pub Distinct-set_from : (acc xs : List String) → Distinct acc → Distinct (set_from acc xs)
Distinct-set_from acc [] d = d
Distinct-set_from acc (x ∷ xs) d = Distinct-set_from (set_add acc x) xs (Distinct-set_add acc x d)

-- The list without the first occurrence of a text.
abbrev remove : String → List String → List String
remove x [] = []
remove x (y ∷ ys) = if y == x then ys else y ∷ remove x ys

length-remove :
    (x : String) (ys : List String) → includes ys x ≡ true → length ys ≡ suc (length (remove x ys))
length-remove x [] h = ground arith
length-remove x (y ∷ ys) h = ground (arith, length-remove x ys)

includes-remove :
    (x z : String) (ys : List String)
    → (x == z) ≡ false
    → includes ys z ≡ true
    → includes (remove x ys) z ≡ true
includes-remove x z [] n h = h
includes-remove x z (y ∷ ys) n h = ground (arith, includes-remove x z ys n, eq_iff y x, eq_iff y z)

all-remove :
    (x : String) (xs ys : List String)
    → includes xs x ≡ false
    → all (includes ys) xs ≡ true
    → all (includes (remove x ys)) xs ≡ true
all-remove x [] ys n h = refl
all-remove x (z ∷ xs) ys n h =
    ground (arith, all-remove x xs ys, includes-remove x z ys, eq_iff x z, eq_iff z x)

-- A set whose members all stand in a list is no longer than the list.
pub length-subset :
    (xs ys : List String) → Distinct xs → all (includes ys) xs ≡ true → length xs ≤ length ys
length-subset [] ys d h = omega arith
length-subset (x ∷ xs) ys d h =
    ground (arith, length-subset xs (remove x ys) d.1, all-remove x xs ys d.0, length-remove x ys)

-- The members of `new Set(xs)` stand in a list when those of `xs` do.
pub all-set_add :
    (p : String → Bool) (xs : List String) (x : String)
    → all p xs ≡ true
    → p x ≡ true
    → all p (set_add xs x) ≡ true
all-set_add p xs x h hx = ground (arith, all_snoc xs)
  where
    all_snoc : (ys : List String) → all p ys ≡ true → all p (ys ++ x ∷ []) ≡ true
    all_snoc [] a = ground arith
    all_snoc (y ∷ ys) a = ground (arith, all_snoc ys)

pub all-set_from :
    (p : String → Bool) (acc xs : List String)
    → all p acc ≡ true
    → all p xs ≡ true
    → all p (set_from acc xs) ≡ true
all-set_from p acc [] h k = h
all-set_from p acc (x ∷ xs) h k =
    all-set_from p (set_add acc x) xs (all-set_add p acc x h (ground arith)) (ground arith)

pub includes-to_set : (xs : List String) (y : String) → includes (to_set xs) y ≡ includes xs y
includes-to_set xs y = includes-set_from [] xs y

-- A list of texts is tested by what the test says of each.
pub all-congr :
    (p q : String → Bool) (xs : List String) → ((x : String) → p x ≡ q x) → all p xs ≡ all q xs
all-congr p q [] h = refl
all-congr p q (x ∷ xs) h = ground (arith, h x, all-congr p q xs h)
