-- ===== src/Common/Tests.antt =====
-- Boolean tests, `if`, and the truth value of an optional text.
use Prim.Native.Nat.{ℕ, compare, Ordering}
use Prim.Native.String.{String}
use mathlib.Core.Path.{◌≡◌, refl}
use mathlib.Core.Logic.{◌⊎◌, inl, inr}
use mathlib.Core.Bool.{Bool, true, false, not}
use mathlib.Core.Option.{Option, none, some}
use text.Mathlib.Text.{◌==◌}

abbrev pub ltb : ℕ → ℕ → Bool
ltb a b = elim (compare a b) [ Ordering.lt ↦ true | _ ↦ false ]

abbrev pub leb : ℕ → ℕ → Bool
leb a b = elim (compare a b) [ Ordering.gt ↦ false | _ ↦ true ]

abbrev pub eqb : ℕ → ℕ → Bool
eqb a b = elim (compare a b) [ Ordering.eq ↦ true | _ ↦ false ]

infix 1 if◌then◌else◌
abbrev pub if◌then◌else◌ {ℓ} : {A : Type ℓ} → Bool → A → A → A
if true then x else y = x
if false then x else y = y

pub Bool-cases : (b : Bool) → (b ≡ true) ⊎ (b ≡ false)
Bool-cases true = inl refl
Bool-cases false = inr refl

pub Option-cases {ℓ} : {A : Type ℓ} (o : Option A) → (o ≡ none) ⊎ ((a : A) × (o ≡ some a))
Option-cases none = inl refl
Option-cases (some a) = inr (a, refl)

-- JavaScript's `o?.f ?? d`: the two cases of an optional value.
abbrev pub case_option {ℓ κ} : {A : Type ℓ} {B : Type κ} → Option A → B → (A → B) → B
case_option none d f = d
case_option (some a) d f = f a

abbrev pub is_some {ℓ} : {A : Type ℓ} → Option A → Bool
is_some none = false
is_some (some a) = true

-- JavaScript's `o ?? d`.
abbrev pub or_else {ℓ} : {A : Type ℓ} → Option A → A → A
or_else none d = d
or_else (some a) d = a

-- The value of `if (o)` for a text that may be undefined: the empty text is false too.
abbrev pub truthy : Option String → Bool
truthy none = false
truthy (some s) = not (s == "")

-- JavaScript's `o === s` for a text that may be undefined.
abbrev pub is_text : Option String → String → Bool
is_text none s = false
is_text (some t) s = t == s

-- JavaScript's `o === p` for two such.
abbrev pub same_text : Option String → Option String → Bool
same_text none none = true
same_text (some t) (some s) = t == s
same_text _ _ = false

-- What holds in both cases of an optional value.
pub case_option-elim {ℓ κ μ} :
    {A : Type ℓ} {B : Type κ} (P : B → Type μ) (o : Option A) (d : B) (f : A → B)
    → (o ≡ none → P d)
    → ((a : A) → o ≡ some a → P (f a))
    → P (case_option o d f)
case_option-elim P none d f h k = h refl
case_option-elim P (some a) d f h k = k a refl
