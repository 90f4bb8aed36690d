-- ===== src/Base/Tests.antt =====
-- Boolean tests on the native numbers, the conditional, and equality as an interface.
use Prim.Native.Nat.{ℕ, ◌≤◌, ◌<◌, compare, Ordering}
use Prim.Native.String.{String}
use mathlib.Core.Path.{◌≡◌, refl}
use mathlib.Core.Logic.{◌↔◌, ◌⊎◌, inl, inr}
use mathlib.Core.Bool.{Bool, true, false}
use mathlib.Core.Option.{Option, none, some}
use native.Mathlib.Omega.{arith}
use text.Mathlib.Text.{◌==◌ as str_eq}
use text.Mathlib.TextEquality.{eq_iff}

abbrev pub ltb : ℕ → ℕ → Bool
ltb a b = elim (compare a b) [ Ordering.lt ↦ true | _ ↦ false ]

abbrev pub leb : ℕ → ℕ → Bool
leb a b = elim (compare a b) [ Ordering.gt ↦ false | _ ↦ true ]

abbrev pub nat_beq : ℕ → ℕ → Bool
nat_beq a b = elim (compare a b) [ Ordering.eq ↦ true | _ ↦ false ]

infix 1 if◌then◌else◌
abbrev pub if◌then◌else◌ {ℓ} : {A : Type ℓ} → Bool → A → A → A
if true then x else y = x
if false then x else y = y

pub ltb→lt : (a b : ℕ) → ltb a b ≡ true → a < b
ltb→lt a b h = ground arith

pub lt→ltb : (a b : ℕ) → a < b → ltb a b ≡ true
lt→ltb a b h = ground arith

pub leb→le : (a b : ℕ) → leb a b ≡ true → a ≤ b
leb→le a b h = ground arith

pub nat_beq_iff : (a b : ℕ) → (nat_beq a b ≡ true) ↔ (a ≡ b)
nat_beq_iff a b = ground arith

pub Bool-cases : (b : Bool) → (b ≡ true) ⊎ (b ≡ false)
Bool-cases true = inl refl
Bool-cases false = inr refl

pub Option-cases {ℓ} : {A : Type ℓ} (o : Option A) → (o ≡ none) ⊎ ((a : A) × (o ≡ some a))
Option-cases none = inl refl
Option-cases (some a) = inr (a, refl)

pub Sum-cases {ℓ κ} :
    {A : Type ℓ} {B : Type κ} (x : A ⊎ B) → ((a : A) × (x ≡ inl a)) ⊎ ((b : B) × (x ≡ inr b))
Sum-cases (inl a) = inl (a, refl)
Sum-cases (inr b) = inr (b, refl)

-- Go's `==` on the types that serve as map keys.
pub record Comparable {ℓ} (A : Type ℓ) : Type ℓ where
  pub same : A → A → Bool
  pub same_iff : (a b : A) → (same a b ≡ true) ↔ (a ≡ b)

infix 50 ◌==◌
abbrev pub ◌==◌ {ℓ} : {A : Type ℓ} ⦃e : Comparable A⦄ → A → A → Bool
◌==◌ ⦃e⦄ = e.same

instance abbrev pub nat_eq : Comparable ℕ
nat_eq = record { same = nat_beq; same_iff = nat_beq_iff }

instance abbrev pub string_eq : Comparable String
string_eq = record { same = str_eq; same_iff = eq_iff }

pub ==_refl {ℓ} : {A : Type ℓ} ⦃e : Comparable A⦄ (a : A) → (a == a) ≡ true
==_refl ⦃e⦄ a = (e.same_iff a a).1 refl

pub ==_ne {ℓ} : {A : Type ℓ} ⦃e : Comparable A⦄ (a b : A) → ¬ (a ≡ b) → (a == b) ≡ false
==_ne ⦃e⦄ a b h = elim (Bool-cases (e.same a b)) [
  | inl same ↦ absurd (h ((e.same_iff a b).0 same))
  | inr other ↦ other
]
