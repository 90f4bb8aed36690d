-- ===== src/Base/Int.antt =====
-- Signed integers over the native numbers, and Go's int32: a value is its integer, and an operation
-- wraps its exact result into the range of the type.
use Prim.Native.Nat.{ℕ, suc, ◌+◌, ◌-◌, ◌/◌, ◌%◌, ◌^◌, ◌≤◌, ◌<◌}
use mathlib.Core.Path.{◌≡◌}
use mathlib.Core.Logic.{◌↔◌}
use mathlib.Core.Bool.{Bool, true}
use native.Mathlib.Omega.{arith}
use rappa_master.Base.Tests.{ltb, leb, nat_beq, if◌then◌else◌, Comparable}

-- `negsuc n` is -(n + 1).
pub data ℤ : Type 0 where
  pos : ℕ → ℤ
  negsuc : ℕ → ℤ

abbrev pub pos_part : ℤ → ℕ
pos_part (pos n) = n
pos_part (negsuc n) = 0

abbrev pub neg_part : ℤ → ℕ
neg_part (pos n) = 0
neg_part (negsuc n) = suc n

abbrev pub sub_ℕ : ℕ → ℕ → ℤ
sub_ℕ a b = if leb b a then pos (a - b) else negsuc (b - a - 1)

infixl 65 ◌+ℤ◌ ◌-ℤ◌
infix 50 ◌≤ℤ◌ ◌<ℤ◌
unfoldable pub ◌+ℤ◌ : ℤ → ℤ → ℤ
a +ℤ b = sub_ℕ (pos_part a + pos_part b) (neg_part a + neg_part b)

unfoldable pub ◌-ℤ◌ : ℤ → ℤ → ℤ
a -ℤ b = sub_ℕ (pos_part a + neg_part b) (neg_part a + pos_part b)

abbrev pub ◌≤ℤ◌ : ℤ → ℤ → Type 0
a ≤ℤ b = pos_part a + neg_part b ≤ pos_part b + neg_part a

abbrev pub ◌<ℤ◌ : ℤ → ℤ → Type 0
a <ℤ b = pos_part a + neg_part b < pos_part b + neg_part a

abbrev pub ltb_ℤ : ℤ → ℤ → Bool
ltb_ℤ a b = ltb (pos_part a + neg_part b) (pos_part b + neg_part a)

abbrev pub leb_ℤ : ℤ → ℤ → Bool
leb_ℤ a b = leb (pos_part a + neg_part b) (pos_part b + neg_part a)

abbrev pub int_beq : ℤ → ℤ → Bool
int_beq a b = nat_beq (pos_part a + neg_part b) (pos_part b + neg_part a)

pub int_beq_iff : (a b : ℤ) → (int_beq a b ≡ true) ↔ (a ≡ b)
int_beq_iff a b = ground arith

instance abbrev pub int_eq : Comparable ℤ
int_eq = record { same = int_beq; same_iff = int_beq_iff }

pub +ℤ_parts :
    (a b : ℤ)
    → pos_part (a +ℤ b) + neg_part a + neg_part b ≡ neg_part (a +ℤ b) + pos_part a + pos_part b
unfolding ◌+ℤ◌
+ℤ_parts a b = ground arith

pub -ℤ_parts :
    (a b : ℤ)
    → pos_part (a -ℤ b) + neg_part a + pos_part b ≡ neg_part (a -ℤ b) + pos_part a + neg_part b
unfolding ◌-ℤ◌
-ℤ_parts a b = ground arith

pub eq_of_parts : (a b : ℤ) → pos_part a + neg_part b ≡ pos_part b + neg_part a → a ≡ b
eq_of_parts a b h = ground arith

pub ruleset int_laws = (arith, +ℤ_parts, -ℤ_parts, eq_of_parts)

-- The values of an int32.
abbrev pub IsI32 : ℤ → Type 0
IsI32 a = (pos_part a < 2 ^ 31) × (neg_part a ≤ 2 ^ 31)

abbrev pub word_of : ℤ → ℕ
word_of (pos n) = n % 2 ^ 32
word_of (negsuc n) = 2 ^ 32 - 1 - n % 2 ^ 32

abbrev pub signed_of : ℕ → ℤ
signed_of w = if ltb w (2 ^ 31) then pos w else negsuc (2 ^ 32 - 1 - w)

-- int32(a): the low 32 bits, read as a signed number.
unfoldable pub wrap_i32 : ℤ → ℤ
wrap_i32 a = signed_of (word_of a)

unfoldable pub add_i32 : ℤ → ℤ → ℤ
add_i32 a b = wrap_i32 (a +ℤ b)

unfoldable pub sub_i32 : ℤ → ℤ → ℤ
sub_i32 a b = wrap_i32 (a -ℤ b)

-- int64(a)
unfoldable pub wrap_i64 : ℤ → ℤ
wrap_i64 (pos n) = let w = n % 2 ^ 64 in if ltb w (2 ^ 63) then pos w else negsuc (2 ^ 64 - 1 - w)
wrap_i64 (negsuc n) =
    let w = 2 ^ 64 - 1 - n % 2 ^ 64 in if ltb w (2 ^ 63) then pos w else negsuc (2 ^ 64 - 1 - w)

unfoldable pub add_i64 : ℤ → ℤ → ℤ
add_i64 a b = wrap_i64 (a +ℤ b)

-- Go's `/` and `%` on a positive divisor: the quotient is truncated towards 0.
unfoldable pub div_i32 : ℤ → ℕ → ℤ
div_i32 (pos a) n = pos (a / n)
div_i32 (negsuc a) n = sub_ℕ 0 (suc a / n)

unfoldable pub mod_i32 : ℤ → ℕ → ℤ
mod_i32 (pos a) n = pos (a % n)
mod_i32 (negsuc a) n = sub_ℕ 0 (suc a % n)

pub wrap_i32-IsI32 : (a : ℤ) → IsI32 (wrap_i32 a)
unfolding wrap_i32
wrap_i32-IsI32 a = ground arith

pub wrap_i32_self : (a : ℤ) → IsI32 a → wrap_i32 a ≡ a
unfolding wrap_i32
wrap_i32_self a h = ground arith

pub add_i32-IsI32 : (a b : ℤ) → IsI32 (add_i32 a b)
unfolding add_i32
add_i32-IsI32 a b = wrap_i32-IsI32 (a +ℤ b)

pub sub_i32-IsI32 : (a b : ℤ) → IsI32 (sub_i32 a b)
unfolding sub_i32
sub_i32-IsI32 a b = wrap_i32-IsI32 (a -ℤ b)

pub add_i32_exact : (a b : ℤ) → IsI32 (a +ℤ b) → add_i32 a b ≡ a +ℤ b
unfolding add_i32
add_i32_exact a b h = wrap_i32_self (a +ℤ b) h

pub sub_i32_exact : (a b : ℤ) → IsI32 (a -ℤ b) → sub_i32 a b ≡ a -ℤ b
unfolding sub_i32
sub_i32_exact a b h = wrap_i32_self (a -ℤ b) h

pub pos-add : (a b : ℕ) → pos a +ℤ pos b ≡ pos (a + b)
unfolding ◌+ℤ◌
pos-add a b = ground arith

pub add_i32-pos : (a b : ℕ) → a + b < 2 ^ 31 → add_i32 (pos a) (pos b) ≡ pos (a + b)
unfolding add_i32
add_i32-pos a b h = rw (pos-add a b) (wrap_i32_self (pos (a + b)) (omega arith))

pub +ℤ_assoc : (a b c : ℤ) → (a +ℤ b) +ℤ c ≡ a +ℤ (b +ℤ c)
+ℤ_assoc a b c = omega (
  int_laws,
  +ℤ_parts (a +ℤ b) c,
  +ℤ_parts a (b +ℤ c),
  eq_of_parts ((a +ℤ b) +ℤ c) (a +ℤ (b +ℤ c)),
)

pub wrap_i32-+ℤ : (a b : ℤ) → wrap_i32 (wrap_i32 a +ℤ b) ≡ wrap_i32 (a +ℤ b)
unfolding wrap_i32 ◌+ℤ◌
wrap_i32-+ℤ a b = ground arith
