-- ===== src/Base/Decimal.antt =====
-- Go's `%d` and the digits of `%x` for the numbers that go into texts.
use Prim.Native.Nat.{ℕ, zero, suc, ◌/◌, ◌%◌}
use Prim.Native.String
use Prim.Native.String.{String}
use rappa_master.Base.Tests.{ltb, if◌then◌else◌}
use mathlib.Core.Path.{◌≡◌, refl}
use rappa_master.Base.Int.{ℤ, pos, negsuc}

-- Concatenation of texts.
infixr 60 ◌<>◌
abbrev pub ◌<>◌ : String → String → String
s <> t = String.◌++◌ s t

abbrev digit : ℕ → String
digit n = String.slice "0123456789" n (suc n)

abbrev pub hex_digit : ℕ → String
hex_digit n = String.slice "0123456789abcdef" n (suc n)

-- The fuel is the number of digits at most.
abbrev decimal_upto : (digits : ℕ) → ℕ → String
decimal_upto zero n = ""
decimal_upto (suc k) n =
    let front = decimal_upto k (n / 10) in if ltb n 10 then digit n else front <> digit (n % 10)

-- A number of 64 bits has at most 20 digits.
unfoldable pub decimal : ℤ → String
decimal (pos n) = decimal_upto 20 n
decimal (negsuc n) = "-" <> decimal_upto 20 (suc n)

decimal_test : decimal (negsuc 1029) ≡ "-1030"
unfolding decimal
decimal_test = refl
