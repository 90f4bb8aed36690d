-- ===== src/Base/Bytes.antt =====
-- What the program uses of Go's byte strings: the bytes of a text, encoding/hex, strings.TrimRight of
-- zero bytes, and comparison.
use Prim.Native.Nat.{ℕ, ◌+◌, ◌-◌, ◌*◌, ◌/◌, ◌%◌}
use Prim.Native.Char.{code}
use Prim.Native.String.{String}
use mathlib.Core.Path.{◌≡◌}
use mathlib.Core.Logic.{◌↔◌}
use mathlib.Core.Bool.{Bool, true, false, ◌&&◌}
use mathlib.Core.Option.{Option, none, some}
use mathlib.Core.List.{List, [], ◌∷◌, ◌++◌}
use native.Mathlib.Omega.{arith}
use rappa_master.Base.Tests.{ltb, leb, nat_beq, if◌then◌else◌, Comparable}

abbrev pub Bytes : Type 0
Bytes = List ℕ

-- The UTF-8 code of a code point.
abbrev utf8 : ℕ → Bytes
utf8 c =
    if ltb c 0x80
    then c ∷ []
    else if ltb c 0x800
    then (0xC0 + c / 64) ∷ (0x80 + c % 64) ∷ []
    else if ltb c 0x10000
    then (0xE0 + c / 4096) ∷ (0x80 + c / 64 % 64) ∷ (0x80 + c % 64) ∷ []
    else (0xF0 + c / 262144) ∷ (0x80 + c / 4096 % 64) ∷ (0x80 + c / 64 % 64) ∷ (0x80 + c % 64) ∷ []

-- []byte(s)
unfoldable pub bytes_of : String → Bytes
bytes_of String.[] = []
bytes_of (String.◌∷◌ c s) = utf8 (code c) ++ bytes_of s

abbrev pub hex_value : ℕ → Option ℕ
hex_value c =
    if leb b'0' c && leb c b'9'
    then some (c - b'0')
    else if leb b'a' c && leb c b'f'
    then some (c - b'a' + 10)
    else if leb b'A' c && leb c b'F'
    then some (c - b'A' + 10)
    else none

-- hex.DecodeString, with `none` for its errors.
unfoldable pub decode_string : Bytes → Option Bytes
decode_string [] = some []
decode_string (a ∷ []) = none
decode_string (a ∷ b ∷ s) = elim (hex_value a) [
  | none ↦ none
  | some high ↦ elim (hex_value b) [
    | none ↦ none
    | some low ↦ elim (decode_string s) [
      | none ↦ none
      | some bytes ↦ some ((16 * high + low) ∷ bytes)
    ]
  ]
]

-- strings.TrimRight(s, "\x00")
unfoldable pub trim_right : Bytes → Bytes
trim_right [] = []
trim_right (b ∷ s) = elim (trim_right s) [
  | [] ↦ if nat_beq b 0 then [] else b ∷ []
  | c ∷ rest ↦ b ∷ c ∷ rest
]

abbrev pub bytes_beq : Bytes → Bytes → Bool
bytes_beq [] [] = true
bytes_beq [] (b ∷ t) = false
bytes_beq (a ∷ s) [] = false
bytes_beq (a ∷ s) (b ∷ t) = nat_beq a b && bytes_beq s t

pub bytes_beq_iff : (s t : Bytes) → (bytes_beq s t ≡ true) ↔ (s ≡ t)
bytes_beq_iff [] [] = ground arith
bytes_beq_iff [] (b ∷ t) = ground arith
bytes_beq_iff (a ∷ s) [] = ground arith
bytes_beq_iff (a ∷ s) (b ∷ t) = ground (arith, bytes_beq_iff s t)

instance abbrev pub bytes_eq : Comparable Bytes
bytes_eq = record { same = bytes_beq; same_iff = bytes_beq_iff }
