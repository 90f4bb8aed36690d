-- ===== src/Chain/Words.antt =====
-- utils/func.go: texts and numbers as words of 32 bytes. An array [32]byte is a list of 32 numbers.
use rappa_master.Base.{
  ℕ, zero, suc, ◌-◌, ◌%◌, ◌≤◌, ◌≡◌, refl, ap, ◌<>◌, String, List, [], ◌∷◌, ◌++◌, map, length, drop,
  arith, leb, if◌then◌else◌,
}
use rappa_master.Base.Bytes.{Bytes, trim_right}
use rappa_master.Merkle.{hex}

-- copy(b[:], s), for a zeroed array b of this many bytes.
unfoldable pub copied : (size : ℕ) → Bytes → Bytes
copied zero s = []
copied (suc size) [] = 0 ∷ copied size []
copied (suc size) (b ∷ s) = b ∷ copied size s

unfoldable pub string_to_bytes32 : Bytes → Bytes
unfolding copied
string_to_bytes32 s = copied 32 s

-- BigIntToBytes32, of the bytes of the number, the highest first.
unfoldable pub big_int_to_bytes32 : Bytes → Bytes
unfolding copied
big_int_to_bytes32 b =
    if leb (length b) 32 then copied (32 - length b) [] ++ b else drop (length b - 32) b

unfoldable pub int_to_bytes32 : ℕ → Bytes
unfolding copied
int_to_bytes32 i = copied 31 [] ++ (i % 256) ∷ []

unfoldable pub flatten_byte32_slice : List Bytes → Bytes
flatten_byte32_slice [] = []
flatten_byte32_slice (v ∷ arr) = v ++ flatten_byte32_slice arr

abbrev pub trim_zero : Bytes → Bytes
trim_zero b = trim_right b

abbrev pub hex_list : List Bytes → List String
hex_list bs_list = map (λ bs. "0x" <> hex bs) bs_list

abbrev pub bytes32_list_to_strings : List Bytes → List Bytes
bytes32_list_to_strings words = map (λ v. trim_right v) words

pub length-copied : (size : ℕ) (s : Bytes) → length (copied size s) ≡ size
unfolding copied
length-copied zero s = refl
length-copied (suc size) [] = ap suc (length-copied size [])
length-copied (suc size) (b ∷ s) = ap suc (length-copied size s)

trim_right-copied-nil : (size : ℕ) → trim_right (copied size []) ≡ []
unfolding copied trim_right
trim_right-copied-nil zero = refl
trim_right-copied-nil (suc size) = rw (trim_right-copied-nil size) refl

-- A text that fits keeps all but its zero bytes at the end.
pub trim_right-copied :
    (size : ℕ) (s : Bytes) → length s ≤ size → trim_right (copied size s) ≡ trim_right s
unfolding copied trim_right
trim_right-copied zero [] h = refl
trim_right-copied zero (b ∷ s) h = absurd (omega (arith, h))
trim_right-copied (suc size) [] h = trim_right-copied-nil (suc size)
trim_right-copied (suc size) (b ∷ s) h = rw (trim_right-copied size s (omega (arith, h))) refl

-- A text that is too long loses all behind the size.
pub copied-append :
    (size : ℕ) (front s t : Bytes)
    → size ≤ length front
    → copied size (front ++ s) ≡ copied size (front ++ t)
unfolding copied
copied-append zero front s t h = refl
copied-append (suc size) [] s t h = absurd (omega (arith, h))
copied-append (suc size) (b ∷ front) s t h =
    ap (λ r. b ∷ r) (copied-append size front s t (omega (arith, h)))
