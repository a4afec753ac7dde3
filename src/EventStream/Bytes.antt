-- ===== src/EventStream/Bytes.antt =====
-- Byte slices as lists of numbers below 256, with the functions of encoding/binary, hash/crc32 and
-- bytes that eventstream.go calls.
use Prim.Native.Nat.{bit_xor}
use Prim.Native.Char.{code}
use mathlib.Core.List.{foldl}
use cc_relay.Base.{
  ℕ, zero, suc, ◌+◌, ◌*◌, ◌/◌, ◌-◌, ◌%◌, ◌^◌, ◌<◌, ◌≡◌, refl, Bool, true, false, ◌&&◌, String, List,
  [], ◌∷◌, All, ◌==◌, if◌then◌else◌,
}

abbrev pub Bytes : Type 0
Bytes = List ℕ

abbrev pub AreBytes : Bytes → Type 0
AreBytes = All (λ b. b < 256)

-- The bytes of an ASCII text.
unfoldable pub ascii : String → Bytes
ascii String.[] = []
ascii (String.◌∷◌ c s) = code c ∷ ascii s

-- `binary.BigEndian`.
unfoldable pub uint16 : Bytes → ℕ
uint16 (a ∷ b ∷ rest) = a * 256 + b
uint16 _ = 0

unfoldable pub uint32 : Bytes → ℕ
uint32 (a ∷ b ∷ c ∷ d ∷ rest) = ((a * 256 + b) * 256 + c) * 256 + d
uint32 _ = 0

-- `crc32.Checksum` with the reflected Castagnoli polynomial, digit by digit.
crc_digit : ℕ → ℕ
crc_digit crc = if crc % 2 == 1 then bit_xor (crc / 2) 0x82f63b78 else crc / 2

crc_digits : ℕ → ℕ → ℕ
unfolding crc_digit
crc_digits zero crc = crc
crc_digits (suc n) crc = crc_digits n (crc_digit crc)

crc_byte : ℕ → ℕ → ℕ
unfolding crc_digits
crc_byte crc b = crc_digits 8 (bit_xor crc b)

unfoldable pub checksum : Bytes → ℕ
unfolding crc_byte
checksum bytes = bit_xor (foldl crc_byte 0xffffffff bytes) 0xffffffff % 2 ^ 32

-- `uint32` sums and differences.
abbrev pub add_u32 : ℕ → ℕ → ℕ
add_u32 a b = (a + b) % 2 ^ 32

abbrev pub sub_u32 : ℕ → ℕ → ℕ
sub_u32 a b = (a + 2 ^ 32 - b) % 2 ^ 32

unfoldable pub bytes_eq : Bytes → Bytes → Bool
bytes_eq [] [] = true
bytes_eq (x ∷ xs) (y ∷ ys) = (x == y) && bytes_eq xs ys
bytes_eq _ _ = false

check_value : checksum (ascii "123456789") ≡ 0xe3069283
unfolding checksum ascii
check_value = refl
