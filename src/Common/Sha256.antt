-- ===== src/Common/Sha256.antt =====
-- sha256.h and sha256.cpp: digests as hexadecimal text. `std::stoi(s, &pos, 16)` is written out for
-- the strings of at most two characters that the source hands it: leading white space, one sign,
-- digits. (A prefix `0x` would need a third character.)
pub mod Hex
pub mod Lenient
pub mod Stream
use microsoft.Base.{
  ℕ, zero, suc, ◌+◌, ◌-◌, ◌*◌, ◌/◌, ◌%◌, ◌≡◌, Bool, true, false, not, ◌&&◌, ◌||◌, Option, none,
  some, List, [], ◌∷◌, ◌++◌, Bytes, length, take, drop, ltb, leb, ◌==◌, if◌then◌else◌,
}
use microsoft.Common.Result.{Result, ok, err, ◌>>=◌}

pub data HashError : Type 0 where
  invalid_hex_length invalid_hex_character : HashError

-- The character of a number below 16, as `std::hex` prints it.
unfoldable pub hex_digit : ℕ → ℕ
hex_digit n = if ltb n 10 then b'0' + n else b'a' + (n - 10)

-- `oss << std::hex << std::setw(2) << std::setfill('0') << b` for a byte `b`.
unfoldable pub print_byte : ℕ → Bytes
unfolding hex_digit
print_byte b =
    if ltb b 16 then b'0' ∷ hex_digit b ∷ [] else hex_digit (b / 16) ∷ hex_digit (b % 16) ∷ []

unfoldable pub to_hex_string : Bytes → Bytes
to_hex_string [] = []
to_hex_string (b ∷ digest) = print_byte b ++ to_hex_string digest

unfoldable pub hex_value : ℕ → Option ℕ
hex_value c =
    if leb b'0' c && leb c b'9'
    then some (c - b'0')
    else if leb b'a' c && leb c b'f'
    then some (c - b'a' + 10)
    else if leb b'A' c && leb c b'F'
    then some (c - b'A' + 10)
    else none

unfoldable pub is_space : ℕ → Bool
is_space c = c == b' ' || (leb 9 c && leb c 13)

-- The digits at the front: their value, and how many characters were read.
unfoldable pub read_digits : ℕ → ℕ → Bytes → ℕ × ℕ
read_digits v pos [] = (v, pos)
read_digits v pos (c ∷ s) = elim (hex_value c) [
  | none ↦ (v, pos)
  | some d ↦ read_digits (v * 16 + d) (pos + 1) s
]

-- The result of `std::stoi`: `none` if it throws, else the sign, the magnitude and `pos`.
abbrev finish : Bool → ℕ → ℕ × ℕ → Option (Bool × ℕ × ℕ)
finish negative start (v, pos) = if pos == start then none else some (negative, v, pos)

unfoldable pub read_signed : ℕ → Bytes → Option (Bool × ℕ × ℕ)
unfolding read_digits
read_signed pos [] = none
read_signed pos (c ∷ s) =
    if c == b'-'
    then finish true (pos + 1) (read_digits 0 (pos + 1) s)
    else if c == b'+'
    then finish false (pos + 1) (read_digits 0 (pos + 1) s)
    else finish false pos (read_digits 0 pos (c ∷ s))

unfoldable pub stoi_hex : ℕ → Bytes → Option (Bool × ℕ × ℕ)
unfolding read_signed
stoi_hex pos [] = none
stoi_hex pos (c ∷ s) = if is_space c then stoi_hex (pos + 1) s else read_signed pos (c ∷ s)

-- `static_cast<std::byte>` of the number, which drops all but the low eight bits.
unfoldable pub to_byte : Bool → ℕ → ℕ
to_byte negative v = if negative then (256 - v % 256) % 256 else v % 256

unfoldable pub parse_byte : Bytes → Result ℕ HashError
unfolding stoi_hex to_byte
parse_byte byte_str = elim (stoi_hex 0 byte_str) [
  | none ↦ err invalid_hex_character
  | some (negative, v, pos) ↦
      if not (pos == 2) then err invalid_hex_character else ok (to_byte negative v)
]

-- The loop of `FromHexString`, by the rounds left and the text from `hex.substr(i * 2)` on.
unfoldable pub parse_bytes : ℕ → Bytes → Result Bytes HashError
parse_bytes zero hex = ok []
parse_bytes (suc rounds) hex = do
  b ← parse_byte (take 2 hex)
  digest ← parse_bytes rounds (drop 2 hex)
  ok (b ∷ digest)

unfoldable pub from_hex_string : Bytes → Result Bytes HashError
unfolding parse_bytes
from_hex_string hex = if not (length hex == 64) then err invalid_hex_length else parse_bytes 32 hex
