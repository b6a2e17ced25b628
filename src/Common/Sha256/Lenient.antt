-- ===== src/Common/Sha256/Lenient.antt =====
-- sha256.cpp, `FromHexString`: what `std::stoi` makes it take beyond hexadecimal text.
use microsoft.Base.{ℕ, ◌-◌, ◌%◌, ◌<◌, ◌≡◌, refl, [], ◌∷◌, Bytes, length, arith}
use microsoft.Common.Result.{ok}
use microsoft.Common.Sha256.{
  hex_digit, read_digits, is_space, parse_byte, parse_bytes, from_hex_string,
}
use microsoft.Common.Sha256.Hex.{hex_value-hex_digit, lower_hex-Reads, IsLowerHex}

parse_byte_minus : (n : ℕ) → n < 16 → parse_byte (b'-' ∷ hex_digit n ∷ []) ≡ ok ((256 - n) % 256)
unfolding parse_byte read_digits is_space
parse_byte_minus n h = ground (arith, hex_value-hex_digit n h)

-- A minus sign and one digit pass for a byte, in front of any 62 lowercase hexadecimal characters:
-- the text is accepted as a digest, whose first byte is the negated digit modulo 256.
from_hex_string_minus :
    (n : ℕ) (rest : Bytes)
    → n < 16
    → IsLowerHex rest
    → length rest ≡ 62
    → (digest : Bytes) × (from_hex_string (b'-' ∷ hex_digit n ∷ rest)
        ≡ ok (((256 - n) % 256) ∷ digest))
unfolding from_hex_string parse_bytes
from_hex_string_minus n rest h lower len =
    let (digest, parsed, bytes, size, printed) = lower_hex-Reads 31 rest lower len in
    (digest, rw (len, parse_byte_minus n h, parsed) refl)
