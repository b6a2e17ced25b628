-- ===== src/Common/Sha256/Hex.antt =====
-- sha256.cpp, `ToHexString` and `FromHexString`: lowercase text and digests correspond.
use microsoft.Base.{
  ℕ, zero, suc, ◌+◌, ◌-◌, ◌*◌, ◌/◌, ◌%◌, ◌<◌, ◌≡◌, refl, ap, Bool, true, false, ◌==◌, ◌&&◌, ◌||◌,
  [], ◌∷◌, Bytes, AreBytes, All, length, leb, if◌then◌else◌, arith, some,
}
use microsoft.Common.Result.{ok}
use microsoft.Common.Sha256.{
  hex_digit, print_byte, to_hex_string, hex_value, is_space, read_digits, parse_byte, parse_bytes,
}

-- The characters 0 to 9 and a to f.
abbrev pub is_lower_hex : ℕ → Bool
is_lower_hex c = (leb b'0' c && leb c b'9') || (leb b'a' c && leb c b'f')

abbrev pub IsLowerHex : Bytes → Type 0
IsLowerHex = All (λ c. is_lower_hex c ≡ true)

pub hex_digit-is_lower_hex : (n : ℕ) → n < 16 → is_lower_hex (hex_digit n) ≡ true
unfolding hex_digit
hex_digit-is_lower_hex n h = ground arith

-- A lowercase character is the digit of a number below 16.
nibble : ℕ → ℕ
nibble c = if leb c b'9' then c - b'0' else c - b'a' + 10

pub lower_hex_digit : (c : ℕ) → is_lower_hex c ≡ true → (n : ℕ) × (n < 16) × (c ≡ hex_digit n)
unfolding hex_digit nibble
lower_hex_digit c h = (nibble c, ground arith, ground arith)

-- What the reader asks of a printed digit.
pub hex_value-hex_digit : (n : ℕ) → n < 16 → hex_value (hex_digit n) ≡ some n
unfolding hex_value hex_digit
hex_value-hex_digit n h = ground arith

is_space-hex_digit : (n : ℕ) → n < 16 → is_space (hex_digit n) ≡ false
unfolding is_space hex_digit
is_space-hex_digit n h = ground arith

hex_digit-not_sign :
    (n : ℕ) → n < 16 → ((hex_digit n == b'-') ≡ false) × ((hex_digit n == b'+') ≡ false)
unfolding hex_digit
hex_digit-not_sign n h = ground arith

pub parse_byte_digits :
    (m n : ℕ) → m < 16 → n < 16 → parse_byte (hex_digit m ∷ hex_digit n ∷ []) ≡ ok (m * 16 + n)
unfolding parse_byte read_digits
parse_byte_digits m n hm hn = ground (
  arith,
  hex_value-hex_digit m hm,
  hex_value-hex_digit n hn,
  is_space-hex_digit m hm,
  hex_digit-not_sign m hm,
)

pub print_byte_digits :
    (m n : ℕ) → m < 16 → n < 16 → print_byte (m * 16 + n) ≡ hex_digit m ∷ hex_digit n ∷ []
unfolding print_byte hex_digit
print_byte_digits m n hm hn = ground arith

pub print_byte_split :
    (b : ℕ) → b < 256 → print_byte b ≡ hex_digit (b / 16) ∷ hex_digit (b % 16) ∷ []
unfolding print_byte hex_digit
print_byte_split b h = ground arith

pub parse_bytes-to_hex_string :
    (digest : Bytes)
    → AreBytes digest
    → parse_bytes (length digest) (to_hex_string digest) ≡ ok digest
unfolding parse_bytes to_hex_string
parse_bytes-to_hex_string [] h = refl
parse_bytes-to_hex_string (b ∷ digest) h =
    rw
      (
        print_byte_split b h.0,
        parse_byte_digits (b / 16) (b % 16) (omega arith) (omega arith),
        parse_bytes-to_hex_string digest h.1,
      )
      (ap (λ v. ok (v ∷ digest)) (omega arith))

pub length-to_hex_string :
    (digest : Bytes) → AreBytes digest → length (to_hex_string digest) ≡ 2 * length digest
unfolding to_hex_string
length-to_hex_string [] h = refl
length-to_hex_string (b ∷ digest) h =
    rw (print_byte_split b h.0) (omega (arith, length-to_hex_string digest h.1))

pub to_hex_string-IsLowerHex :
    (digest : Bytes) → AreBytes digest → IsLowerHex (to_hex_string digest)
unfolding to_hex_string
to_hex_string-IsLowerHex [] h = tt
to_hex_string-IsLowerHex (b ∷ digest) h = rw (print_byte_split b h.0) (
  hex_digit-is_lower_hex (b / 16) (omega arith),
  (hex_digit-is_lower_hex (b % 16) (omega arith), to_hex_string-IsLowerHex digest h.1),
)

-- What `parse_bytes` gives for lowercase text: the digest that prints as this text.
abbrev pub Reads : ℕ → Bytes → Type 0
Reads rounds hex =
    (digest : Bytes) × (parse_bytes rounds hex ≡ ok digest)
    × AreBytes digest
    × (length digest ≡ rounds)
    × (to_hex_string digest ≡ hex)

Reads-pair :
    (rounds : ℕ) (c d : ℕ) (hex : Bytes)
    → is_lower_hex c ≡ true
    → is_lower_hex d ≡ true
    → Reads rounds hex
    → Reads (suc rounds) (c ∷ d ∷ hex)
unfolding parse_bytes to_hex_string
Reads-pair rounds c d hex hc hd (digest, parsed, bytes, len, printed) =
    let (m, hm, em) = lower_hex_digit c hc in
    let (n, hn, en) = lower_hex_digit d hd in
    (
      (m * 16 + n) ∷ digest,
      rw (em, en, parse_byte_digits m n hm hn, parsed) refl,
      (omega arith, bytes),
      omega arith,
      rw (print_byte_digits m n hm hn, printed, em, en) refl,
    )

pub lower_hex-Reads :
    (rounds : ℕ) (hex : Bytes) → IsLowerHex hex → length hex ≡ 2 * rounds → Reads rounds hex
unfolding parse_bytes to_hex_string
lower_hex-Reads zero [] h e = ([], refl, tt, refl, refl)
lower_hex-Reads zero (c ∷ hex) h e = absurd (omega arith)
lower_hex-Reads (suc rounds) [] h e = absurd (omega arith)
lower_hex-Reads (suc rounds) (c ∷ []) h e = absurd (omega arith)
lower_hex-Reads (suc rounds) (c ∷ d ∷ hex) h e =
    Reads-pair rounds c d hex h.0 h.1.0 (lower_hex-Reads rounds hex h.1.1 (omega arith))
