-- ===== src/StorageNode/ChunkId.antt =====
-- chunk_id.h and chunk_id.cpp: the name of a chunk, a SHA-256 digest with its lowercase text.
pub mod Parse
pub mod Stripe
use microsoft.Base.{
  ℕ, zero, suc, ◌+◌, ◌*◌, ◌%◌, ◌^◌, ◌≡◌, Bool, true, false, not, ◌&&◌, ◌||◌, List, [], ◌∷◌, Bytes,
  bytes_eq, length, take, leb, ◌==◌, if◌then◌else◌,
}
use Prim.Native.Nat.{bit_or}
use microsoft.Common.Result.{Result, ok, err, ◌>>=◌}
use microsoft.Common.Sha256.{to_hex_string, from_hex_string}

pub record ChunkId : Type 0 where
  pub digest : Bytes
  pub hex : Bytes

pub data ParseError : Type 0 where
  wrong_length invalid_hex_character not_lowercase : ParseError

-- `std::isxdigit` and `std::isupper` in the C locale.
abbrev pub is_upper : ℕ → Bool
is_upper c = leb b'A' c && leb c b'Z'

abbrev pub is_xdigit : ℕ → Bool
is_xdigit c = (leb b'0' c && leb c b'9') || (leb b'a' c && leb c b'f') || (leb b'A' c && leb c b'F')

-- The loop over the characters.
unfoldable pub check_characters : Bytes → Result (Unit {0}) ParseError
check_characters [] = ok tt
check_characters (c ∷ s) =
    let rest = check_characters s in
    if not (is_xdigit c)
    then err invalid_hex_character
    else if is_upper c
    then err not_lowercase
    else rest

abbrev pub from_hash_result : {E : Type 0} → Bytes → Result Bytes E → Result ChunkId ParseError
from_hash_result hex_string (ok digest) = ok (record { digest = digest; hex = hex_string })
from_hash_result hex_string (err _) = err invalid_hex_character

unfoldable pub parse : Bytes → Result ChunkId ParseError
parse hex_string =
    if not (length hex_string == 64)
    then err wrong_length
    else check_characters hex_string >>= λ _.
        from_hash_result hex_string (from_hex_string hex_string)

unfoldable pub from_digest : Bytes → ChunkId
from_digest digest = record { digest = digest; hex = to_hex_string digest }

-- `operator==`, which compares both members.
abbrev pub id_eq : ChunkId → ChunkId → Bool
id_eq a b = bytes_eq a.digest b.digest && bytes_eq a.hex b.hex

-- `ChunkId::Hash`, for a `size_t` of eight bytes.
abbrev pub hash_step : ℕ → ℕ → ℕ
hash_step hash_val b = bit_or ((hash_val * 256) % 2 ^ 64) b

unfoldable pub hash_bytes_from : ℕ → Bytes → ℕ
hash_bytes_from hash_val [] = hash_val
hash_bytes_from hash_val (b ∷ bytes) = hash_bytes_from (hash_step hash_val b) bytes

unfoldable pub hash : ChunkId → ℕ
unfolding hash_bytes_from
hash id = hash_bytes_from 0 (take 8 id.digest)
