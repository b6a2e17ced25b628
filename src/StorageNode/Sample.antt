-- ===== src/StorageNode/Sample.antt =====
-- Concrete values for the tests: a toy digest, the id of a small chunk, a store and the answers of
-- a system on which no call fails.
use microsoft.Base.{ℕ, ◌≡◌, refl, false, some, [], ◌∷◌, ◌++◌, Bytes, take, arith}
use microsoft.Common.Result.{ok}
use microsoft.Common.Sha256.{
  to_hex_string, print_byte, hex_digit, from_hex_string, parse_bytes, parse_byte, stoi_hex,
  read_digits, hex_value, is_space,
}
use microsoft.StorageNode.ChunkId.{ChunkId, parse, check_characters}
use microsoft.StorageNode.ChunkId.Parse.{IsChunkId}
use microsoft.StorageNode.LocalDisk.{Store, Env, completes}
use microsoft.StorageNode.Files.{lookup}
use microsoft.StorageNode.LocalDisk.Reading.{IsIntact}
use microsoft.StorageNode.LocalDisk.Names.{IsUuid}

abbrev pub zeros : Bytes
zeros = 0 ∷ 0 ∷ 0 ∷ 0 ∷ 0 ∷ 0 ∷ 0 ∷ 0 ∷ 0 ∷ 0 ∷ 0 ∷ 0 ∷ 0 ∷ 0 ∷ 0 ∷ 0 ∷ []

-- The content itself, cut or filled up to 32 bytes.
abbrev pub toy_hash : Bytes → Bytes
toy_hash content = take 32 (content ++ (zeros ++ zeros))

abbrev pub content : Bytes
content = 0x7a ∷ 8 ∷ []

abbrev pub sample_digest : Bytes
sample_digest = toy_hash content

abbrev pub hex_zeros : Bytes
hex_zeros =
    b'0' ∷ b'0' ∷ b'0' ∷ b'0' ∷ b'0' ∷ b'0' ∷ b'0' ∷ b'0' ∷ b'0' ∷ b'0' ∷ b'0' ∷ b'0' ∷ b'0' ∷ b'0'
    ∷ b'0' ∷ []

abbrev pub sample_text : Bytes
sample_text = b'7' ∷ b'a' ∷ b'0' ∷ b'8' ∷ (hex_zeros ++ (hex_zeros ++ (hex_zeros ++ hex_zeros)))

abbrev pub sample_id : ChunkId
sample_id = record { digest = sample_digest; hex = sample_text }

pub sample_id-IsChunkId : IsChunkId sample_id
unfolding to_hex_string print_byte hex_digit
sample_id-IsChunkId = record { size = refl; bytes = omega arith; text = refl }

pub parse_sample : parse sample_text ≡ ok sample_id
unfolding parse check_characters from_hex_string parse_bytes parse_byte stoi_hex read_digits
    hex_value is_space
parse_sample = refl

abbrev pub sample_uuid : Bytes
sample_uuid = b'0' ∷ b'1' ∷ b'2' ∷ b'3' ∷ b'4' ∷ b'-' ∷ b'5' ∷ []

pub sample_uuid-IsUuid : IsUuid sample_uuid
sample_uuid-IsUuid = omega arith

abbrev pub healthy : ℕ → Env
healthy size = record {
  create_directories_fails = false;
  uuid = sample_uuid;
  open_fails = false;
  written = some size;
  fsync_fails = false;
  rename_fails = false;
  remove_fails = false;
  stat_fails = false;
  bytes_read = some size;
  space = some 1000;
  walk = completes;
  error_text = "";
}

abbrev pub empty_store : Store
empty_store = record { disk = []; chunk_count = 0; bytes_used = 0; held = [] }

pub empty_store-IsIntact : IsIntact toy_hash empty_store
unfolding lookup
empty_store-IsIntact id c v e = cc
