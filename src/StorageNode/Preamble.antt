-- ===== src/StorageNode/Preamble.antt =====
-- storage_node_service_impl.cpp, what its handlers share, with capability_token.cpp and
-- stream_frame_config.h. Log lines are left out everywhere.
use text.Mathlib.Text.{◌==◌ as str_eq}
use microsoft.Base.{ℕ, Bool, not, Option, none, some, List, [], ◌∷◌, String, Bytes, if◌then◌else◌}
use microsoft.Common.Result.{Result, ok, is_ok}
use microsoft.Common.ProtocolVersion.{current_protocol_version, check_protocol_version}
use microsoft.StorageNode.ChunkId.{ChunkId}
use microsoft.StorageNode.ChunkStore.{ChunkStoreError}
use microsoft.StorageNode.Messages.{ChunkStatus, Status, StatusCode}

-- `kStreamFrameSizeBytes`
abbrev pub stream_frame_size_bytes : ℕ
stream_frame_size_bytes = 262144

pub data CapabilityError : Type 0 where
  denied : CapabilityError

-- The source marks this as a stub: every token passes.
unfoldable pub validate_capability_token : Bytes → ChunkId → Result (Unit {0}) CapabilityError
validate_capability_token token scoped_chunk_id = ok tt

unfoldable pub map_store_error : ChunkStoreError → ChunkStatus
map_store_error ChunkStoreError.checksum_mismatch = ChunkStatus.checksum_mismatch
map_store_error ChunkStoreError.corruption_detected = ChunkStatus.corruption_detected
map_store_error ChunkStoreError.not_found = ChunkStatus.not_found
map_store_error ChunkStoreError.io_error = ChunkStatus.io_error

abbrev pub correlation_id_metadata_key : String
correlation_id_metadata_key = "x-nimbus-correlation-id"

-- `GetCorrelationId`, by the metadata of the client and the next UUID that would be generated.
unfoldable pub get_correlation_id : List (String × Bytes) → Bytes → Bytes
get_correlation_id [] uuid = uuid
get_correlation_id ((key, v) ∷ client_metadata) uuid =
    if str_eq key correlation_id_metadata_key then v else get_correlation_id client_metadata uuid

abbrev pub unsupported_version : Status
unsupported_version = record {
  code = StatusCode.failed_precondition;
  message = "Unsupported protocol version";
}

abbrev pub capability_check : Option Bytes → Option ChunkId → Option Status
capability_check (some token) (some id) =
    if not (is_ok (validate_capability_token token id))
    then some (record { code = StatusCode.permission_denied; message = "CAPABILITY_DENIED" })
    else none
capability_check (some token) none = none
capability_check none id = none

-- The error status with which a handler stops, if any.
unfoldable pub run_preamble : ℕ → Option Bytes → Option ChunkId → Option Status
unfolding check_protocol_version validate_capability_token
run_preamble received_protocol_version capability_token token_scoped_chunk_id =
    if not (
      is_ok (
        check_protocol_version received_protocol_version current_protocol_version
          current_protocol_version))
    then some unsupported_version
    else capability_check capability_token token_scoped_chunk_id

abbrev pub is_capability_denied : Status → Bool
is_capability_denied e = str_eq e.message "CAPABILITY_DENIED"
