-- ===== src/StorageNode/Messages.antt =====
-- proto/storage_node/storage_node.proto, as the generated classes present it, and the statuses of
-- gRPC. A proto3 enum may carry a number that the schema does not name.
use microsoft.Base.{ℕ, Bool, String, Bytes}

pub data ChunkStatus : Type 0 where
  ok checksum_mismatch chunk_too_large capability_denied : ChunkStatus
  io_error not_found corruption_detected source_unreachable : ChunkStatus
  unnamed : ℕ → ChunkStatus

pub record PutChunkMetadata : Type 0 where
  pub chunk_id : Bytes
  pub capability_token : Bytes
  pub total_size_bytes : ℕ

pub data PutChunkPayload : Type 0 where
  metadata : PutChunkMetadata → PutChunkPayload
  data_chunk : Bytes → PutChunkPayload
  not_set : PutChunkPayload

pub record PutChunkRequest : Type 0 where
  pub protocol_version : ℕ
  pub payload : PutChunkPayload

pub record PutChunkResponse : Type 0 where
  pub protocol_version : ℕ
  pub status : ChunkStatus
  pub message : String

pub record GetChunkRequest : Type 0 where
  pub protocol_version : ℕ
  pub chunk_id : Bytes

pub record GetChunkMetadata : Type 0 where
  pub total_size_bytes : ℕ
  pub status : ChunkStatus

pub data GetChunkPayload : Type 0 where
  metadata : GetChunkMetadata → GetChunkPayload
  data_chunk : Bytes → GetChunkPayload
  not_set : GetChunkPayload

pub record GetChunkResponse : Type 0 where
  pub protocol_version : ℕ
  pub payload : GetChunkPayload

pub record VerifyChunkRequest : Type 0 where
  pub protocol_version : ℕ
  pub chunk_id : Bytes

pub record VerifyChunkResponse : Type 0 where
  pub protocol_version : ℕ
  pub is_valid : Bool
  pub status : ChunkStatus

pub record DeleteChunkRequest : Type 0 where
  pub protocol_version : ℕ
  pub chunk_id : Bytes
  pub capability_token : Bytes

pub record DeleteChunkResponse : Type 0 where
  pub protocol_version : ℕ
  pub status : ChunkStatus

pub record ReplicateChunkRequest : Type 0 where
  pub protocol_version : ℕ
  pub chunk_id : Bytes
  pub source_node_address : Bytes

pub record ReplicateChunkResponse : Type 0 where
  pub protocol_version : ℕ
  pub status : ChunkStatus

pub record GetNodeStatsRequest : Type 0 where
  pub protocol_version : ℕ

pub record GetNodeStatsResponse : Type 0 where
  pub protocol_version : ℕ
  pub chunk_count : ℕ
  pub bytes_used : ℕ
  pub bytes_free : ℕ

pub data StatusCode : Type 0 where
  ok invalid_argument failed_precondition permission_denied resource_exhausted unavailable :
      StatusCode

pub record Status : Type 0 where
  pub code : StatusCode
  pub message : String

-- `grpc::Status::OK`
abbrev pub status_ok : Status
status_ok = record { code = StatusCode.ok; message = "" }
