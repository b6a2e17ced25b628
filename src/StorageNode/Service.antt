-- ===== src/StorageNode/Service.antt =====
-- storage_node_service_impl.cpp: the handlers of the storage node over any chunk store. A stream
-- that a client sends is the list of its messages; a stream that a handler sends is the list of the
-- messages that reach the client, who takes `accepted` of them before the stream breaks.
pub mod Unary
pub mod PutChunk
pub mod Replicate
pub mod Versions
pub mod Safe
pub mod SafePuts
pub mod Collected
use microsoft.Base.{
  ℕ, zero, suc, ◌+◌, ◌-◌, Bool, true, false, Option, none, some, List, [], ◌∷◌, ◌++◌, Bytes, length,
  take, drop, ltb, min, if◌then◌else◌,
}
use microsoft.Common.Result.{Result, ok, err}
use microsoft.Common.ProtocolVersion.{current_protocol_version}
use microsoft.StorageNode.ChunkId.{ChunkId, parse}
use microsoft.StorageNode.ChunkStore.{Call, pure, ◌>>=◌, StoreResult, IChunkStore}
use microsoft.StorageNode.Messages.{
  ChunkStatus, PutChunkMetadata, PutChunkPayload, PutChunkRequest, PutChunkResponse,
  GetChunkRequest, GetChunkPayload, GetChunkMetadata, GetChunkResponse, VerifyChunkRequest,
  VerifyChunkResponse, DeleteChunkRequest, DeleteChunkResponse, ReplicateChunkRequest,
  ReplicateChunkResponse, GetNodeStatsRequest, GetNodeStatsResponse, Status, StatusCode, status_ok,
}
use microsoft.StorageNode.Streams.{receive, send_frames}
use microsoft.StorageNode.Preamble.{
  stream_frame_size_bytes, map_store_error, get_correlation_id, run_preamble, is_capability_denied,
}

abbrev pub invalid_chunk_id : Status
invalid_chunk_id = record { code = StatusCode.invalid_argument; message = "Invalid chunk_id" }

abbrev pub put_response : PutChunkResponse
put_response = record {
  protocol_version = current_protocol_version;
  status = ChunkStatus.ok;
  message = "";
}

abbrev pub put_result_response : StoreResult (Unit {0}) → PutChunkResponse
put_result_response (ok _) = record put_response { status = ChunkStatus.ok; message = "Success" }
put_result_response (err e) = record put_response {
  status = map_store_error e.kind;
  message = e.message;
}

abbrev pub get_metadata : ChunkStatus → ℕ → GetChunkResponse
get_metadata status size = record {
  protocol_version = current_protocol_version;
  payload = GetChunkPayload.metadata (record { total_size_bytes = size; status = status });
}

abbrev pub get_result_stream : ℕ → StoreResult Bytes → List GetChunkResponse
get_result_stream accepted (err e) = take accepted (get_metadata (map_store_error e.kind) 0 ∷ [])
get_result_stream accepted (ok content) =
    take accepted (get_metadata ChunkStatus.ok (length content) ∷ [])
    ++ send_frames (length content) (accepted - 1) 0 content

module _ {S : Type 0} (store : IChunkStore S) (max_chunk_bytes : ℕ) where
  unfoldable pub put_payload :
      ChunkId → PutChunkMetadata → List PutChunkRequest → Call S (Status × PutChunkResponse)
  put_payload id m frames =
      if ltb max_chunk_bytes m.total_size_bytes
      then pure (
        record { code = StatusCode.resource_exhausted; message = "Chunk too large" },
        record put_response { status = ChunkStatus.chunk_too_large; message = "Chunk too large" },
      )
      else elim (receive max_chunk_bytes [] frames) [
        | none ↦ pure (
          record { code = StatusCode.resource_exhausted; message = "Streamed chunk too large" },
          record put_response {
            status = ChunkStatus.chunk_too_large;
            message = "Streamed chunk too large";
          },
        )
        | some payload ↦ store.put id payload >>= λ res. pure (status_ok, put_result_response res)
      ]

  unfoldable pub put_with_metadata :
      ℕ → PutChunkMetadata → List PutChunkRequest → Call S (Status × PutChunkResponse)
  put_with_metadata version m frames = elim (parse m.chunk_id) [
    | err _ ↦ pure (invalid_chunk_id, put_response)
    | ok id ↦ elim (run_preamble version (some m.capability_token) (some id)) [
      | none ↦ put_payload id m frames
      | some e ↦
          if is_capability_denied e
          then pure (
            status_ok,
            record put_response {
              status = ChunkStatus.capability_denied;
              message = "Capability token denied";
            },
          )
          else pure (e, put_response)
    ]
  ]

  first_without_metadata : Status × PutChunkResponse
  first_without_metadata = (
    record { code = StatusCode.invalid_argument; message = "First message must contain metadata" },
    put_response,
  )

  unfoldable pub put_chunk : List PutChunkRequest → Call S (Status × PutChunkResponse)
  unfolding put_with_metadata first_without_metadata
  put_chunk [] =
      pure
        (record { code = StatusCode.invalid_argument; message = "Missing metadata" }, put_response)
  put_chunk (first_req ∷ frames) = elim first_req.payload [
    | PutChunkPayload.metadata m ↦ put_with_metadata first_req.protocol_version m frames
    | PutChunkPayload.data_chunk _ ↦ pure first_without_metadata
    | PutChunkPayload.not_set ↦ pure first_without_metadata
  ]

module _ {S : Type 0} (store : IChunkStore S) where
  unfoldable pub get_chunk : GetChunkRequest → ℕ → Call S (Status × List GetChunkResponse)
  get_chunk request accepted = elim (run_preamble request.protocol_version none none) [
    | some e ↦ pure (e, [])
    | none ↦ elim (parse request.chunk_id) [
      | err _ ↦ pure (invalid_chunk_id, [])
      | ok id ↦ store.get id >>= λ res. pure (status_ok, get_result_stream accepted res)
    ]
  ]
