-- ===== src/StorageNode/Service/Unary.antt =====
-- storage_node_service_impl.cpp: `VerifyChunk`, `DeleteChunk`, `ReplicateChunk` and `GetNodeStats`.
use microsoft.Base.{
  ℕ, Bool, true, false, none, some, List, [], ◌∷◌, String, Bytes, ltb, if◌then◌else◌,
}
use microsoft.Common.Result.{ok, err}
use microsoft.Common.ProtocolVersion.{current_protocol_version}
use microsoft.StorageNode.ChunkId.{ChunkId, parse}
use microsoft.StorageNode.ChunkStore.{Call, pure, ◌>>=◌, StoreResult, IChunkStore}
use microsoft.StorageNode.Messages.{
  ChunkStatus, GetChunkRequest, GetChunkPayload, GetChunkMetadata, GetChunkResponse,
  VerifyChunkRequest, VerifyChunkResponse, DeleteChunkRequest, DeleteChunkResponse,
  ReplicateChunkRequest, ReplicateChunkResponse, GetNodeStatsRequest, GetNodeStatsResponse, Status,
  StatusCode, status_ok,
}
use microsoft.StorageNode.Preamble.{
  map_store_error, get_correlation_id, run_preamble, is_capability_denied,
}
use microsoft.StorageNode.Streams.{collect}
use microsoft.StorageNode.Service.{invalid_chunk_id}

abbrev pub verified : Bool → ChunkStatus → VerifyChunkResponse
verified is_valid status = record {
  protocol_version = current_protocol_version;
  is_valid = is_valid;
  status = status;
}

abbrev pub verify_response : StoreResult (Unit {0}) → VerifyChunkResponse
verify_response (ok _) = verified true ChunkStatus.ok
verify_response (err e) = verified false (map_store_error e.kind)

abbrev pub deleted : ChunkStatus → DeleteChunkResponse
deleted status = record { protocol_version = current_protocol_version; status = status }

abbrev pub replied : ChunkStatus → ReplicateChunkResponse
replied status = record { protocol_version = current_protocol_version; status = status }

abbrev pub result_status : StoreResult (Unit {0}) → ChunkStatus
result_status (ok _) = ChunkStatus.ok
result_status (err e) = map_store_error e.kind

-- The metadata of the first message of the source; a message without metadata has the default one.
abbrev pub metadata_of : GetChunkPayload → GetChunkMetadata
metadata_of (GetChunkPayload.metadata m) = m
metadata_of (GetChunkPayload.data_chunk _) = record {
  total_size_bytes = 0;
  status = ChunkStatus.ok;
}
metadata_of GetChunkPayload.not_set = record { total_size_bytes = 0; status = ChunkStatus.ok }

abbrev pub is_status_ok : ChunkStatus → Bool
is_status_ok ChunkStatus.ok = true
is_status_ok _ = false

abbrev pub is_code_ok : StatusCode → Bool
is_code_ok StatusCode.ok = true
is_code_ok _ = false

-- What a call of `GetChunk` at another node gives: for an address, the correlation id in the
-- metadata of the call and the request, the messages that arrive and the final status.
abbrev pub Remote : Type 0
Remote = Bytes → Bytes → GetChunkRequest → List GetChunkResponse × Status

module _ {S : Type 0} (store : IChunkStore S) where
  unfoldable pub verify_chunk : VerifyChunkRequest → Call S (Status × VerifyChunkResponse)
  verify_chunk request = elim (run_preamble request.protocol_version none none) [
    | some e ↦ pure (e, verified false ChunkStatus.ok)
    | none ↦ elim (parse request.chunk_id) [
      | err _ ↦ pure (invalid_chunk_id, verified false ChunkStatus.ok)
      | ok id ↦ store.verify_only id >>= λ res. pure (status_ok, verify_response res)
    ]
  ]

  unfoldable pub delete_chunk : DeleteChunkRequest → Call S (Status × DeleteChunkResponse)
  delete_chunk request = elim (parse request.chunk_id) [
    | err _ ↦ pure (invalid_chunk_id, deleted ChunkStatus.ok)
    | ok id ↦
        elim (run_preamble request.protocol_version (some request.capability_token) (some id)) [
          | some e ↦
              if is_capability_denied e
              then pure (status_ok, deleted ChunkStatus.capability_denied)
              else pure (e, deleted ChunkStatus.ok)
          | none ↦ store.delete id >>= λ res. pure (status_ok, deleted (result_status res))
        ]
  ]

  unfoldable pub get_node_stats : GetNodeStatsRequest → Call S (Status × GetNodeStatsResponse)
  get_node_stats request = elim (run_preamble request.protocol_version none none) [
    | some e ↦ pure (
      e,
      record {
        protocol_version = current_protocol_version;
        chunk_count = 0;
        bytes_used = 0;
        bytes_free = 0;
      },
    )
    | none ↦ store.get_stats >>= λ stats. pure (
      status_ok,
      record {
        protocol_version = current_protocol_version;
        chunk_count = stats.chunk_count;
        bytes_used = stats.bytes_used;
        bytes_free = stats.bytes_free;
      },
    )
  ]

  unfoldable pub put_replica : ChunkId → Bytes → Call S (Status × ReplicateChunkResponse)
  put_replica id payload =
      store.put id payload >>= λ res. pure (status_ok, replied (result_status res))

  -- What `ReplicateChunk` does with the stream of the source.
  unfoldable pub store_replica :
      ℕ → ChunkId → List GetChunkResponse → Status → Call S (Status × ReplicateChunkResponse)
  store_replica max_chunk_bytes id [] finish =
      pure (status_ok, replied ChunkStatus.source_unreachable)
  store_replica max_chunk_bytes id (first ∷ frames) finish =
      let m = metadata_of first.payload in
      if is_status_ok m.status
      then (if ltb max_chunk_bytes m.total_size_bytes
          then pure (status_ok, replied ChunkStatus.chunk_too_large)
          else (if is_code_ok finish.code
              then put_replica id (collect [] frames)
              else pure (status_ok, replied ChunkStatus.source_unreachable)))
      else pure (status_ok, replied m.status)

  -- `uuid` is the second UUID that the handler draws; the first is for its log.
  unfoldable pub replicate_chunk :
      ℕ
      → Remote
      → List (String × Bytes)
      → Bytes
      → ReplicateChunkRequest
      → Call S (Status × ReplicateChunkResponse)
  unfolding store_replica
  replicate_chunk max_chunk_bytes remote client_metadata uuid request =
      elim (run_preamble request.protocol_version none none) [
        | some e ↦ pure (e, replied ChunkStatus.ok)
        | none ↦ elim (parse request.chunk_id) [
          | err _ ↦ pure (invalid_chunk_id, replied ChunkStatus.ok)
          | ok id ↦
              let get_req : GetChunkRequest = record {
                protocol_version = current_protocol_version;
                chunk_id = id.hex;
              } in
              let (messages, finish) =
                remote request.source_node_address (get_correlation_id client_metadata uuid)
                  get_req in
              store_replica max_chunk_bytes id messages finish
        ]
      ]
