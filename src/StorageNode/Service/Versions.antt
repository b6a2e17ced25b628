-- ===== src/StorageNode/Service/Versions.antt =====
-- storage_node_service_impl.cpp: the version check of the handlers.
use microsoft.Base.{ℕ, ◌≡◌, ◌≢◌, refl, false, Option, none, some, List, [], String, Bytes, arith}
use microsoft.Common.Result.{ok, err}
use microsoft.Common.ProtocolVersion.{current_protocol_version}
use microsoft.StorageNode.ChunkId.{ChunkId, ParseError, parse}
use microsoft.StorageNode.ChunkStore.{returns, IChunkStore}
use microsoft.StorageNode.Messages.{
  ChunkStatus, PutChunkMetadata, PutChunkRequest, GetNodeStatsResponse,
}
use microsoft.StorageNode.Preamble.{run_preamble, unsupported_version}
use microsoft.StorageNode.Service.{
  put_chunk, put_with_metadata, put_response, get_chunk, invalid_chunk_id,
}
use microsoft.StorageNode.Service.PutChunk.{upload}
use microsoft.StorageNode.Service.Unary.{
  verify_chunk, verified, delete_chunk, deleted, replicate_chunk, replied, get_node_stats, Remote,
}

run_preamble_unsupported :
    (version : ℕ) (token : Option Bytes) (id : Option ChunkId)
    → version ≢ current_protocol_version
    → run_preamble version token id ≡ some unsupported_version
unfolding run_preamble
run_preamble_unsupported version token id h = ground arith

abbrev pub no_stats : GetNodeStatsResponse
no_stats = record {
  protocol_version = current_protocol_version;
  chunk_count = 0;
  bytes_used = 0;
  bytes_free = 0;
}

module _ {S : Type 0} (store : IChunkStore S) (max_chunk_bytes version : ℕ) (m : PutChunkMetadata)
    (st : S) where
  -- Under any other version than the current one, and with a well-formed chunk id where the request
  -- has one, each of the six handlers stops with FAILED_PRECONDITION and does not call the store.
  pub unsupported_version_refused :
      (frames : List PutChunkRequest) (id : ChunkId) (accepted : ℕ) (remote : Remote)
      (metadata : List (String × Bytes)) (uuid address token : Bytes)
      → version ≢ current_protocol_version
      → parse m.chunk_id ≡ ok id
      → (put_chunk store max_chunk_bytes (upload version m frames) st
          ≡ returns (unsupported_version, put_response) st)
        × (get_chunk store
              (record { protocol_version = version; chunk_id = m.chunk_id })
              accepted
              st
            ≡ returns (unsupported_version, []) st)
        × (verify_chunk store (record { protocol_version = version; chunk_id = m.chunk_id }) st
            ≡ returns (unsupported_version, verified false ChunkStatus.ok) st)
        × (delete_chunk store
              (record {
                protocol_version = version;
                chunk_id = m.chunk_id;
                capability_token = token;
              })
              st
            ≡ returns (unsupported_version, deleted ChunkStatus.ok) st)
        × (replicate_chunk store max_chunk_bytes remote metadata uuid
              (record {
                protocol_version = version;
                chunk_id = m.chunk_id;
                source_node_address = address;
              })
              st
            ≡ returns (unsupported_version, replied ChunkStatus.ok) st)
        × (get_node_stats store (record { protocol_version = version }) st
            ≡ returns (unsupported_version, no_stats) st)
  unfolding put_chunk get_chunk verify_chunk delete_chunk replicate_chunk get_node_stats
  unsupported_version_refused frames id accepted remote metadata uuid address token other parsed = (
    rw
        (
          parsed,
          put_with_metadata,
          run_preamble_unsupported version (some m.capability_token) (some id) other,
        )
        refl,
    rw (run_preamble_unsupported version none none other, get_chunk) refl,
    rw (run_preamble_unsupported version none none other, verify_chunk) refl,
    rw (parsed, run_preamble_unsupported version (some token) (some id) other, delete_chunk) refl,
    rw (run_preamble_unsupported version none none other, replicate_chunk) refl,
    rw (run_preamble_unsupported version none none other, get_node_stats) refl,
  )

  -- `PutChunk` and `DeleteChunk` look at the chunk id before the version: with a malformed chunk id
  -- they answer INVALID_ARGUMENT whatever the version of the request is.
  malformed_id_first :
      (frames : List PutChunkRequest) (token : Bytes) (e : ParseError)
      → parse m.chunk_id ≡ err e
      → (put_chunk store max_chunk_bytes (upload version m frames) st
          ≡ returns (invalid_chunk_id, put_response) st)
        × (delete_chunk store
              (record {
                protocol_version = version;
                chunk_id = m.chunk_id;
                capability_token = token;
              })
              st
            ≡ returns (invalid_chunk_id, deleted ChunkStatus.ok) st)
  unfolding put_chunk delete_chunk
  malformed_id_first frames token e malformed =
      (rw (malformed, put_with_metadata) refl, rw (malformed, delete_chunk) refl)
