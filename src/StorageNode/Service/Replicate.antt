-- ===== src/StorageNode/Service/Replicate.antt =====
-- storage_node_service_impl.cpp, `ReplicateChunk` against `GetChunk` of the source.
use microsoft.Base.{
  ℕ, suc, ◌-◌, ◌≤◌, ◌≡◌, refl, false, List, [], ◌∷◌, String, Bytes, length, ltb, take_all, sym, ◌∙◌,
  arith,
}
use microsoft.Common.Result.{ok}
use microsoft.Common.ProtocolVersion.{current_protocol_version}
use microsoft.StorageNode.ChunkId.{ChunkId, parse}
use microsoft.StorageNode.ChunkStore.{Outcome, returns, pure, ◌>>=◌, StoreResult, IChunkStore}
use microsoft.StorageNode.Messages.{
  ChunkStatus, GetChunkRequest, GetChunkResponse, Status, status_ok,
}
use microsoft.StorageNode.Preamble.{run_preamble, get_correlation_id}
use microsoft.StorageNode.Streams.{send_frames, collect}
use microsoft.StorageNode.Streams.Frames.{collect-send_frames}
use microsoft.StorageNode.Service.{get_chunk, get_metadata, get_result_stream}
use microsoft.StorageNode.Service.Unary.{
  result_status, replied, store_replica, put_replica, replicate_chunk, Remote,
}

-- The request that `ReplicateChunk` sends to the source.
abbrev pub source_request : ChunkId → GetChunkRequest
source_request id = record { protocol_version = current_protocol_version; chunk_id = id.hex }

returns-injective :
    {S A : Type 0} {a b : A} {s t : S} → ◌≡◌ {A = Outcome S A} (returns a s) (returns b t) → a ≡ b
returns-injective e = cc

get_chunk_valid :
    {R : Type 0} (source : IChunkStore R) (rt rt' : R) (id : ChunkId) (accepted : ℕ)
    (res : StoreResult Bytes)
    → parse id.hex ≡ ok id
    → source.get id rt ≡ returns res rt'
    → get_chunk source (source_request id) accepted rt
      ≡ returns (status_ok, get_result_stream accepted res) rt'
unfolding get_chunk run_preamble
get_chunk_valid source rt rt' id accepted res parsed found =
    rw (parsed, get_chunk, found, ◌>>=◌) refl

module _ {S R : Type 0} (store : IChunkStore S) (source : IChunkStore R) (max_chunk_bytes : ℕ)
    (st : S) (rt rt' : R) (id : ChunkId) (content : Bytes) where
  -- The messages of a source that has the content, if all of them arrive.
  collected :
      collect [] (send_frames (length content) (suc (length content) - 1) 0 content) ≡ content
  collected = collect-send_frames (suc (length content) - 1) content (omega arith)

  store_served :
      length content ≤ max_chunk_bytes
      → store_replica store max_chunk_bytes id
          (get_result_stream (suc (length content)) (ok content))
          status_ok
          st
        ≡ put_replica store id content st
  unfolding store_replica
  store_served fits =
      let small : ltb max_chunk_bytes (length content) ≡ false = ground arith in
      rw (small, take_all {A = GetChunkResponse} (length content) [] (omega arith), collected) refl

  -- Replication from a node whose store returns a content for the chunk that fits the limit, when
  -- that node answers with its `GetChunk` and all of its messages arrive: the content that is put
  -- into the local store is the content of the source, and the answer is the outcome of this put.
  pub replicate_chunk-get_chunk :
      (remote : Remote) (metadata : List (String × Bytes)) (uuid address : Bytes)
      (answer : Status × List GetChunkResponse)
      → parse id.hex ≡ ok id
      → source.get id rt ≡ returns (ok content) rt'
      → length content ≤ max_chunk_bytes
      → get_chunk source (source_request id) (suc (length content)) rt ≡ returns answer rt'
      → remote address (get_correlation_id metadata uuid) (source_request id) ≡ (answer.1, answer.0)
      → replicate_chunk store max_chunk_bytes remote metadata uuid
          (record {
            protocol_version = current_protocol_version;
            chunk_id = id.hex;
            source_node_address = address;
          })
          st
        ≡ (store.put id content >>= λ res. pure (status_ok, replied (result_status res))) st
  unfolding replicate_chunk run_preamble put_replica
  replicate_chunk-get_chunk remote metadata uuid address answer parsed found fits served linked =
      let same : answer ≡ (status_ok, get_result_stream (suc (length content)) (ok content)) =
        returns-injective (
          sym served
          ∙ get_chunk_valid source rt rt' id (suc (length content)) (ok content) parsed found) in
      rw (parsed, replicate_chunk, linked, same) (store_served fits)

-- The frames of the source are not held to the limit: whatever the first message declares within
-- the limit, all the data that follow it go to the store, however long they are.
replicate_unbounded :
    {S : Type 0} (store : IChunkStore S) (max_chunk_bytes : ℕ) (st : S) (id : ChunkId)
    (declared : ℕ) (frames : List GetChunkResponse)
    → declared ≤ max_chunk_bytes
    → store_replica store max_chunk_bytes id
        (get_metadata ChunkStatus.ok declared ∷ frames)
        status_ok
        st
      ≡ (store.put id (collect [] frames) >>= λ res. pure (status_ok, replied (result_status res)))
          st
unfolding store_replica put_replica
replicate_unbounded store max_chunk_bytes st id declared frames small = ground arith
