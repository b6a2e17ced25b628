-- ===== src/StorageNode/Service/PutChunk.antt =====
-- storage_node_service_impl.cpp, `PutChunk`: what reaches the store.
use microsoft.Base.{
  ℕ, ◌<◌, ◌≤◌, ◌≡◌, refl, false, none, some, List, [], ◌∷◌, length, ltb, ◌∙◌, Bool-cases, arith,
  ◌⊎◌, inl, inr,
}
use microsoft.Common.Result.{ok}
use microsoft.Common.ProtocolVersion.{current_protocol_version}
use microsoft.StorageNode.ChunkId.{ChunkId, parse}
use microsoft.StorageNode.ChunkStore.{returns, pure, ◌>>=◌, IChunkStore}
use microsoft.StorageNode.Messages.{
  ChunkStatus, PutChunkMetadata, PutChunkPayload, PutChunkRequest, PutChunkResponse, Status,
  StatusCode, status_ok,
}
use microsoft.StorageNode.Preamble.{run_preamble}
use microsoft.StorageNode.Streams.{receive}
use microsoft.StorageNode.Streams.Frames.{sent_data, receive_lem}
use microsoft.StorageNode.Service.{put_chunk, put_payload, put_with_metadata, put_result_response}

-- An upload whose first message carries this version and metadata.
abbrev pub upload : ℕ → PutChunkMetadata → List PutChunkRequest → List PutChunkRequest
upload version m frames =
    record { protocol_version = version; payload = PutChunkPayload.metadata m } ∷ frames

payload_too_large :
    {S : Type 0} (store : IChunkStore S) (max_chunk_bytes : ℕ) (m : PutChunkMetadata)
    (frames : List PutChunkRequest) (id : ChunkId) (st : S)
    → (max_chunk_bytes < m.total_size_bytes) ⊎ (max_chunk_bytes < length (sent_data frames))
    → (r : Status × PutChunkResponse) × (put_payload store max_chunk_bytes id m frames st
        ≡ returns r st)
      × (r.0.code ≡ StatusCode.resource_exhausted)
      × (r.1.status ≡ ChunkStatus.chunk_too_large)
unfolding put_payload
payload_too_large store max_chunk_bytes m frames id st over =
    elim (Bool-cases (ltb max_chunk_bytes m.total_size_bytes)) [
      | inl declared ↦ rw declared (_, refl, refl, refl)
      | inr small ↦
          let none_got : receive max_chunk_bytes [] frames ≡ none =
            ground (arith, receive_lem max_chunk_bytes frames) in
          rw (small, none_got) (_, refl, refl, refl)
    ]

module _ {S : Type 0} (store : IChunkStore S) (max_chunk_bytes : ℕ) (m : PutChunkMetadata)
    (frames : List PutChunkRequest) (id : ChunkId) (st : S)
    (parsed : parse m.chunk_id ≡ ok id) where
  put_chunk_valid :
      put_chunk store max_chunk_bytes (upload current_protocol_version m frames) st
      ≡ put_payload store max_chunk_bytes id m frames st
  unfolding put_chunk run_preamble
  put_chunk_valid = rw (parsed, put_with_metadata) refl

  -- An upload of the current version with a well-formed chunk id, whose declared size and whose
  -- data fit the limit, puts the concatenation of its data frames into the store, and answers with
  -- the outcome.
  pub put_chunk_stores :
      m.total_size_bytes ≤ max_chunk_bytes
      → length (sent_data frames) ≤ max_chunk_bytes
      → put_chunk store max_chunk_bytes (upload current_protocol_version m frames) st
        ≡ (store.put id (sent_data frames) >>= λ res. pure (status_ok, put_result_response res)) st
  unfolding put_payload
  put_chunk_stores declared fits =
      let small : ltb max_chunk_bytes m.total_size_bytes ≡ false = ground arith in
      let got : receive max_chunk_bytes [] frames ≡ some (sent_data frames) =
        ground (arith, receive_lem max_chunk_bytes frames) in
      put_chunk_valid ∙ rw (small, got) refl

  -- If the declared size or the data of an upload exceed the limit, where its chunk id parses and it
  -- has the current version, it is refused with RESOURCE_EXHAUSTED and CHUNK_TOO_LARGE, and the store
  -- is not called.
  pub put_chunk_too_large :
      (max_chunk_bytes < m.total_size_bytes) ⊎ (max_chunk_bytes < length (sent_data frames))
      → (r : Status × PutChunkResponse) × (put_chunk store max_chunk_bytes
            (upload current_protocol_version m frames)
            st
          ≡ returns r st)
        × (r.0.code ≡ StatusCode.resource_exhausted)
        × (r.1.status ≡ ChunkStatus.chunk_too_large)
  put_chunk_too_large over =
      rw put_chunk_valid (payload_too_large store max_chunk_bytes m frames id st over)
