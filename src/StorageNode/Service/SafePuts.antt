-- ===== src/StorageNode/Service/SafePuts.antt =====
-- storage_node_service_impl.cpp, the handlers that put a chunk, over such a store.
use microsoft.Base.{
  ℕ, ◌≡◌, ◌≢◌, ◌⊎◌, refl, inl, inr, none, some, List, [], ◌∷◌, String, Bytes, ltb, Bool-cases,
  Option-cases,
}
use microsoft.Common.Result.{Result-cases, ok, err}
use microsoft.StorageNode.ChunkId.{ChunkId, parse}
use microsoft.StorageNode.ChunkId.Parse.{IsChunkId, parse-IsChunkId}
use microsoft.StorageNode.ChunkStore.{StoreResult, IChunkStore}
use microsoft.StorageNode.Messages.{
  ChunkStatus, PutChunkPayload, PutChunkMetadata, PutChunkRequest, PutChunkResponse,
  GetChunkResponse, ReplicateChunkRequest, ReplicateChunkResponse, Status, status_ok,
}
use microsoft.Common.ProtocolVersion.{current_protocol_version}
use microsoft.StorageNode.Preamble.{run_preamble, is_capability_denied, get_correlation_id}
use microsoft.StorageNode.Streams.{receive, collect}
use microsoft.StorageNode.Service.{
  put_chunk, first_without_metadata, put_with_metadata, put_payload, put_result_response,
  put_response, invalid_chunk_id,
}
use microsoft.StorageNode.Service.Unary.{
  replied, result_status, replicate_chunk, store_replica, put_replica, Remote, metadata_of,
  is_status_ok, is_code_ok,
}
use microsoft.StorageNode.Service.Safe.{
  Ends, then-Ends, NoCorruption, result_status-clean, IsSafeStore, map_store_error-clean,
}

put_result_response-clean :
    (r : StoreResult (Unit {0}))
    → NoCorruption r
    → (put_result_response r).status ≢ ChunkStatus.corruption_detected
put_result_response-clean (ok _) h = λ bad. cc
put_result_response-clean (err e) h = map_store_error-clean e.kind h

abbrev pub IsCleanPut : Status × PutChunkResponse → Type 0
IsCleanPut (_, response) = response.status ≢ ChunkStatus.corruption_detected

put_response-clean : (status : Status) → IsCleanPut (status, put_response)
put_response-clean status = λ bad. cc

corruption_cases :
    (status : ChunkStatus)
    → (status ≢ ChunkStatus.corruption_detected) ⊎ (status ≡ ChunkStatus.corruption_detected)
corruption_cases ChunkStatus.ok = inl (λ bad. cc)
corruption_cases ChunkStatus.checksum_mismatch = inl (λ bad. cc)
corruption_cases ChunkStatus.chunk_too_large = inl (λ bad. cc)
corruption_cases ChunkStatus.capability_denied = inl (λ bad. cc)
corruption_cases ChunkStatus.io_error = inl (λ bad. cc)
corruption_cases ChunkStatus.not_found = inl (λ bad. cc)
corruption_cases ChunkStatus.corruption_detected = inr refl
corruption_cases ChunkStatus.source_unreachable = inl (λ bad. cc)
corruption_cases (ChunkStatus.unnamed _) = inl (λ bad. cc)

-- An answer reports no corruption, or the metadata of the first of these messages report one.
abbrev IsHandedOn : List GetChunkResponse → Status × ReplicateChunkResponse → Type 0
IsHandedOn messages (_, response) =
    (response.status ≢ ChunkStatus.corruption_detected)
    ⊎ ((first : GetChunkResponse) × (rest : List GetChunkResponse) × (messages ≡ first ∷ rest)
        × ((metadata_of first.payload).status ≡ ChunkStatus.corruption_detected))

-- An answer of `ReplicateChunk` reports no corruption, or the source has reported it: in the
-- metadata that it has sent first for the chunk asked for.
abbrev pub IsPassedOn :
    Remote
    → List (String × Bytes)
    → Bytes
    → ReplicateChunkRequest
    → Status × ReplicateChunkResponse
    → Type 0
IsPassedOn remote client_metadata uuid request (_, response) =
    (response.status ≢ ChunkStatus.corruption_detected)
    ⊎ ((id : ChunkId) × (first : GetChunkResponse) × (rest : List GetChunkResponse)
        × (finish : Status) × (parse request.chunk_id ≡ ok id)
        × (remote request.source_node_address (get_correlation_id client_metadata uuid)
              (record { protocol_version = current_protocol_version; chunk_id = id.hex })
            ≡ (first ∷ rest, finish))
        × ((metadata_of first.payload).status ≡ ChunkStatus.corruption_detected))

module _ {S : Type 0} (store : IChunkStore S) (I : S → Type 0) (Belongs : ChunkId → Bytes → Type 0)
    (safe : IsSafeStore store I Belongs) (max_chunk_bytes : ℕ) where
  put_payload-Ends :
      (id : ChunkId) (m : PutChunkMetadata) (frames : List PutChunkRequest) (s : S)
      → IsChunkId id
      → I s
      → Ends I IsCleanPut (put_payload store max_chunk_bytes id m frames) s
  unfolding put_payload
  put_payload-Ends id m frames s valid i =
      elim (Bool-cases (ltb max_chunk_bytes m.total_size_bytes)) [
        | inl large ↦ rw (put_payload, large) (_, s, refl, i, λ bad. cc)
        | inr small ↦ elim (Option-cases (receive max_chunk_bytes [] frames)) [
          | inl large ↦ rw (put_payload, small, large) (_, s, refl, i, λ bad. cc)
          | inr (payload, received) ↦
              then-Ends I NoCorruption IsCleanPut (put_payload store max_chunk_bytes id m frames)
                (store.put id payload) (λ res. (status_ok, put_result_response res)) s
                (rw (put_payload, small, received) refl) (safe.put_safe id payload s valid i)
                put_result_response-clean
        ]
      ]

  put_with_metadata-Ends :
      (version : ℕ) (m : PutChunkMetadata) (frames : List PutChunkRequest) (s : S)
      → I s
      → Ends I IsCleanPut (put_with_metadata store max_chunk_bytes version m frames) s
  unfolding put_with_metadata
  put_with_metadata-Ends version m frames s i = elim (Result-cases (parse m.chunk_id)) [
    | inl (e, bad) ↦
        rw (put_with_metadata, bad)
          ((invalid_chunk_id, put_response), s, refl, i, put_response-clean invalid_chunk_id)
    | inr (id, parsed) ↦
        elim (Option-cases (run_preamble version (some m.capability_token) (some id))) [
          | inl goes ↦
              rw (put_with_metadata, parsed, goes)
                (put_payload-Ends id m frames s (parse-IsChunkId m.chunk_id id parsed).1 i)
          | inr (e, stops) ↦ elim (Bool-cases (is_capability_denied e)) [
            | inl denied ↦ rw (put_with_metadata, parsed, stops, denied) (_, s, refl, i, λ bad. cc)
            | inr other ↦
                rw (put_with_metadata, parsed, stops, other)
                  ((e, put_response), s, refl, i, put_response-clean e)
          ]
        ]
  ]

  first-Ends :
      (payload : PutChunkPayload) (version : ℕ) (frames : List PutChunkRequest) (s : S)
      → I s
      → Ends I IsCleanPut
          (put_chunk store max_chunk_bytes
            (record { protocol_version = version; payload = payload } ∷ frames))
          s
  unfolding put_chunk first_without_metadata
  first-Ends (PutChunkPayload.metadata m) version frames s i =
      put_with_metadata-Ends version m frames s i
  first-Ends (PutChunkPayload.data_chunk _) version frames s i = (_, s, refl, i, λ bad. cc)
  first-Ends PutChunkPayload.not_set version frames s i = (_, s, refl, i, λ bad. cc)

  pub put_chunk-Ends :
      (messages : List PutChunkRequest) (s : S)
      → I s
      → Ends I IsCleanPut (put_chunk store max_chunk_bytes messages) s
  unfolding put_chunk
  put_chunk-Ends [] s i = (_, s, refl, i, λ bad. cc)
  put_chunk-Ends (first ∷ frames) s i = first-Ends first.payload first.protocol_version frames s i

  store_replica-Ends :
      (id : ChunkId) (messages : List GetChunkResponse) (finish : Status) (s : S)
      → IsChunkId id
      → I s
      → Ends I (IsHandedOn messages) (store_replica store max_chunk_bytes id messages finish) s
  unfolding store_replica put_replica
  store_replica-Ends id [] finish s valid i = (_, s, refl, i, inl (λ bad. cc))
  store_replica-Ends id (first ∷ frames) finish s valid i =
      let m = metadata_of first.payload in
      elim (Bool-cases (is_status_ok m.status)) [
        | inr bad ↦ (
          (status_ok, replied m.status),
          s,
          rw (store_replica, bad) refl,
          i,
          elim (corruption_cases m.status) [
            | inl clean ↦ inl clean
            | inr corrupt ↦ inr (first, frames, refl, corrupt)
          ],
        )
        | inl good ↦ elim (Bool-cases (ltb max_chunk_bytes m.total_size_bytes)) [
          | inl large ↦ (
            (status_ok, replied ChunkStatus.chunk_too_large),
            s,
            rw (store_replica, good, large) refl,
            i,
            inl (λ bad. cc),
          )
          | inr small ↦ elim (Bool-cases (is_code_ok finish.code)) [
            | inr broken ↦ (
              (status_ok, replied ChunkStatus.source_unreachable),
              s,
              rw (store_replica, good, small, broken) refl,
              i,
              inl (λ bad. cc),
            )
            | inl finished ↦
                then-Ends I NoCorruption (IsHandedOn (first ∷ frames))
                  (store_replica store max_chunk_bytes id (first ∷ frames) finish)
                  (store.put id (collect [] frames))
                  (λ res. (status_ok, replied (result_status res))) s
                  (rw (store_replica, good, small, finished) refl)
                  (safe.put_safe id (collect [] frames) s valid i)
                  (λ res clean. inl (result_status-clean res clean))
          ]
        ]
      ]

  handed-passed :
      (remote : Remote) (client_metadata : List (String × Bytes)) (uuid : Bytes)
      (request : ReplicateChunkRequest) (id : ChunkId) (messages : List GetChunkResponse)
      (finish : Status) (a : Status × ReplicateChunkResponse)
      → parse request.chunk_id ≡ ok id
      → remote request.source_node_address
          (get_correlation_id client_metadata uuid)
          (record { protocol_version = current_protocol_version; chunk_id = id.hex })
        ≡ (messages, finish)
      → IsHandedOn messages a
      → IsPassedOn remote client_metadata uuid request a
  handed-passed remote md uuid request id messages finish a parsed sent (inl clean) = inl clean
  handed-passed remote md uuid request id messages finish a parsed sent
        (inr (first, rest, these, corrupt)) =
      inr (id, first, rest, finish, parsed, (rw (← these) sent), corrupt)

  pub replicate_chunk-Ends :
      (remote : Remote) (client_metadata : List (String × Bytes)) (uuid : Bytes)
      (request : ReplicateChunkRequest) (s : S)
      → I s
      → Ends I
          (IsPassedOn remote client_metadata uuid request)
          (replicate_chunk store max_chunk_bytes remote client_metadata uuid request)
          s
  unfolding replicate_chunk
  replicate_chunk-Ends remote client_metadata uuid request s i =
      elim (Option-cases (run_preamble request.protocol_version none none)) [
        | inr (e, stops) ↦
            ((e, replied ChunkStatus.ok), s, rw (replicate_chunk, stops) refl, i, inl (λ bad. cc))
        | inl goes ↦ elim (Result-cases (parse request.chunk_id)) [
          | inl (e, bad) ↦ (
            (invalid_chunk_id, replied ChunkStatus.ok),
            s,
            rw (replicate_chunk, goes, bad) refl,
            i,
            inl (λ bad. cc),
          )
          | inr (id, parsed) ↦
              let source : List GetChunkResponse × Status =
                remote request.source_node_address (get_correlation_id client_metadata uuid)
                  (record { protocol_version = current_protocol_version; chunk_id = id.hex }) in
              let (a, s', ended, i', handed) =
                store_replica-Ends id source.0 source.1 s
                  (parse-IsChunkId request.chunk_id id parsed).1 i in
              (
                a,
                s',
                rw (replicate_chunk, goes, parsed) ended,
                i',
                handed-passed remote client_metadata uuid request id source.0 source.1 a parsed refl
                    handed,
              )
        ]
      ]
