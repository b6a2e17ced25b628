-- ===== src/StorageNode/Service/Safe.antt =====
-- storage_node_service_impl.cpp: the handlers over any chunk store whose operations come back, keep
-- an invariant of its state and find no corruption.
use microsoft.Base.{
  ℕ, ◌≡◌, ◌≢◌, ◌⊎◌, refl, ◌∙◌, inl, inr, false, none, some, List, [], Bytes, Bool-cases,
  Option-cases,
}
use microsoft.Common.Result.{Result-cases, ok, err}
use microsoft.Common.ProtocolVersion.{current_protocol_version}
use microsoft.StorageNode.ChunkId.{ChunkId, parse}
use microsoft.StorageNode.ChunkId.Parse.{IsChunkId, parse-IsChunkId}
use microsoft.StorageNode.ChunkStore.{
  ChunkStoreError, ChunkStoreStats, corruption_detected, returns, Call, pure, ◌>>=◌, StoreResult,
  IChunkStore,
}
use microsoft.StorageNode.Messages.{
  ChunkStatus, GetChunkRequest, GetChunkResponse, VerifyChunkRequest, DeleteChunkRequest,
  GetNodeStatsRequest, GetNodeStatsResponse, Status, status_ok,
}
use microsoft.StorageNode.Preamble.{run_preamble, is_capability_denied, map_store_error}
use microsoft.StorageNode.Service.{get_chunk, get_result_stream, invalid_chunk_id}
use microsoft.StorageNode.Service.Versions.{no_stats}
use microsoft.StorageNode.Service.Unary.{
  verified, verify_chunk, verify_response, delete_chunk, deleted, result_status, get_node_stats,
}

-- The call comes back, with a result and a state of these kinds.
abbrev pub Ends : {S A : Type 0} → (S → Type 0) → (A → Type 0) → Call S A → S → Type 0
Ends {S} {A} I Q m s = (a : A) × (s' : S) × (m s ≡ returns a s') × I s' × Q a

-- A handler that ends with a call of the store, on whose result its answer depends.
pub then-Ends :
    {S A B : Type 0} (I : S → Type 0) (Q : A → Type 0) (R : B → Type 0) (handler : Call S B)
    (m : Call S A) (f : A → B) (s : S)
    → handler s ≡ (m >>= λ a. pure (f a)) s
    → Ends I Q m s
    → ((a : A) → Q a → R (f a))
    → Ends I R handler s
then-Ends I Q R handler m f s opened (a, s', e, i, q) good =
    (f a, s', opened ∙ (rw (e, ◌>>=◌) refl), i, good a q)

abbrev pub NoCorruption : {A : Type 0} → StoreResult A → Type 0
NoCorruption (ok _) = Unit
NoCorruption (err e) = e.kind ≢ corruption_detected

-- A read gives what belongs to the chunk, and reports no corruption.
abbrev pub IsTrueRead : (ChunkId → Bytes → Type 0) → ChunkId → StoreResult Bytes → Type 0
IsTrueRead Belongs id (ok content) = Belongs id content
IsTrueRead Belongs id (err e) = e.kind ≢ corruption_detected

abbrev pub Anything : {A : Type 0} → A → Type 0
Anything _ = Unit

-- The messages are the stream of a true read of the chunk asked for, if there are any.
abbrev pub IsTrueStream :
    (ChunkId → Bytes → Type 0) → GetChunkRequest → ℕ → Status × List GetChunkResponse → Type 0
IsTrueStream Belongs request accepted (status, messages) =
    (messages ≡ [])
    ⊎ ((id : ChunkId) × (res : StoreResult Bytes) × (parse request.chunk_id ≡ ok id)
        × (messages ≡ get_result_stream accepted res)
        × IsTrueRead Belongs id res)

-- What the handlers ask of a store.
pub record IsSafeStore {S : Type 0} (store : IChunkStore S) (I : S → Type 0)
    (Belongs : ChunkId → Bytes → Type 0) : Type 0 where
  pub put_safe :
      (id : ChunkId) (content : Bytes) (s : S)
      → IsChunkId id
      → I s
      → Ends I NoCorruption (store.put id content) s
  pub get_safe :
      (id : ChunkId) (s : S) → IsChunkId id → I s → Ends I (IsTrueRead Belongs id) (store.get id) s
  pub verify_safe :
      (id : ChunkId) (s : S) → IsChunkId id → I s → Ends I NoCorruption (store.verify_only id) s
  pub delete_safe :
      (id : ChunkId) (s : S) → IsChunkId id → I s → Ends I NoCorruption (store.delete id) s
  pub stats_safe : (s : S) → I s → Ends I Anything store.get_stats s

pub map_store_error-clean :
    (e : ChunkStoreError)
    → e ≢ corruption_detected
    → map_store_error e ≢ ChunkStatus.corruption_detected
unfolding map_store_error
map_store_error-clean ChunkStoreError.checksum_mismatch h = λ bad. cc
map_store_error-clean ChunkStoreError.corruption_detected h = λ bad. h refl
map_store_error-clean ChunkStoreError.not_found h = λ bad. cc
map_store_error-clean ChunkStoreError.io_error h = λ bad. cc

pub result_status-clean :
    (r : StoreResult (Unit {0}))
    → NoCorruption r
    → result_status r ≢ ChunkStatus.corruption_detected
result_status-clean (ok _) h = λ bad. cc
result_status-clean (err e) h = map_store_error-clean e.kind h

pub verify_response-clean :
    (r : StoreResult (Unit {0}))
    → NoCorruption r
    → (verify_response r).status ≢ ChunkStatus.corruption_detected
verify_response-clean (ok _) h = λ bad. cc
verify_response-clean (err e) h = map_store_error-clean e.kind h

abbrev stats_response : ChunkStoreStats → GetNodeStatsResponse
stats_response stats = record {
  protocol_version = current_protocol_version;
  chunk_count = stats.chunk_count;
  bytes_used = stats.bytes_used;
  bytes_free = stats.bytes_free;
}

module _ {S : Type 0} (store : IChunkStore S) (I : S → Type 0) (Belongs : ChunkId → Bytes → Type 0)
    (safe : IsSafeStore store I Belongs) where
  pub get_chunk-Ends :
      (request : GetChunkRequest) (accepted : ℕ) (s : S)
      → I s
      → Ends I (IsTrueStream Belongs request accepted) (get_chunk store request accepted) s
  unfolding get_chunk
  get_chunk-Ends request accepted s i =
      elim (Option-cases (run_preamble request.protocol_version none none)) [
        | inr (e, stops) ↦ ((e, []), s, rw (get_chunk, stops) refl, i, inl refl)
        | inl goes ↦ elim (Result-cases (parse request.chunk_id)) [
          | inl (e, bad) ↦ ((invalid_chunk_id, []), s, rw (get_chunk, goes, bad) refl, i, inl refl)
          | inr (id, parsed) ↦
              then-Ends I (IsTrueRead Belongs id) (IsTrueStream Belongs request accepted)
                (get_chunk store request accepted) (store.get id)
                (λ res. (status_ok, get_result_stream accepted res)) s
                (rw (get_chunk, goes, parsed) refl)
                (safe.get_safe id s (parse-IsChunkId request.chunk_id id parsed).1 i)
                (λ res true_read. inr (id, res, parsed, refl, true_read))
        ]
      ]

  pub verify_chunk-Ends :
      (request : VerifyChunkRequest) (s : S)
      → I s
      → Ends I (λ a. a.1.status ≢ ChunkStatus.corruption_detected) (verify_chunk store request) s
  unfolding verify_chunk
  verify_chunk-Ends request s i =
      elim (Option-cases (run_preamble request.protocol_version none none)) [
        | inr (e, stops) ↦
            ((e, verified false ChunkStatus.ok), s, rw (verify_chunk, stops) refl, i, λ bad. cc)
        | inl goes ↦ elim (Result-cases (parse request.chunk_id)) [
          | inl (e, bad) ↦ (
            (invalid_chunk_id, verified false ChunkStatus.ok),
            s,
            rw (verify_chunk, goes, bad) refl,
            i,
            λ bad. cc,
          )
          | inr (id, parsed) ↦
              then-Ends I NoCorruption (λ a. a.1.status ≢ ChunkStatus.corruption_detected)
                (verify_chunk store request) (store.verify_only id)
                (λ res. (status_ok, verify_response res)) s (rw (verify_chunk, goes, parsed) refl)
                (safe.verify_safe id s (parse-IsChunkId request.chunk_id id parsed).1 i)
                verify_response-clean
        ]
      ]

  pub delete_chunk-Ends :
      (request : DeleteChunkRequest) (s : S)
      → I s
      → Ends I (λ a. a.1.status ≢ ChunkStatus.corruption_detected) (delete_chunk store request) s
  unfolding delete_chunk
  delete_chunk-Ends request s i = elim (Result-cases (parse request.chunk_id)) [
    | inl (e, bad) ↦
        ((invalid_chunk_id, deleted ChunkStatus.ok), s, rw (delete_chunk, bad) refl, i, λ bad. cc)
    | inr (id, parsed) ↦
        elim (Option-cases
          (run_preamble request.protocol_version (some request.capability_token) (some id))) [
            | inr (e, stops) ↦ elim (Bool-cases (is_capability_denied e)) [
              | inl denied ↦ (
                (status_ok, deleted ChunkStatus.capability_denied),
                s,
                rw (delete_chunk, parsed, stops, denied) refl,
                i,
                λ bad. cc,
              )
              | inr other ↦ (
                (e, deleted ChunkStatus.ok),
                s,
                rw (delete_chunk, parsed, stops, other) refl,
                i,
                λ bad. cc,
              )
            ]
            | inl goes ↦
                then-Ends I NoCorruption (λ a. a.1.status ≢ ChunkStatus.corruption_detected)
                  (delete_chunk store request) (store.delete id)
                  (λ res. (status_ok, deleted (result_status res))) s
                  (rw (delete_chunk, parsed, goes) refl)
                  (safe.delete_safe id s (parse-IsChunkId request.chunk_id id parsed).1 i)
                  result_status-clean
          ]
  ]

  pub get_node_stats-Ends :
      (request : GetNodeStatsRequest) (s : S)
      → I s
      → Ends I Anything (get_node_stats store request) s
  unfolding get_node_stats
  get_node_stats-Ends request s i =
      elim (Option-cases (run_preamble request.protocol_version none none)) [
        | inr (e, stops) ↦ ((e, no_stats), s, rw (get_node_stats, stops) refl, i, tt)
        | inl goes ↦
            then-Ends I Anything Anything (get_node_stats store request) store.get_stats
              (λ stats. (status_ok, stats_response stats)) s (rw (get_node_stats, goes) refl)
              (safe.stats_safe s i) (λ stats _. tt)
      ]
