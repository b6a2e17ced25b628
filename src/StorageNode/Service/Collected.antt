-- ===== src/StorageNode/Service/Collected.antt =====
-- storage_node_service_impl.cpp, `GetChunk`: what a client has that appends the data of the messages.
use mathlib.Core.Path.{subst}
use microsoft.Base.{
  sym, ℕ, zero, suc, ◌-◌, ◌≡◌, ◌≢◌, ◌⊎◌, inl, inr, refl, ap, ◌∙◌, List, [], ◌∷◌, ◌++◌, Bytes,
  length, take, All,
}
use microsoft.Common.Result.{ok, err}
use microsoft.StorageNode.ChunkId.{ChunkId, parse}
use microsoft.StorageNode.ChunkStore.{ChunkStoreError, corruption_detected, StoreResult}
use microsoft.StorageNode.Messages.{ChunkStatus, GetChunkRequest, GetChunkResponse, Status}
use microsoft.StorageNode.Preamble.{map_store_error}
use microsoft.StorageNode.Streams.{send_frames, collect}
use microsoft.StorageNode.Streams.Frames.{IsFrame, send_frames_lem}
use microsoft.StorageNode.Service.{get_metadata, get_result_stream}
use microsoft.StorageNode.Service.Unary.{metadata_of}
use microsoft.StorageNode.Service.Safe.{IsTrueRead, IsTrueStream, map_store_error-clean}

-- The message does not say that the chunk is corrupted.
abbrev pub IsCleanMessage : GetChunkResponse → Type 0
IsCleanMessage message = (metadata_of message.payload).status ≢ ChunkStatus.corruption_detected

-- No message reports a corruption, and the data of all messages are a beginning of what belongs to
-- the chunk with this text, if there are data at all.
abbrev pub IsTrueData : (ChunkId → Bytes → Type 0) → Bytes → List GetChunkResponse → Type 0
IsTrueData Belongs text messages =
    All IsCleanMessage messages
    × ((collect [] messages ≡ [])
        ⊎ ((id : ChunkId) × (content : Bytes) × (rest : Bytes) × (parse text ≡ ok id)
            × Belongs id content
            × (collect [] messages ++ rest ≡ content)))

frame-IsCleanMessage : (m : GetChunkResponse) → IsFrame m → IsCleanMessage m
frame-IsCleanMessage m (content, e, _, _) = rw e (λ bad. cc)

frames-clean : (ms : List GetChunkResponse) → All IsFrame ms → All IsCleanMessage ms
frames-clean [] h = tt
frames-clean (m ∷ ms) h = (frame-IsCleanMessage m h.0, frames-clean ms h.1)

-- The metadata carry no data.
collect-metadata :
    (accepted size : ℕ) (status : ChunkStatus) (ms : List GetChunkResponse)
    → collect [] (take accepted (get_metadata status size ∷ []) ++ ms) ≡ collect [] ms
unfolding collect
collect-metadata zero size status ms = refl
collect-metadata (suc zero) size status ms = refl
collect-metadata (suc (suc n)) size status ms = refl

metadata-clean :
    (accepted size : ℕ) (status : ChunkStatus) (ms : List GetChunkResponse)
    → status ≢ ChunkStatus.corruption_detected
    → All IsCleanMessage ms
    → All IsCleanMessage (take accepted (get_metadata status size ∷ []) ++ ms)
metadata-clean zero size status ms good h = h
metadata-clean (suc zero) size status ms good h = (good, h)
metadata-clean (suc (suc n)) size status ms good h = (good, h)

collect-error :
    (accepted : ℕ) (status : ChunkStatus)
    → collect [] (take accepted (get_metadata status 0 ∷ [])) ≡ []
unfolding collect
collect-error zero status = refl
collect-error (suc zero) status = refl
collect-error (suc (suc n)) status = refl

error-clean :
    (accepted : ℕ) (e : ChunkStoreError)
    → e ≢ corruption_detected
    → All IsCleanMessage (take accepted (get_metadata (map_store_error e) 0 ∷ []))
error-clean zero e good = tt
error-clean (suc zero) e good = (map_store_error-clean e good, tt)
error-clean (suc (suc n)) e good = (map_store_error-clean e good, tt)

module _ (Belongs : ChunkId → Bytes → Type 0) (text : Bytes) (id : ChunkId)
    (parsed : parse text ≡ ok id) (accepted : ℕ) where
  get_result_stream-IsTrueData :
      (res : StoreResult Bytes)
      → IsTrueRead Belongs id res
      → IsTrueData Belongs text (get_result_stream accepted res)
  get_result_stream-IsTrueData (ok content) true_read =
      let frames = send_frames (length content) (accepted - 1) 0 content in
      let (all_frames, (rest, e)) = send_frames_lem (accepted - 1) content in
      (
        metadata-clean accepted (length content) ChunkStatus.ok frames (λ bad. cc)
            (frames-clean frames all_frames),
        inr (
          id,
          content,
          rest,
          parsed,
          true_read,
          ap (λ got. got ++ rest) (collect-metadata accepted (length content) ChunkStatus.ok frames)
              ∙ e,
        ),
      )
  get_result_stream-IsTrueData (err e) true_read =
      (error-clean accepted e.kind true_read, inl (collect-error accepted (map_store_error e.kind)))

pub stream-IsTrueData :
    (Belongs : ChunkId → Bytes → Type 0) (request : GetChunkRequest) (accepted : ℕ)
    (status : Status) (messages : List GetChunkResponse)
    → IsTrueStream Belongs request accepted (status, messages)
    → IsTrueData Belongs request.chunk_id messages
unfolding collect
stream-IsTrueData Belongs request accepted status messages (inl e) = rw e (tt, inl refl)
stream-IsTrueData Belongs request accepted status messages (inr (id, res, parsed, e, true_read)) =
    subst (λ ms. IsTrueData Belongs request.chunk_id ms) (sym e)
      (get_result_stream-IsTrueData Belongs request.chunk_id id parsed accepted res true_read)
