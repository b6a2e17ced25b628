-- ===== src/StorageNode/Node/History.antt =====
-- storage_node_service_impl.cpp over local_disk_chunk_store.cpp: any sequence of calls that clients
-- make, with the answers that the system will give each.
use microsoft.Base.{ℕ, ◌≡◌, ◌≢◌, refl, List, [], ◌∷◌, String, Bytes, All}
use microsoft.StorageNode.ChunkStore.{returns, Call, pure, ◌>>=◌}
use microsoft.StorageNode.Messages.{
  ChunkStatus, PutChunkRequest, PutChunkResponse, GetChunkRequest, GetChunkResponse,
  VerifyChunkRequest, VerifyChunkResponse, DeleteChunkRequest, DeleteChunkResponse,
  ReplicateChunkRequest, ReplicateChunkResponse, GetNodeStatsRequest, GetNodeStatsResponse, Status,
}
use microsoft.StorageNode.LocalDisk.{Store, Env, grants}
use microsoft.StorageNode.LocalDisk.Names.{IsUuid}
use microsoft.StorageNode.LocalDisk.Reading.{IsIntact}
use microsoft.StorageNode.Service.{put_chunk, get_chunk}
use microsoft.StorageNode.Service.Unary.{
  verify_chunk, delete_chunk, replicate_chunk, get_node_stats, Remote,
}
use microsoft.StorageNode.Service.Safe.{
  Ends, then-Ends, IsTrueStream, Anything, get_chunk-Ends, verify_chunk-Ends, delete_chunk-Ends,
  get_node_stats-Ends,
}
use microsoft.StorageNode.Service.Collected.{IsTrueData, stream-IsTrueData}
use microsoft.StorageNode.Service.SafePuts.{
  IsCleanPut, IsPassedOn, put_chunk-Ends, replicate_chunk-Ends,
}
use microsoft.StorageNode.Node.{local_disk}
use microsoft.StorageNode.Node.Safe.{IsReadyStore, HasDigest, local_disk-IsSafeStore}

-- A call of a client: with the request or the messages that it sends, how many messages it takes,
-- and for `ReplicateChunk` what the source sends, the metadata and the UUID.
pub data Rpc : Type 0 where
  put_rpc : List PutChunkRequest → Rpc
  get_rpc : GetChunkRequest → ℕ → Rpc
  verify_rpc : VerifyChunkRequest → Rpc
  delete_rpc : DeleteChunkRequest → Rpc
  replicate_rpc : Remote → List (String × Bytes) → Bytes → ReplicateChunkRequest → Rpc
  stats_rpc : GetNodeStatsRequest → Rpc

pub data Answer : Type 0 where
  put_answer : Status × PutChunkResponse → Answer
  get_answer : Status × List GetChunkResponse → Answer
  verify_answer : Status × VerifyChunkResponse → Answer
  delete_answer : Status × DeleteChunkResponse → Answer
  replicate_answer : Status × ReplicateChunkResponse → Answer
  stats_answer : Status × GetNodeStatsResponse → Answer

module _ (hash_bytes : Bytes → Bytes) (max_chunk_bytes : ℕ) where
  unfoldable pub answer : Env → Rpc → Call Store Answer
  answer env rpc =
      let store = local_disk grants hash_bytes env in
      elim rpc [
        | put_rpc messages ↦ put_chunk store max_chunk_bytes messages >>= λ a. pure (put_answer a)
        | get_rpc request accepted ↦ get_chunk store request accepted >>= λ a. pure (get_answer a)
        | verify_rpc request ↦ verify_chunk store request >>= λ a. pure (verify_answer a)
        | delete_rpc request ↦ delete_chunk store request >>= λ a. pure (delete_answer a)
        | replicate_rpc remote client_metadata uuid request ↦
            replicate_chunk store max_chunk_bytes remote client_metadata uuid request >>= λ a.
            pure (replicate_answer a)
        | stats_rpc request ↦ get_node_stats store request >>= λ a. pure (stats_answer a)
      ]

  unfoldable pub run : List (Env × Rpc) → Call Store (List Answer)
  run [] = pure []
  run ((env, rpc) ∷ rpcs) = answer env rpc >>= λ a. run rpcs >>= λ answers. pure (a ∷ answers)

  -- No answer reports a corruption, but one of `ReplicateChunk` for which the first message of the
  -- source reports it; and the data that `GetChunk` has sent are a beginning of bytes with the digest
  -- asked for.
  abbrev pub IsHonest : Rpc → Answer → Type 0
  IsHonest (put_rpc _) (put_answer a) = a.1.status ≢ ChunkStatus.corruption_detected
  IsHonest (get_rpc request _) (get_answer a) =
      IsTrueData (HasDigest hash_bytes) request.chunk_id a.1
  IsHonest (verify_rpc _) (verify_answer a) = a.1.status ≢ ChunkStatus.corruption_detected
  IsHonest (delete_rpc _) (delete_answer a) = a.1.status ≢ ChunkStatus.corruption_detected
  IsHonest (replicate_rpc remote client_metadata uuid request) (replicate_answer a) =
      IsPassedOn remote client_metadata uuid request a
  IsHonest (stats_rpc _) (stats_answer _) = Unit
  IsHonest _ _ = ⊥

  -- One answer for each call.
  abbrev pub AreHonest : List (Env × Rpc) → List Answer → Type 0
  AreHonest [] [] = Unit
  AreHonest ((env, rpc) ∷ rpcs) (a ∷ answers) = IsHonest rpc a × AreHonest rpcs answers
  AreHonest _ _ = ⊥

  abbrev pub HasUuid : Env × Rpc → Type 0
  HasUuid (env, _) = IsUuid env.uuid

  answer-Ends :
      (env : Env) (rpc : Rpc) (st : Store)
      → IsUuid env.uuid
      → IsReadyStore hash_bytes st
      → Ends (IsReadyStore hash_bytes) (IsHonest rpc) (answer env rpc) st
  unfolding answer
  answer-Ends env (put_rpc messages) st uuid i =
      let store = local_disk grants hash_bytes env in
      then-Ends (IsReadyStore hash_bytes) IsCleanPut (IsHonest (put_rpc messages))
        (answer env (put_rpc messages)) (put_chunk store max_chunk_bytes messages) put_answer st
        refl
        (put_chunk-Ends store (IsReadyStore hash_bytes) (HasDigest hash_bytes)
          (local_disk-IsSafeStore hash_bytes env uuid) max_chunk_bytes messages st i)
        (λ a clean. clean)
  answer-Ends env (get_rpc request accepted) st uuid i =
      let store = local_disk grants hash_bytes env in
      then-Ends (IsReadyStore hash_bytes) (IsTrueStream (HasDigest hash_bytes) request accepted)
        (IsHonest (get_rpc request accepted)) (answer env (get_rpc request accepted))
        (get_chunk store request accepted) get_answer st refl
        (get_chunk-Ends store (IsReadyStore hash_bytes) (HasDigest hash_bytes)
          (local_disk-IsSafeStore hash_bytes env uuid) request accepted st i)
        (λ a true_stream.
          stream-IsTrueData (HasDigest hash_bytes) request accepted a.0 a.1 true_stream)
  answer-Ends env (verify_rpc request) st uuid i =
      let store = local_disk grants hash_bytes env in
      then-Ends (IsReadyStore hash_bytes) (λ a. a.1.status ≢ ChunkStatus.corruption_detected)
        (IsHonest (verify_rpc request)) (answer env (verify_rpc request))
        (verify_chunk store request) verify_answer st refl
        (verify_chunk-Ends store (IsReadyStore hash_bytes) (HasDigest hash_bytes)
          (local_disk-IsSafeStore hash_bytes env uuid) request st i)
        (λ a clean. clean)
  answer-Ends env (delete_rpc request) st uuid i =
      let store = local_disk grants hash_bytes env in
      then-Ends (IsReadyStore hash_bytes) (λ a. a.1.status ≢ ChunkStatus.corruption_detected)
        (IsHonest (delete_rpc request)) (answer env (delete_rpc request))
        (delete_chunk store request) delete_answer st refl
        (delete_chunk-Ends store (IsReadyStore hash_bytes) (HasDigest hash_bytes)
          (local_disk-IsSafeStore hash_bytes env uuid) request st i)
        (λ a clean. clean)
  answer-Ends env (replicate_rpc remote client_metadata uuid' request) st uuid i =
      let store = local_disk grants hash_bytes env in
      then-Ends (IsReadyStore hash_bytes) (IsPassedOn remote client_metadata uuid' request)
        (IsHonest (replicate_rpc remote client_metadata uuid' request))
        (answer env (replicate_rpc remote client_metadata uuid' request))
        (replicate_chunk store max_chunk_bytes remote client_metadata uuid' request)
        replicate_answer st refl
        (replicate_chunk-Ends store (IsReadyStore hash_bytes) (HasDigest hash_bytes)
          (local_disk-IsSafeStore hash_bytes env uuid) max_chunk_bytes remote client_metadata uuid'
          request st i)
        (λ a passed_on. passed_on)
  answer-Ends env (stats_rpc request) st uuid i =
      let store = local_disk grants hash_bytes env in
      then-Ends (IsReadyStore hash_bytes) Anything (IsHonest (stats_rpc request))
        (answer env (stats_rpc request)) (get_node_stats store request) stats_answer st refl
        (get_node_stats-Ends store (IsReadyStore hash_bytes) (HasDigest hash_bytes)
          (local_disk-IsSafeStore hash_bytes env uuid) request st i)
        (λ a _. tt)

  -- Clients make any sequence of calls of a node whose chunk files match their names and whose
  -- stripes are free, where the mutex lets its owner in again and UUIDs have no dot and more than
  -- five characters: with any messages, of any version, taking as much of an answer as they like,
  -- whatever system calls fail on the way. Every call is answered, every chunk file still matches its
  -- name, no answer reports a corruption, except that of a `ReplicateChunk` which the first message of
  -- its source has reported, and all data that `GetChunk` ever sends are a beginning of bytes with the
  -- digest asked for.
  pub run-AreHonest :
      (rpcs : List (Env × Rpc)) (st : Store)
      → All HasUuid rpcs
      → st.held ≡ []
      → IsIntact hash_bytes st
      → (answers : List Answer) × (st' : Store) × (run rpcs st ≡ returns answers st')
        × (st'.held ≡ [])
        × IsIntact hash_bytes st'
        × AreHonest rpcs answers
  unfolding run
  run-AreHonest [] st uuids free intact = ([], st, refl, free, intact, tt)
  run-AreHonest ((env, rpc) ∷ rpcs) st uuids free intact =
      let (a, st₁, answered, (free₁, intact₁), honest) =
        answer-Ends env rpc st uuids.0 (free, intact) in
      let (answers, st₂, ran, free₂, intact₂, rest) =
        run-AreHonest rpcs st₁ uuids.1 free₁ intact₁ in
      (a ∷ answers, st₂, rw (answered, ◌>>=◌, ran) refl, free₂, intact₂, (honest, rest))
