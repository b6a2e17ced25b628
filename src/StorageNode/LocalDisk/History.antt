-- ===== src/StorageNode/LocalDisk/History.antt =====
-- local_disk_chunk_store.cpp: any sequence of calls keeps the contract.
pub mod Allowed
pub mod Refines
pub mod Intact
pub mod Counted
pub mod Listed
use microsoft.Base.{◌≡◌, false, List, [], ◌∷◌, Bytes}
use microsoft.Common.Result.{Result, ok, err}
use microsoft.StorageNode.ChunkId.Parse.{IsChunkId}
use microsoft.StorageNode.ChunkStore.{Outcome, returns, Call, pure, ◌>>=◌}
use microsoft.StorageNode.LocalDisk.{Store, grants, put, get, verify_only, delete, exists}
use microsoft.StorageNode.LocalDisk.Names.{IsUuid}
use microsoft.StorageNode.LocalDisk.Contract.{
  Request, put_request, get_request, verify_request, delete_request, exists_request, Reply, done,
  content, found,
}

-- A well-formed id, and for a temporary file the name that the generator of UUIDs gives.
abbrev pub IsWellFormed : Request → Type 0
IsWellFormed (put_request env id bytes) = IsChunkId id × IsUuid env.uuid
IsWellFormed (get_request env id) = IsChunkId id
IsWellFormed (verify_request env id) = IsChunkId id
IsWellFormed (delete_request env id) = IsChunkId id
IsWellFormed (exists_request env id) = IsChunkId id

-- Where `put` is called, `exists` can read the state of the file.
abbrev pub IsSteady : Request → Type 0
IsSteady (put_request env id bytes) = env.stat_fails ≡ false
IsSteady _ = Unit

module _ (hash_bytes : Bytes → Bytes) where
  unfoldable pub answer : Request → Call Store Reply
  answer (put_request env id bytes) = put grants hash_bytes env id bytes >>= λ r. pure (done r)
  answer (get_request env id) = get grants hash_bytes env id >>= λ r. pure (content r)
  answer (verify_request env id) = verify_only grants hash_bytes env id >>= λ r. pure (done r)
  answer (delete_request env id) = delete grants env id >>= λ r. pure (done r)
  answer (exists_request env id) = exists grants env id >>= λ b. pure (found b)

  unfoldable pub run : List Request → Call Store (List Reply)
  run [] = pure []
  run (request ∷ requests) =
      answer request >>= λ reply. run requests >>= λ replies. pure (reply ∷ replies)
