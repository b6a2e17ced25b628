-- ===== src/StorageNode/LocalDisk/Contract.antt =====
-- i_chunk_store.h, what the operations of a chunk store promise: a map from chunk ids to contents,
-- and for each request the replies and the new maps that are allowed. An operation may fail, and the
-- system may hide a file; nothing else is left open.
use microsoft.Base.{
  ◌≡◌, ◌≢◌, ◌⊎◌, Bool, true, false, Option, none, some, List, [], ◌∷◌, Bytes, bytes_eq,
  if◌then◌else◌,
}
use microsoft.Common.Result.{ok, err}
use microsoft.StorageNode.ChunkId.{ChunkId}
use microsoft.StorageNode.ChunkId.Parse.{IsChunkId}
use microsoft.StorageNode.ChunkStore.{
  ChunkStoreErrorDetail, StoreResult, checksum_mismatch, corruption_detected, not_found, io_error,
}
use microsoft.StorageNode.LocalDisk.{Store, Env, lookup_file}

-- A call of one of the operations, with the answers that the system will give it.
pub data Request : Type 0 where
  put_request : Env → ChunkId → Bytes → Request
  get_request verify_request delete_request exists_request : Env → ChunkId → Request

pub data Reply : Type 0 where
  done : StoreResult (Unit {0}) → Reply
  content : StoreResult Bytes → Reply
  found : Bool → Reply

abbrev pub View : Type 0
View = ChunkId → Option Bytes

abbrev pub view : Store → View
view st id = lookup_file id st.disk

-- The maps agree on all well-formed ids.
abbrev pub IsSame : View → View → Type 0
IsSame f f' = (other : ChunkId) → IsChunkId other → f' other ≡ f other

-- The second map is the first, but for one chunk.
abbrev pub IsUpdate : ChunkId → Option Bytes → View → View → Type 0
IsUpdate id value f f' =
    (other : ChunkId)
    → IsChunkId other
    → f' other ≡ (if bytes_eq other.hex id.hex then value else f other)

module _ (hash_bytes : Bytes → Bytes) where
  -- Why `put` may fail, and why `get` may.
  abbrev pub IsPutError : ChunkId → Bytes → ChunkStoreErrorDetail → Type 0
  IsPutError id bytes e =
      ((hash_bytes bytes ≢ id.digest) × (e.kind ≡ checksum_mismatch))
      ⊎ ((hash_bytes bytes ≡ id.digest) × (e.kind ≡ io_error))

  abbrev pub IsGetError : View → Env → ChunkId → ChunkStoreErrorDetail → Type 0
  IsGetError f env id e =
      (((f id ≡ none) ⊎ (env.stat_fails ≡ true)) × (e.kind ≡ not_found))
      ⊎ (((c : Bytes) × (f id ≡ some c)
            × (hash_bytes c ≢ id.digest)
            × (e.kind ≡ corruption_detected))
          ⊎ (e.kind ≡ io_error))

  pub data IsAllowed (f f' : View) : Request → Reply → Type 0 where
    stores :
        {env : Env} {id : ChunkId} {bytes : Bytes}
        → hash_bytes bytes ≡ id.digest
        → IsUpdate id (some bytes) f f'
        → IsAllowed f f' (put_request env id bytes) (done (ok tt))
    keeps :
        {env : Env} {id : ChunkId} {bytes : Bytes} (old : Bytes)
        → hash_bytes bytes ≡ id.digest
        → f id ≡ some old
        → IsSame f f'
        → IsAllowed f f' (put_request env id bytes) (done (ok tt))
    put_fails :
        {env : Env} {id : ChunkId} {bytes : Bytes} {e : ChunkStoreErrorDetail}
        → IsPutError id bytes e
        → IsSame f f'
        → IsAllowed f f' (put_request env id bytes) (done (err e))
    reads :
        {env : Env} {id : ChunkId} {bytes : Bytes}
        → f id ≡ some bytes
        → hash_bytes bytes ≡ id.digest
        → IsSame f f'
        → IsAllowed f f' (get_request env id) (content (ok bytes))
    get_fails :
        {env : Env} {id : ChunkId} {e : ChunkStoreErrorDetail}
        → IsGetError f env id e
        → IsSame f f'
        → IsAllowed f f' (get_request env id) (content (err e))
    verifies :
        {env : Env} {id : ChunkId} (bytes : Bytes)
        → f id ≡ some bytes
        → hash_bytes bytes ≡ id.digest
        → IsSame f f'
        → IsAllowed f f' (verify_request env id) (done (ok tt))
    verify_fails :
        {env : Env} {id : ChunkId} {e : ChunkStoreErrorDetail}
        → IsGetError f env id e
        → IsSame f f'
        → IsAllowed f f' (verify_request env id) (done (err e))
    removes :
        {env : Env} {id : ChunkId}
        → IsUpdate id none f f'
        → IsAllowed f f' (delete_request env id) (done (ok tt))
    overlooks :
        {env : Env} {id : ChunkId}
        → env.stat_fails ≡ true
        → IsSame f f'
        → IsAllowed f f' (delete_request env id) (done (ok tt))
    delete_fails :
        {env : Env} {id : ChunkId} {e : ChunkStoreErrorDetail}
        → e.kind ≡ io_error
        → IsSame f f'
        → IsAllowed f f' (delete_request env id) (done (err e))
    finds :
        {env : Env} {id : ChunkId} (bytes : Bytes)
        → f id ≡ some bytes
        → IsSame f f'
        → IsAllowed f f' (exists_request env id) (found true)
    misses :
        {env : Env} {id : ChunkId}
        → (f id ≡ none) ⊎ (env.stat_fails ≡ true)
        → IsSame f f'
        → IsAllowed f f' (exists_request env id) (found false)

  -- A run of requests, each with an allowed reply.
  pub data AreAllowed (f'' : View) : View → List Request → List Reply → Type 0 where
    ends : {f : View} → IsSame f f'' → AreAllowed f'' f [] []
    goes_on :
        {f : View} {request : Request} {reply : Reply} {requests : List Request}
        {replies : List Reply} (f' : View)
        → IsAllowed f f' request reply
        → AreAllowed f'' f' requests replies
        → AreAllowed f'' f (request ∷ requests) (reply ∷ replies)
