-- ===== src/StorageNode/LocalDisk/Reading.antt =====
-- local_disk_chunk_store.cpp, `Get`, `VerifyOnly` and `Delete`, and what `Get` returns after `Put`.
mod Delete
pub use Delete.*
use microsoft.Base.{
  ℕ, ◌≡◌, ◌≢◌, refl, sym, ap, ◌∙◌, Bool, true, false, not, ◌&&◌, Option, none, some, [], ◌∷◌, Bytes,
  bytes_eq, bytes_eq_iff, bytes_eq→eq, length, arith, Bool-cases, Option-cases, inl, inr, ◌⊎◌,
  if◌then◌else◌, ◌==◌, ==_refl,
}
use microsoft.StorageNode.ChunkId.{ChunkId}
use microsoft.StorageNode.ChunkId.Parse.{IsChunkId, hex-digest}
use microsoft.Common.Result.{ok, err, is_ok}
use microsoft.StorageNode.ChunkStore.{Outcome, returns, StoreResult, corruption_detected}
use microsoft.StorageNode.Files.{FilePath, path_eq, Disk, lookup, is_chunk_file}
use microsoft.StorageNode.Files.Update.{path_eq_iff, path_eq_refl}
use microsoft.StorageNode.LocalDisk.{
  Store, Env, Relock, grants, put, get, stat, is_some, lookup_file, final_path_for, read_chunk,
  failed,
}
use microsoft.StorageNode.LocalDisk.Names.{
  IsNamed, IsUuid, final_path-is_chunk_file, final_path-injective, IsChunkId-IsNamed,
}
use microsoft.StorageNode.LocalDisk.Locking.{put_result, put_granted, get_unlocked}
use microsoft.StorageNode.LocalDisk.Put.{put_result_view, stored}

-- The system reads the whole of this content.
pub record Reads (env : Env) (content : Bytes) : Type 0 where
  pub found : env.stat_fails ≡ false
  pub opened : env.open_fails ≡ false
  pub whole : env.bytes_read ≡ some (length content)

pub read_chunk-Reads :
    (hash_bytes : Bytes → Bytes) (env : Env) (id : ChunkId) (st : Store) (content : Bytes)
    → lookup_file id st.disk ≡ some content
    → Reads env content
    → read_chunk hash_bytes env id st ≡ (
        if bytes_eq (hash_bytes content) id.digest
        then ok content
        else failed corruption_detected "Chunk data on disk does not match its ID")
unfolding read_chunk
read_chunk-Reads hash_bytes env id st content e r =
    rw (e, read_chunk) (ground (arith, ==_refl (length content)))

pub read_chunk_sound :
    (hash_bytes : Bytes → Bytes) (env : Env) (id : ChunkId) (st : Store) (content : Bytes)
    → read_chunk hash_bytes env id st ≡ ok content
    → (hash_bytes content ≡ id.digest) × (lookup_file id st.disk ≡ some content)
unfolding read_chunk
read_chunk_sound hash_bytes env id st content e = elim (Option-cases (lookup_file id st.disk)) [
  | inl absent ↦ ground arith
  | inr (c, present) ↦ ground (arith, bytes_eq_iff (hash_bytes c) id.digest)
]

-- `get`, called by a thread that holds no stripe, comes back and leaves the store as it is; if it
-- succeeds, it returns the content of the chunk's file, whose hash is the chunk's digest.
get_sound :
    (relock : Relock) (hash_bytes : Bytes → Bytes) (env : Env) (id : ChunkId) (st : Store)
    → st.held ≡ []
    → (r : StoreResult Bytes) × (get relock hash_bytes env id st ≡ returns r st)
      × ((content : Bytes)
          → r ≡ ok content
          → (hash_bytes content ≡ id.digest) × (lookup_file id st.disk ≡ some content))
get_sound relock hash_bytes env id st free = (
  read_chunk hash_bytes env id st,
  get_unlocked relock hash_bytes env id st free,
  read_chunk_sound hash_bytes env id st,
)

-- Every chunk file holds data with the digest that names it.
abbrev pub IsIntact : (Bytes → Bytes) → Store → Type 0
IsIntact hash_bytes st =
    (id : ChunkId) (content : Bytes)
    → IsChunkId id
    → lookup_file id st.disk ≡ some content
    → hash_bytes content ≡ id.digest

module _ (hash_bytes : Bytes → Bytes) (env : Env) (id : ChunkId) (content : Bytes) (st : Store)
    (valid : IsChunkId id) (u : IsUuid env.uuid) where
  put_view_at :
      (other : ChunkId)
      → IsChunkId other
      → let (r, st') = put_result hash_bytes env id content st in
        lookup_file other st'.disk ≡ (
          if stored env id st r && path_eq (final_path_for other) (final_path_for id)
          then some content
          else lookup_file other st.disk)
  put_view_at other v =
      put_result_view hash_bytes env id content st (final_path_for other)
        (IsChunkId-IsNamed id valid) u (final_path-is_chunk_file other (IsChunkId-IsNamed other v))

  put_matches :
      let (r, st') = put_result hash_bytes env id content st in
      stored env id st r ≡ true → hash_bytes content ≡ id.digest
  unfolding put_result
  put_matches = ground (arith, bytes_eq_iff (hash_bytes content) id.digest)

  put_result-IsIntact :
      IsIntact hash_bytes st → IsIntact hash_bytes (put_result hash_bytes env id content st).1
  put_result-IsIntact intact other c v e = ground (
    arith,
    put_view_at other v,
    put_matches,
    final_path-injective other id,
    hex-digest other id v valid,
    intact other c v,
  )

-- Where the mutex lets its owner in again, `put` of a well-formed chunk id comes back and keeps
-- every chunk file true to its name, whatever system call fails on the way.
put-IsIntact :
    (hash_bytes : Bytes → Bytes) (env : Env) (id : ChunkId) (content : Bytes) (st : Store)
    → IsChunkId id
    → IsUuid env.uuid
    → IsIntact hash_bytes st
    → (r : StoreResult (Unit {0})) × (st' : Store) × (put grants hash_bytes env id content st
        ≡ returns r st')
      × IsIntact hash_bytes st'
put-IsIntact hash_bytes env id content st valid u intact =
    let res = put_result hash_bytes env id content st in
    (
      res.0,
      res.1,
      put_granted hash_bytes env id content st,
      put_result-IsIntact hash_bytes env id content st valid u intact,
    )
