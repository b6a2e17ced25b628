-- ===== src/StorageNode/LocalDisk/RoundTrip.antt =====
-- local_disk_chunk_store.cpp: what `Get` returns after `Put`.
use microsoft.Base.{
  true, ◌≡◌, ◌≢◌, refl, ◌∙◌, false, none, some, [], ◌∷◌, Bytes, bytes_eq_iff, length, arith,
  ==_refl,
}
use microsoft.StorageNode.ChunkId.{ChunkId}
use microsoft.StorageNode.ChunkId.Parse.{IsChunkId}
use microsoft.Common.Result.{ok}
use microsoft.StorageNode.ChunkStore.{returns, StoreResult, corruption_detected}
use microsoft.StorageNode.Files.Update.{path_eq_refl}
use microsoft.StorageNode.LocalDisk.Reading.{delete-stat_none}
use microsoft.StorageNode.LocalDisk.{
  Relock, delete, Store, Env, grants, put, get, write_chunk, stat, lookup_file, final_path_for,
  failed,
}
use microsoft.StorageNode.LocalDisk.Names.{IsUuid, IsChunkId-IsNamed, final_path-is_chunk_file}
use microsoft.StorageNode.LocalDisk.Locking.{put_unlocked, put_result, put_granted, get_unlocked}
use microsoft.StorageNode.LocalDisk.Put.{put_result_view}
use microsoft.StorageNode.LocalDisk.Reading.{Reads, read_chunk-Reads}

-- No system call of `put` fails, and all of this content is written.
pub record Writes (env : Env) (content : Bytes) : Type 0 where
  pub statted : env.stat_fails ≡ false
  pub created : env.create_directories_fails ≡ false
  pub opened : env.open_fails ≡ false
  pub whole : env.written ≡ some (length content)
  pub synced : env.fsync_fails ≡ false
  pub renamed : env.rename_fails ≡ false

module _ (hash_bytes : Bytes → Bytes) (env : Env) (id : ChunkId) (content : Bytes)
    (st : Store) where
  pub put_result_held : (put_result hash_bytes env id content st).1.held ≡ st.held
  unfolding put_result write_chunk
  put_result_held = ground arith

  module _ (w : Writes env content) (absent : lookup_file id st.disk ≡ none) where
    write_chunk_ok : (write_chunk env id content st).0 ≡ ok tt
    unfolding write_chunk
    write_chunk_ok = go content w.whole
      where
        go : (c : Bytes) → env.written ≡ some (length c) → (write_chunk env id c st).0 ≡ ok tt
        go [] e = ground arith
        go (b ∷ c) e = ground (arith, ==_refl (length (b ∷ c)))

    put_unlocked_new : put_unlocked env id content st ≡ write_chunk env id content st
    unfolding put_unlocked
    put_unlocked_new = rw (absent, stat) (ground arith)

    put_result_ok :
        hash_bytes content ≡ id.digest → (put_result hash_bytes env id content st).0 ≡ ok tt
    unfolding put_result
    put_result_ok e =
        ground
          (arith, bytes_eq_iff (hash_bytes content) id.digest, write_chunk_ok, put_unlocked_new)

read_back :
    (relock : Relock) (hash_bytes : Bytes → Bytes) (env : Env) (id : ChunkId) (st : Store)
    (content : Bytes)
    → st.held ≡ []
    → lookup_file id st.disk ≡ some content
    → hash_bytes content ≡ id.digest
    → Reads env content
    → get relock hash_bytes env id st ≡ returns (ok content) st
read_back relock hash_bytes env id st content free e same r =
    rw
      (
        get_unlocked relock hash_bytes env id st free,
        read_chunk-Reads hash_bytes env id st content e r,
        (bytes_eq_iff _ _).1 same,
      )
      refl

-- Where the mutex lets its owner in again, a chunk with a well-formed id that is not in the store,
-- put by a thread that holds no stripe with data that match its digest while no system call fails,
-- is stored: `put` reports success, and a `get` whose system calls do not fail returns these data.
pub put-get :
    (hash_bytes : Bytes → Bytes) (env env' : Env) (id : ChunkId) (content : Bytes) (st : Store)
    → IsChunkId id
    → IsUuid env.uuid
    → st.held ≡ []
    → hash_bytes content ≡ id.digest
    → lookup_file id st.disk ≡ none
    → Writes env content
    → Reads env' content
    → (st' : Store) × (put grants hash_bytes env id content st ≡ returns (ok tt) st')
      × (get grants hash_bytes env' id st' ≡ returns (ok content) st')
put-get hash_bytes env env' id content st valid u free same absent w r = (
  res.1,
  rw (put_granted hash_bytes env id content st, succeeds) refl,
  read_back grants hash_bytes env' id res.1 content
      (put_result_held hash_bytes env id content st ∙ free) there same r,
)
  where
    res : StoreResult (Unit {0}) × Store
    res = put_result hash_bytes env id content st

    succeeds : res.0 ≡ ok tt
    succeeds = put_result_ok hash_bytes env id content st w absent same

    there : lookup_file id res.1.disk ≡ some content
    there = ground (
      arith,
      put_result_view hash_bytes env id content st (final_path_for id) (IsChunkId-IsNamed id valid)
          u (final_path-is_chunk_file id (IsChunkId-IsNamed id valid)),
      succeeds,
      path_eq_refl (final_path_for id),
      w.statted,
    )

-- With both locks granted, putting the right data over a chunk whose file is corrupted, and whose
-- state `exists` can read, reports success and repairs nothing: the store is unchanged, and a `get`
-- of the chunk whose system calls do not fail still reports the corruption.
put_keeps_corruption :
    (hash_bytes : Bytes → Bytes) (env env' : Env) (id : ChunkId) (content bad : Bytes) (st : Store)
    → st.held ≡ []
    → hash_bytes content ≡ id.digest
    → lookup_file id st.disk ≡ some bad
    → hash_bytes bad ≢ id.digest
    → env.stat_fails ≡ false
    → Reads env' bad
    → (put grants hash_bytes env id content st ≡ returns (ok tt) st)
      × (get grants hash_bytes env' id st
          ≡ returns (failed corruption_detected "Chunk data on disk does not match its ID") st)
unfolding put_result put_unlocked
put_keeps_corruption hash_bytes env env' id content bad st free same present corrupted statted r = (
  put_granted hash_bytes env id content st
      ∙ ground (arith, bytes_eq_iff (hash_bytes content) id.digest),
  rw
      (
        get_unlocked grants hash_bytes env' id st free,
        read_chunk-Reads hash_bytes env' id st bad present r,
      )
      (ground (arith, bytes_eq_iff (hash_bytes bad) id.digest)),
)

-- `delete`, called by a thread that holds no stripe while the size of the chunk file cannot be
-- read, reports success, and the chunk is still there: the store is unchanged, and a `get` whose
-- system calls do not fail returns the content.
delete_stat_failure :
    (relock : Relock) (hash_bytes : Bytes → Bytes) (env env' : Env) (id : ChunkId) (content : Bytes)
    (st : Store)
    → st.held ≡ []
    → hash_bytes content ≡ id.digest
    → lookup_file id st.disk ≡ some content
    → env.stat_fails ≡ true
    → Reads env' content
    → (delete relock env id st ≡ returns (ok tt) st)
      × (get relock hash_bytes env' id st ≡ returns (ok content) st)
delete_stat_failure relock hash_bytes env env' id content st free same present fails r = (
  delete-stat_none relock env id st free fails,
  read_back relock hash_bytes env' id st content free present same r,
)
