-- ===== src/StorageNode/LocalDisk/Reading/Delete.antt =====
-- local_disk_chunk_store.cpp, `Delete`: what it does to the chunk files on every branch.
use microsoft.Base.{◌≡◌, true, ◌&&◌, none, [], arith, if◌then◌else◌}
use microsoft.StorageNode.ChunkId.{ChunkId}
use microsoft.Common.Result.{ok, is_ok}
use microsoft.StorageNode.ChunkStore.{returns, StoreResult}
use microsoft.StorageNode.Files.{FilePath, path_eq, lookup}
use microsoft.StorageNode.Files.Update.{lookup-erase}
use microsoft.StorageNode.LocalDisk.{
  Store, Env, Relock, delete, stat, is_some, final_path_for, remove_chunk,
}
use microsoft.StorageNode.LocalDisk.Locking.{delete_unlocked}

pub remove_chunk_view :
    (env : Env) (id : ChunkId) (st : Store) (p : FilePath)
    → let (r, st') = remove_chunk env id st in
      lookup p st'.disk ≡ (
        if is_some (stat env id st) && is_ok r && path_eq p (final_path_for id)
        then none
        else lookup p st.disk)
unfolding remove_chunk
remove_chunk_view env id st p = ground (arith, lookup-erase (final_path_for id) p st.disk)

-- `delete`, called by a thread that holds no stripe, comes back with a result, and removes the file
-- of its chunk if it found the chunk and reports success; otherwise it changes no file, and no
-- other file changes in any case.
delete_view :
    (relock : Relock) (env : Env) (id : ChunkId) (st : Store)
    → st.held ≡ []
    → (r : StoreResult (Unit {0})) × (st' : Store) × (delete relock env id st ≡ returns r st')
      × ((p : FilePath)
          → lookup p st'.disk ≡ (
              if is_some (stat env id st) && is_ok r && path_eq p (final_path_for id)
              then none
              else lookup p st.disk))
delete_view relock env id st free =
    let res = remove_chunk env id st in
    (res.0, res.1, delete_unlocked relock env id st free, remove_chunk_view env id st)

pub delete-stat_none :
    (relock : Relock) (env : Env) (id : ChunkId) (st : Store)
    → st.held ≡ []
    → env.stat_fails ≡ true
    → delete relock env id st ≡ returns (ok tt) st
unfolding remove_chunk
delete-stat_none relock env id st free e = rw (delete_unlocked relock env id st free) (ground arith)
