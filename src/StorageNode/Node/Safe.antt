-- ===== src/StorageNode/Node/Safe.antt =====
-- local_disk_chunk_store.cpp as the store of storage_node_service_impl.cpp: what the handlers ask of
-- it, where the mutex lets its owner in again.
use microsoft.Base.{◌≡◌, refl, ◌∙◌, [], Bytes, arith}
use microsoft.Common.Result.{ok, err}
use microsoft.StorageNode.ChunkId.{ChunkId}
use microsoft.StorageNode.ChunkId.Parse.{IsChunkId}
use microsoft.StorageNode.ChunkStore.{StoreResult, ◌>>=◌}
use microsoft.StorageNode.LocalDisk.{
  Store, Env, grants, verify_only, get_stats, read_chunk, remove_chunk,
}
use microsoft.StorageNode.LocalDisk.Names.{IsUuid}
use microsoft.StorageNode.LocalDisk.Locking.{put_result, put_granted, get_unlocked, delete_unlocked}
use microsoft.StorageNode.LocalDisk.RoundTrip.{put_result_held}
use microsoft.StorageNode.LocalDisk.Reading.{IsIntact}
use microsoft.StorageNode.LocalDisk.Contract.{
  View, put_request, get_request, verify_request, delete_request, done, content, view, IsAllowed,
  reads, get_fails,
}
use microsoft.StorageNode.LocalDisk.History.Allowed.{
  get-IsAllowed, verify-IsAllowed, put-IsAllowed, delete-IsAllowed,
}
use microsoft.StorageNode.LocalDisk.History.Refines.{remove_chunk_held}
use microsoft.StorageNode.LocalDisk.History.Intact.{
  IsClean, AreTrue, allowed-AreTrue, get_error-clean,
}
use microsoft.StorageNode.Service.Safe.{NoCorruption, IsTrueRead, IsSafeStore}
use microsoft.StorageNode.Node.{local_disk}

-- A store that the thread has not locked, whose files are true to their names.
abbrev pub IsReadyStore : (Bytes → Bytes) → Store → Type 0
IsReadyStore hash_bytes st = (st.held ≡ []) × IsIntact hash_bytes st

abbrev pub HasDigest : (Bytes → Bytes) → ChunkId → Bytes → Type 0
HasDigest hash_bytes id bytes = hash_bytes bytes ≡ id.digest

done-NoCorruption : (r : StoreResult (Unit {0})) → IsClean (done r) → NoCorruption r
done-NoCorruption (ok _) clean = tt
done-NoCorruption (err e) clean = clean

module _ (hash_bytes : Bytes → Bytes) (env : Env) where
  read-IsTrueRead :
      (f f' : View) (id : ChunkId) (r : StoreResult Bytes)
      → IsChunkId id
      → AreTrue hash_bytes f
      → IsAllowed hash_bytes f f' (get_request env id) (content r)
      → IsTrueRead (HasDigest hash_bytes) id r
  read-IsTrueRead f f' id _ v t (reads there same _) = same
  read-IsTrueRead f f' id _ v t (get_fails {e = e} h _) =
      get_error-clean hash_bytes f env id t v e h

  pub local_disk-IsSafeStore :
      IsUuid env.uuid
      → IsSafeStore
          (local_disk grants hash_bytes env)
          (IsReadyStore hash_bytes)
          (HasDigest hash_bytes)
  unfolding local_disk verify_only get_stats
  local_disk-IsSafeStore uuid = record {
    put_safe = λ id bytes st v (free, intact).
        let (r, st') = put_result hash_bytes env id bytes st in
        let (intact', clean) =
          allowed-AreTrue hash_bytes (view st) (view st') (put_request env id bytes) (done r)
            (v, uuid) (put-IsAllowed hash_bytes env id st bytes r v uuid refl) intact in
        (
          r,
          st',
          put_granted hash_bytes env id bytes st,
          (put_result_held hash_bytes env id bytes st ∙ free, intact'),
          done-NoCorruption r clean,
        );
    get_safe = λ id st v (free, intact).
        let r = read_chunk hash_bytes env id st in
        (
          r,
          st,
          get_unlocked grants hash_bytes env id st free,
          (free, intact),
          read-IsTrueRead (view st) (view st) id r v intact
              (get-IsAllowed hash_bytes env id st r refl),
        );
    verify_safe = λ id st v (free, intact).
        let r : StoreResult (Unit {0}) = elim (read_chunk hash_bytes env id st) [
          | ok _ ↦ ok tt
          | err e ↦ err e
        ] in
        let (intact', clean) =
          allowed-AreTrue hash_bytes (view st) (view st) (verify_request env id) (done r) v
            (verify-IsAllowed hash_bytes env id st (read_chunk hash_bytes env id st) refl) intact in
        (
          r,
          st,
          rw (get_unlocked grants hash_bytes env id st free, ◌>>=◌) (ground arith),
          (free, intact'),
          done-NoCorruption r clean,
        );
    delete_safe = λ id st v (free, intact).
        let (r, st') = remove_chunk env id st in
        let (intact', clean) =
          allowed-AreTrue hash_bytes (view st) (view st') (delete_request env id) (done r) v
            (delete-IsAllowed hash_bytes env id st r refl) intact in
        (
          r,
          st',
          delete_unlocked grants env id st free,
          (remove_chunk_held hash_bytes env id st ∙ free, intact'),
          done-NoCorruption r clean,
        );
    stats_safe = λ st i. (_, st, refl, i, tt);
  }
