-- ===== src/StorageNode/LocalDisk/Counters/Delete.antt =====
-- local_disk_chunk_store.cpp, `Delete` and the counters.
use microsoft.Base.{◌+◌, ◌-◌, ◌%◌, ◌≡◌, some, [], Bytes, length, arith, Option-cases, inl, inr}
use microsoft.StorageNode.ChunkId.{ChunkId}
use microsoft.StorageNode.ChunkId.Parse.{IsChunkId}
use microsoft.StorageNode.ChunkStore.{returns, StoreResult}
use microsoft.StorageNode.Files.{erase}
use microsoft.StorageNode.Files.Update.{erase-IsUnique, total-erase}
use microsoft.StorageNode.LocalDisk.{
  Store, Env, Relock, u64, delete, final_path_for, remove_chunk, lookup_file,
}
use microsoft.StorageNode.LocalDisk.Names.{IsNamed, IsChunkId-IsNamed, final_path-is_chunk_file}
use microsoft.StorageNode.LocalDisk.Locking.{delete_unlocked}
use microsoft.StorageNode.LocalDisk.Counters.{IsCounted, one_chunk, chunk_bytes}

pub remove_chunk_cases :
    (P : Store → Type 0) (env : Env) (id : ChunkId) (st : Store)
    → P st
    → ((c : Bytes)
        → lookup_file id st.disk ≡ some c
        → P (record st {
          disk = erase (final_path_for id) st.disk;
          chunk_count = (st.chunk_count + u64 - 1) % u64;
          bytes_used = (st.bytes_used + u64 - length c % u64) % u64;
        }))
    → P (remove_chunk env id st).1
unfolding remove_chunk
remove_chunk_cases P env id st unchanged removed = elim (Option-cases (lookup_file id st.disk)) [
  | inl absent ↦ ground arith
  | inr (c, present) ↦ ground (arith, removed c present)
]

removed-IsCounted :
    (id : ChunkId) (st : Store) (c : Bytes)
    → IsNamed id
    → IsCounted st
    → lookup_file id st.disk ≡ some c
    → IsCounted (record st {
      disk = erase (final_path_for id) st.disk;
      chunk_count = (st.chunk_count + u64 - 1) % u64;
      bytes_used = (st.bytes_used + u64 - length c % u64) % u64;
    })
removed-IsCounted id st c named v present = record {
  unique = erase-IsUnique (final_path_for id) st.disk v.unique;
  count = ground (
    arith,
    final_path-is_chunk_file id named,
    total-erase one_chunk (final_path_for id) c st.disk v.unique present,
  );
  bytes = ground (
    arith,
    final_path-is_chunk_file id named,
    total-erase chunk_bytes (final_path_for id) c st.disk v.unique present,
  );
}

pub remove_chunk-IsCounted :
    (env : Env) (id : ChunkId) (st : Store)
    → IsChunkId id
    → IsCounted st
    → IsCounted (remove_chunk env id st).1
remove_chunk-IsCounted env id st valid v =
    remove_chunk_cases IsCounted env id st v
      λ c present. removed-IsCounted id st c (IsChunkId-IsNamed id valid) v present

-- `delete` of a well-formed chunk id, called by a thread that holds no stripe, comes back and keeps
-- the counters equal to what the constructor would count, modulo 2 ^ 64.
delete-IsCounted :
    (relock : Relock) (env : Env) (id : ChunkId) (st : Store)
    → IsChunkId id
    → st.held ≡ []
    → IsCounted st
    → (r : StoreResult (Unit {0})) × (st' : Store) × (delete relock env id st ≡ returns r st')
      × IsCounted st'
delete-IsCounted relock env id st valid free v =
    let res = remove_chunk env id st in
    (res.0, res.1, delete_unlocked relock env id st free, remove_chunk-IsCounted env id st valid v)
