-- ===== src/StorageNode/LocalDisk/Threads/Pending.antt =====
-- local_disk_chunk_store.cpp: the counters lag behind the files while a thread is between its
-- `rename` or `remove` and its change of the counters.
use microsoft.Base.{ℕ, ◌+◌, ◌%◌, ◌<◌, ◌≡◌, refl, none, some, Bytes, length, arith}
use microsoft.StorageNode.ChunkId.{ChunkId}
use microsoft.StorageNode.ChunkId.Parse.{IsChunkId}
use microsoft.StorageNode.Files.{Disk, lookup, insert, erase, rename}
use microsoft.StorageNode.Files.Update.{
  IsUnique, insert-IsUnique, erase-IsUnique, total-insert_light, total-erase, total-erase_light,
}
use microsoft.StorageNode.Files.Moves.{total-rename, rename-IsUnique}
use microsoft.StorageNode.LocalDisk.{Store, Env, u64, lookup_file, final_path_for, tmp_path_for}
use microsoft.StorageNode.LocalDisk.Names.{
  IsChunkId-IsNamed, final_path-is_chunk_file, tmp_path-is_chunk_file,
}
use microsoft.StorageNode.LocalDisk.Counters.{one_chunk, chunk_bytes, chunks_in, bytes_in}
use microsoft.StorageNode.LocalDisk.Threads.Whole.{IsPut, not_tmp}
use microsoft.StorageNode.LocalDisk.Threads.{
  Phase, idle, closing, counting, sizing, removing, forgetting, shrinking,
}

-- What a thread has still to add to a counter, and to take from it.
abbrev pub chunks_to_add : Phase → ℕ
chunks_to_add (counting _ _ _) = 1
chunks_to_add _ = 0

abbrev pub chunks_to_take : Phase → ℕ
chunks_to_take (forgetting _ _) = 1
chunks_to_take _ = 0

abbrev pub bytes_to_add : Phase → ℕ
bytes_to_add (counting _ _ content) = length content
bytes_to_add (sizing _ _ content) = length content
bytes_to_add _ = 0

abbrev pub bytes_to_take : Phase → ℕ
bytes_to_take (forgetting _ size_before) = size_before
bytes_to_take (shrinking _ size_before) = size_before
bytes_to_take _ = 0

-- A step from one phase and store to the next changes a counter, what is pending on it and the files
-- by amounts that agree.
pub record IsBalanced (p : Phase) (st : Store) (p' : Phase) (st' : Store) : Type 0 where
  pub count :
      (st'.chunk_count + chunks_to_add p' + chunks_in st.disk + chunks_to_take p) % u64
      ≡ (st.chunk_count + chunks_to_add p + chunks_in st'.disk + chunks_to_take p') % u64
  pub bytes :
      (st'.bytes_used + bytes_to_add p' + bytes_in st.disk + bytes_to_take p) % u64
      ≡ (st.bytes_used + bytes_to_add p + bytes_in st'.disk + bytes_to_take p') % u64
  pub unique : IsUnique st'.disk
  pub bounded :
      st.chunk_count < u64 × st.bytes_used < u64 → st'.chunk_count < u64 × st'.bytes_used < u64

abbrev HasNone : Phase → Type 0
HasNone p =
    (chunks_to_add p ≡ 0) × (chunks_to_take p ≡ 0) × (bytes_to_add p ≡ 0) × (bytes_to_take p ≡ 0)

pub kept-IsBalanced :
    (p p' : Phase) (st : Store) (disk : Disk)
    → HasNone p
    → HasNone p'
    → chunks_in disk ≡ chunks_in st.disk
    → bytes_in disk ≡ bytes_in st.disk
    → IsUnique disk
    → IsBalanced p st p' (record st { disk = disk })
kept-IsBalanced p p' st disk (a, b, c, d) (a', b', c', d') chunks bytes u = record {
  count = rw (a, b, a', b', chunks) refl;
  bytes = rw (c, d, c', d', bytes) refl;
  unique = u;
  bounded = λ b. b;
}

pub none_pending :
    (chunks_to_add idle ≡ 0)
    × (chunks_to_take idle ≡ 0)
    × (bytes_to_add idle ≡ 0)
    × (bytes_to_take idle ≡ 0)
none_pending = (refl, refl, refl, refl)

module _ (hash_bytes : Bytes → Bytes) (env : Env) (id : ChunkId) (content : Bytes) (st : Store)
    (put : IsPut hash_bytes env id content) (u : IsUnique st.disk) where
  light_count : (b : Bytes) → one_chunk (tmp_path_for id env.uuid) b ≡ 0
  light_count b = rw (tmp_path-is_chunk_file id env.uuid (IsChunkId-IsNamed id put.0) put.1) refl

  light_bytes : (b : Bytes) → chunk_bytes (tmp_path_for id env.uuid) b ≡ 0
  light_bytes b = rw (tmp_path-is_chunk_file id env.uuid (IsChunkId-IsNamed id put.0) put.1) refl

  pub insert_tmp-IsBalanced :
      (p p' : Phase) (part : Bytes)
      → HasNone p
      → HasNone p'
      → IsBalanced p st p' (record st { disk = insert (tmp_path_for id env.uuid) part st.disk })
  insert_tmp-IsBalanced p p' part h h' =
      kept-IsBalanced p p' st _ h h' (total-insert_light one_chunk _ part st.disk light_count)
        (total-insert_light chunk_bytes _ part st.disk light_bytes)
        (insert-IsUnique _ part st.disk u)

  pub erase_tmp-IsBalanced :
      (p p' : Phase)
      → HasNone p
      → HasNone p'
      → IsBalanced p st p' (record st { disk = erase (tmp_path_for id env.uuid) st.disk })
  erase_tmp-IsBalanced p p' h h' =
      kept-IsBalanced p p' st _ h h' (total-erase_light one_chunk _ st.disk light_count)
        (total-erase_light chunk_bytes _ st.disk light_bytes) (erase-IsUnique _ st.disk u)

  -- The `rename` that completes a `Put`.
  pub rename_tmp-IsBalanced :
      lookup (tmp_path_for id env.uuid) st.disk ≡ some content
      → lookup_file id st.disk ≡ none
      → IsBalanced
          (closing env id content)
          st
          (counting env id content)
          (record st { disk = rename (tmp_path_for id env.uuid) (final_path_for id) st.disk })
  rename_tmp-IsBalanced there free =
      let ne = not_tmp hash_bytes env id content put id put.0 in
      let chunk = final_path-is_chunk_file id (IsChunkId-IsNamed id put.0) in
      record {
        count =
            rw
              (
                total-rename (tmp_path_for id env.uuid) (final_path_for id) content st.disk ne free
                    there one_chunk light_count,
                chunk,
              )
              (omega arith);
        bytes =
            rw
              (
                total-rename (tmp_path_for id env.uuid) (final_path_for id) content st.disk ne free
                    there chunk_bytes light_bytes,
                chunk,
              )
              (omega arith);
        unique =
            rename-IsUnique (tmp_path_for id env.uuid) (final_path_for id) content st.disk ne free
              there u;
        bounded = λ b. b;
      }

pub removed-IsBalanced :
    (env : Env) (id : ChunkId) (st : Store) (c : Bytes)
    → IsChunkId id
    → IsUnique st.disk
    → lookup_file id st.disk ≡ some c
    → IsBalanced
        (removing env id)
        st
        (forgetting id (length c))
        (record st { disk = erase (final_path_for id) st.disk })
removed-IsBalanced env id st c v u there =
    let chunk = final_path-is_chunk_file id (IsChunkId-IsNamed id v) in
    record {
      count = ground (arith, chunk, total-erase one_chunk (final_path_for id) c st.disk u there);
      bytes = ground (arith, chunk, total-erase chunk_bytes (final_path_for id) c st.disk u there);
      unique = erase-IsUnique (final_path_for id) st.disk u;
      bounded = λ b. b;
    }
