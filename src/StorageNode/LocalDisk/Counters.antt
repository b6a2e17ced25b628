-- ===== src/StorageNode/LocalDisk/Counters.antt =====
-- local_disk_chunk_store.cpp, `chunk_count_` and `bytes_used_`: the counters of a running store are
-- those that the constructor would compute from its files.
pub mod Delete
use microsoft.Base.{
  ℕ, ◌+◌, ◌-◌, ◌%◌, ◌≡◌, refl, sym, ap, ◌∙◌, false, none, some, [], ◌∷◌, Bytes, length, arith,
  Option-cases, Bool-cases, inl, inr, if◌then◌else◌,
}
use microsoft.StorageNode.ChunkId.{ChunkId}
use microsoft.StorageNode.ChunkId.Parse.{IsChunkId}
use microsoft.StorageNode.ChunkStore.{returns, StoreResult}
use microsoft.StorageNode.Files.{
  FilePath, path_eq, Disk, lookup, insert, erase, rename, is_chunk_file,
}
use microsoft.StorageNode.Files.Update.{
  lookup-insert, lookup-erase, IsUnique, insert-IsUnique, erase-IsUnique, total, total-insert_new,
  total-insert_light, total-erase, total-erase_light, path_eq_refl,
}
use microsoft.StorageNode.Files.Moves.{total-renamed, IsUnique-renamed}
use microsoft.StorageNode.LocalDisk.{
  Store, Env, Relock, grants, u64, put, delete, scan, counted_store, stat, is_some, final_path_for,
  tmp_path_for, write_chunk, remove_chunk, lookup_file, written_part, remove_tmp, write_fails,
}
use microsoft.StorageNode.LocalDisk.Names.{
  IsUuid, IsNamed, IsChunkId-IsNamed, final_path-is_chunk_file, tmp_path-is_chunk_file,
}
use microsoft.StorageNode.LocalDisk.Put.{ne_tmp, written_part_all}
use microsoft.StorageNode.LocalDisk.Locking.{put_result, put_granted, delete_unlocked}

abbrev pub one_chunk : FilePath → Bytes → ℕ
one_chunk p content = if is_chunk_file p then 1 else 0

abbrev pub chunk_bytes : FilePath → Bytes → ℕ
chunk_bytes p content = if is_chunk_file p then length content else 0

-- The chunk files and their bytes, counted without bound.
abbrev pub chunks_in : Disk → ℕ
chunks_in = total one_chunk

abbrev pub bytes_in : Disk → ℕ
bytes_in = total chunk_bytes

scan-total :
    (c b : ℕ) (d : Disk)
    → scan (c % u64) (b % u64) d ≡ ((c + chunks_in d) % u64, (b + bytes_in d) % u64)
unfolding scan total
scan-total c b [] = ground arith
scan-total c b ((p, content) ∷ d) = elim (Bool-cases (is_chunk_file p)) [
  | inl chunk ↦
      let one : (c % u64 + 1) % u64 ≡ (c + 1) % u64 = omega arith in
      let more : (b % u64 + length content) % u64 ≡ (b + length content) % u64 = omega arith in
      rw (chunk, one, more, scan-total (c + 1) (b + length content) d) (ground arith)
  | inr other ↦ rw (other, scan-total c b d) (ground arith)
]

-- The counters agree with the files, modulo 2 ^ 64, and no path is listed twice.
pub record IsCounted (st : Store) : Type 0 where
  pub unique : IsUnique st.disk
  pub count : st.chunk_count ≡ chunks_in st.disk % u64
  pub bytes : st.bytes_used ≡ bytes_in st.disk % u64

-- Over files with distinct paths, the constructor's loop counts the chunk files and their bytes
-- modulo 2 ^ 64.
pub counted_store-IsCounted : (d : Disk) → IsUnique d → IsCounted (counted_store d)
unfolding counted_store
counted_store-IsCounted d u =
    let counted : scan 0 0 d ≡ ((0 + chunks_in d) % u64, (0 + bytes_in d) % u64) =
      scan-total 0 0 d in
    record { unique = u; count = rw counted (omega arith); bytes = rw counted (omega arith) }

pub put_result_cases :
    (P : Store → Type 0) (hash_bytes : Bytes → Bytes) (env : Env) (id : ChunkId) (content : Bytes)
    (st : Store)
    → P st
    → (is_some (stat env id st) ≡ false → P (write_chunk env id content st).1)
    → P (put_result hash_bytes env id content st).1
unfolding put_result
put_result_cases P hash_bytes env id content st unchanged written = ground arith

-- The three stores that the end of `put` can leave.
pub write_chunk_cases :
    (P : Store → Type 0) (env : Env) (id : ChunkId) (content : Bytes) (st : Store)
    → P st
    → P (
        remove_tmp env (tmp_path_for id env.uuid) (record st {
          disk = insert (tmp_path_for id env.uuid) (written_part env content) st.disk;
        }))
    → (write_fails env content ≡ false
        → P (record st {
          disk =
              rename
                (tmp_path_for id env.uuid)
                (final_path_for id)
                (insert (tmp_path_for id env.uuid) (written_part env content) st.disk);
          chunk_count = (st.chunk_count + 1) % u64;
          bytes_used = (st.bytes_used + length content) % u64;
        }))
    → P (write_chunk env id content st).1
unfolding write_chunk
write_chunk_cases P env id content st unchanged aborted done = ground arith

module _ (env : Env) (id : ChunkId) (content : Bytes) (st : Store) (named : IsNamed id)
    (uuid : IsUuid env.uuid) (v : IsCounted st) where
  light_count : (b : Bytes) → one_chunk (tmp_path_for id env.uuid) b ≡ 0
  light_count b = rw (tmp_path-is_chunk_file id env.uuid named uuid) refl

  light_bytes : (b : Bytes) → chunk_bytes (tmp_path_for id env.uuid) b ≡ 0
  light_bytes b = rw (tmp_path-is_chunk_file id env.uuid named uuid) refl

  aborted-IsCounted :
      (c : Bytes)
      → IsCounted (
          remove_tmp env
            (tmp_path_for id env.uuid)
            (record st { disk = insert (tmp_path_for id env.uuid) c st.disk }))
  aborted-IsCounted c = elim (Bool-cases env.remove_fails) [
    | inl keeps ↦ rw keeps (record {
      unique = insert-IsUnique _ c st.disk v.unique;
      count =
          v.count ∙ ap (λ n. n % u64) (sym (total-insert_light one_chunk _ c st.disk light_count));
      bytes =
          v.bytes
          ∙ ap (λ n. n % u64) (sym (total-insert_light chunk_bytes _ c st.disk light_bytes));
    })
    | inr removes ↦ rw removes (record {
      unique = erase-IsUnique _ _ (insert-IsUnique _ c st.disk v.unique);
      count =
          v.count
          ∙ ap (λ n. n % u64)
              (sym (
                total-erase_light one_chunk _ _ light_count
                ∙ total-insert_light one_chunk _ c st.disk light_count));
      bytes =
          v.bytes
          ∙ ap (λ n. n % u64)
              (sym (
                total-erase_light chunk_bytes _ _ light_bytes
                ∙ total-insert_light chunk_bytes _ c st.disk light_bytes));
    })
  ]

  write_chunk-IsCounted :
      lookup_file id st.disk ≡ none → IsCounted (write_chunk env id content st).1
  write_chunk-IsCounted free =
      write_chunk_cases IsCounted env id content st v (aborted-IsCounted (written_part env content))
        λ whole. rw (written_part_all env content whole) (record {
          unique =
              IsUnique-renamed (tmp_path_for id env.uuid) (final_path_for id) content st.disk ne
                free v.unique;
          count =
              rw
                (
                  total-renamed (tmp_path_for id env.uuid) (final_path_for id) content st.disk ne
                      free one_chunk light_count,
                  final_path-is_chunk_file id named,
                )
                (omega (arith, v.count));
          bytes =
              rw
                (
                  total-renamed (tmp_path_for id env.uuid) (final_path_for id) content st.disk ne
                      free chunk_bytes light_bytes,
                  final_path-is_chunk_file id named,
                )
                (omega (arith, v.bytes));
        })
    where
      ne : path_eq (final_path_for id) (tmp_path_for id env.uuid) ≡ false
      ne = ne_tmp id env.uuid (final_path_for id) named uuid (final_path-is_chunk_file id named)

pub stat-none :
    (env : Env) (id : ChunkId) (st : Store)
    → env.stat_fails ≡ false
    → is_some (stat env id st) ≡ false
    → lookup_file id st.disk ≡ none
stat-none env id st ok_stat e = elim (Option-cases (lookup_file id st.disk)) [
  | inl absent ↦ absent
  | inr (c, present) ↦ ground arith
]

pub put_result-IsCounted :
    (hash_bytes : Bytes → Bytes) (env : Env) (id : ChunkId) (content : Bytes) (st : Store)
    → IsChunkId id
    → IsUuid env.uuid
    → env.stat_fails ≡ false
    → IsCounted st
    → IsCounted (put_result hash_bytes env id content st).1
put_result-IsCounted hash_bytes env id content st valid uuid statted v =
    put_result_cases IsCounted hash_bytes env id content st v λ absent.
      write_chunk-IsCounted env id content st (IsChunkId-IsNamed id valid) uuid v
        (stat-none env id st statted absent)

-- Where the mutex lets its owner in again, `put` of a well-formed chunk id comes back and keeps the
-- counters equal to what the constructor would count, modulo 2 ^ 64, on success and on every
-- failure, as long as `exists` can read the state of the file.
put-IsCounted :
    (hash_bytes : Bytes → Bytes) (env : Env) (id : ChunkId) (content : Bytes) (st : Store)
    → IsChunkId id
    → IsUuid env.uuid
    → env.stat_fails ≡ false
    → IsCounted st
    → (r : StoreResult (Unit {0})) × (st' : Store) × (put grants hash_bytes env id content st
        ≡ returns r st')
      × IsCounted st'
put-IsCounted hash_bytes env id content st valid uuid statted v =
    let res = put_result hash_bytes env id content st in
    (
      res.0,
      res.1,
      put_granted hash_bytes env id content st,
      put_result-IsCounted hash_bytes env id content st valid uuid statted v,
    )
