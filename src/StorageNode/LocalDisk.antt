-- ===== src/StorageNode/LocalDisk.antt =====
-- local_disk_chunk_store.h and local_disk_chunk_store.cpp: chunks as files, one directory for each
-- of the first two bytes of the digest, 256 lock stripes, and two counters.
pub mod Names
pub mod Locking
pub mod Put
pub mod Counters
pub mod Reading
pub mod RoundTrip
pub mod Contract
pub mod History
pub mod Crash
pub mod Descriptors
pub mod Listing
pub mod Threads
use mathlib.Core.Bool
use Prim.Native.String.{◌++◌ as str_append}
use microsoft.Base.{
  ℕ, ◌+◌, ◌-◌, ◌%◌, ◌^◌, Bool, true, false, not, ◌&&◌, ◌||◌, Option, none, some, List, [], ◌∷◌,
  ◌++◌, String, Bytes, bytes_eq, codes, length, take, drop, leb, ◌==◌, if◌then◌else◌,
}
use microsoft.Common.Result.{Result, ok, err, is_ok}
use microsoft.StorageNode.ChunkId.{ChunkId, hash, parse}
use microsoft.StorageNode.ChunkStore.{
  ChunkStoreError, checksum_mismatch, corruption_detected, not_found, io_error,
  ChunkStoreErrorDetail, ChunkStoreStats, Outcome, returns, blocks, throws, Call, pure, ◌>>=◌,
  StoreResult,
}
use microsoft.StorageNode.Files.{
  FilePath, Disk, lookup, insert, erase, rename, stem, filename, is_chunk_file,
}
pub use microsoft.StorageNode.ChunkFiles.{
  Store, Relock, Walk, Env, u64, lock_stripe_count, failed, lookup_file, stat, is_some, waits,
  fails, grants, completes, absent, breaks_off,
}
unfoldable pub use microsoft.StorageNode.ChunkFiles.{
  shard_dir_for, final_path_for, tmp_path_for, scan, counted_store, construct_at, construct,
  contains, lock_for, get_stats, chunk_ids_in, list_all_chunk_ids,
}

-- `std::filesystem::remove(tmp_path, ec)`, whose error is ignored.
abbrev pub remove_tmp : Env → FilePath → Store → Store
remove_tmp env tmp st = if env.remove_fails then st else record st { disk = erase tmp st.disk }

-- Whether `::write` was called and did not write all.
abbrev pub write_fails : Env → Bytes → Bool
write_fails env [] = false
write_fails env (b ∷ bytes) = elim env.written [
  | none ↦ true
  | some n ↦ not (n == length (b ∷ bytes))
]

-- The temporary file after `::open` and `::write`.
abbrev pub written_part : Env → Bytes → Bytes
written_part env content = elim env.written [ none ↦ [] | some n ↦ take n content ]

-- `Put` from `create_directories` on, with the lock held and no file of this name.
unfoldable pub write_chunk : Env → ChunkId → Bytes → Store → StoreResult (Unit {0}) × Store
unfolding tmp_path_for
write_chunk env id content st =
    let tmp = tmp_path_for id env.uuid in
    let opened = record st { disk = insert tmp (written_part env content) st.disk } in
    if env.create_directories_fails
    then (failed io_error (str_append "Failed to create shard directory: " env.error_text), st)
    else if env.open_fails
    then (failed io_error "Failed to open temporary file for write", st)
    else if write_fails env content
    then (failed io_error "Failed to write chunk data", remove_tmp env tmp opened)
    else if env.fsync_fails
    then (failed io_error "Failed to fsync temporary file", remove_tmp env tmp opened)
    else if env.rename_fails
    then (failed io_error "Failed to atomically rename chunk file", remove_tmp env tmp opened)
    else (
      ok tt,
      record opened {
        disk = rename tmp (final_path_for id) opened.disk;
        chunk_count = (st.chunk_count + 1) % u64;
        bytes_used = (st.bytes_used + length content) % u64;
      },
    )

-- `Delete` with the lock held.
unfoldable pub remove_chunk : Env → ChunkId → Store → StoreResult (Unit {0}) × Store
remove_chunk env id st = elim (stat env id st) [
  | none ↦ (ok tt, st)
  | some size_before ↦
      if env.remove_fails
      then (failed io_error (str_append "Failed to delete chunk file: " env.error_text), st)
      else (
        ok tt,
        record st {
          disk = erase (final_path_for id) st.disk;
          chunk_count = (st.chunk_count + u64 - 1) % u64;
          bytes_used = (st.bytes_used + u64 - size_before % u64) % u64;
        },
      )
]

-- `Get` with the lock held; no member of the store changes.
unfoldable pub read_chunk : (Bytes → Bytes) → Env → ChunkId → Store → StoreResult Bytes
read_chunk hash_bytes env id st = elim (lookup_file id st.disk) [
  | none ↦ failed not_found "Chunk file not found or inaccessible"
  | some content ↦
      if env.stat_fails
      then failed not_found "Chunk file not found or inaccessible"
      else if env.open_fails
      then failed io_error "Failed to open chunk file for read"
      else if leb 1 (length content)
          && not (elim env.bytes_read [ none ↦ false | some n ↦ n == length content ])
      then failed io_error "Failed to read full chunk file"
      else if not (bytes_eq (hash_bytes content) id.digest)
      then failed corruption_detected "Chunk data on disk does not match its ID"
      else ok content
]

abbrev pub lift : {A : Type 0} → (Store → A × Store) → Call Store A
lift f st = let (a, st') = f st in returns a st'

-- A scope with `std::lock_guard`: the stripe is released when the body has returned.
abbrev pub release : {A : Type 0} → List ℕ → Outcome Store A → Outcome Store A
release held (returns a st) = returns a (record st { held = held })
release held blocks = blocks
release held throws = throws

abbrev pub relocked : {A : Type 0} → Relock → Outcome Store A → Outcome Store A
relocked waits r = blocks
relocked fails r = throws
relocked grants r = r

module _ (relock : Relock) where
  unfoldable pub with_lock : {A : Type 0} → ℕ → Call Store A → Call Store A
  unfolding contains
  with_lock stripe body st =
      let r = release st.held (body (record st { held = stripe ∷ st.held })) in
      if contains stripe st.held then relocked relock r else r

  unfoldable pub exists : Env → ChunkId → Call Store Bool
  exists env id = with_lock (lock_for id) λ st. returns (is_some (stat env id st)) st

  unfoldable pub delete : Env → ChunkId → Call Store (StoreResult (Unit {0}))
  delete env id = with_lock (lock_for id) (lift (remove_chunk env id))

  -- `HashBytes` is the digest of libcrypto, called through `Sha256`.
  module _ (hash_bytes : Bytes → Bytes) where
    unfoldable pub put : Env → ChunkId → Bytes → Call Store (StoreResult (Unit {0}))
    put env id content st =
        if not (bytes_eq (hash_bytes content) id.digest)
        then returns (failed checksum_mismatch "Provided chunk data does not match the ChunkId") st
        else with_lock (lock_for id)
            (λ st₁.
              (exists env id >>= λ present.
              if present then pure (ok tt) else lift (write_chunk env id content))
                st₁)
            st

    unfoldable pub get : Env → ChunkId → Call Store (StoreResult Bytes)
    get env id = with_lock (lock_for id) λ st. returns (read_chunk hash_bytes env id st) st

    unfoldable pub verify_only : Env → ChunkId → Call Store (StoreResult (Unit {0}))
    verify_only env id =
        get env id >>= λ res. elim res [ ok _ ↦ pure (ok tt) | err e ↦ pure (err e) ]
