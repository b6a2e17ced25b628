-- ===== src/StorageNode/ChunkFiles.antt =====
-- local_disk_chunk_store.h and local_disk_chunk_store.cpp: the state of a local disk chunk store,
-- what the system answers to it, the names of its files, its constructor, `GetStats` and
-- `ListAllChunkIds`.
use microsoft.Base.{
  ℕ, ◌+◌, ◌%◌, ◌^◌, Bool, true, false, ◌||◌, Option, none, some, List, [], ◌∷◌, ◌++◌, String, Bytes,
  codes, length, take, drop, ◌==◌, if◌then◌else◌,
}
use microsoft.Common.Result.{ok, err}
use microsoft.StorageNode.ChunkId.{ChunkId, hash, parse}
use microsoft.StorageNode.ChunkStore.{
  ChunkStoreError, ChunkStoreStats, returns, throws, Call, StoreResult,
}
use microsoft.StorageNode.Files.{FilePath, Disk, lookup, stem, filename, is_chunk_file}

-- The state: the files, the atomic counters, and the stripes that the calling thread holds.
pub record Store : Type 0 where
  pub disk : Disk
  pub chunk_count : ℕ
  pub bytes_used : ℕ
  pub held : List ℕ

-- What `std::mutex::lock` does when the calling thread holds the mutex: it waits for ever, it
-- throws, or (as a recursive mutex, or where locking does nothing) it goes on. The standard leaves
-- this open.
pub data Relock : Type 0 where
  waits fails grants : Relock

-- What the system answers to the constructor and to `ListAllChunkIds`: the data root is there and
-- the walk over it comes to its end, the root is not there, or an exception is thrown, by `exists`,
-- the iterator, `is_regular_file` or `file_size`.
pub data Walk : Type 0 where
  completes absent breaks_off : Walk

-- What the system answers during one operation. `none` is a result of -1, or an error code.
pub record Env : Type 0 where
  pub create_directories_fails : Bool
  pub uuid : Bytes
  pub open_fails : Bool
  pub written : Option ℕ
  pub fsync_fails : Bool
  pub rename_fails : Bool
  pub remove_fails : Bool
  pub stat_fails : Bool
  pub bytes_read : Option ℕ
  pub space : Option ℕ
  pub walk : Walk
  pub error_text : String

abbrev pub u64 : ℕ
u64 = 2 ^ 64

abbrev pub lock_stripe_count : ℕ
lock_stripe_count = 256

unfoldable pub shard_dir_for : ChunkId → FilePath
shard_dir_for id = take 2 id.hex ∷ take 2 (drop 2 id.hex) ∷ []

unfoldable pub final_path_for : ChunkId → FilePath
unfolding shard_dir_for
final_path_for id = shard_dir_for id ++ (id.hex ++ codes ".chunk") ∷ []

unfoldable pub tmp_path_for : ChunkId → Bytes → FilePath
unfolding shard_dir_for
tmp_path_for id uuid = shard_dir_for id ++ (id.hex ++ (codes ".tmp." ++ uuid)) ∷ []

-- The loop of the constructor over the directory: how many chunk files, and their bytes.
unfoldable pub scan : ℕ → ℕ → Disk → ℕ × ℕ
scan count bytes [] = (count, bytes)
scan count bytes ((p, content) ∷ d) =
    if is_chunk_file p
    then scan ((count + 1) % u64) ((bytes + length content) % u64) d
    else scan count bytes d

-- The store over the files that the loop has met.
unfoldable pub counted_store : Disk → Store
unfolding scan
counted_store disk =
    let (count, bytes) = scan 0 0 disk in
    record { disk = disk; chunk_count = count; bytes_used = bytes; held = [] }

-- The constructor over the files below the data root. `none` is an exception.
unfoldable pub construct_at : Walk → Bool → Disk → Option Store
construct_at completes create_fails disk = some (counted_store disk)
construct_at absent true disk = none
construct_at absent false disk = some (counted_store [])
construct_at breaks_off create_fails disk = none

unfoldable pub construct : Env → Disk → Option Store
unfolding construct_at
construct env disk = construct_at env.walk env.create_directories_fails disk

unfoldable pub contains : ℕ → List ℕ → Bool
contains stripe [] = false
contains stripe (s ∷ held) = stripe == s || contains stripe held

unfoldable pub lock_for : ChunkId → ℕ
lock_for id = hash id % lock_stripe_count

abbrev pub failed : {A : Type 0} → ChunkStoreError → String → StoreResult A
failed kind message = err (record { kind = kind; message = message })

abbrev pub lookup_file : ChunkId → Disk → Option Bytes
lookup_file id disk = lookup (final_path_for id) disk

-- `existed` of `Delete`, the result of `exists` and the size that `file_size` gives.
abbrev pub stat : Env → ChunkId → Store → Option ℕ
stat env id st =
    if env.stat_fails
    then none
    else elim (lookup_file id st.disk) [ none ↦ none | some content ↦ some (length content) ]

abbrev pub is_some : {A : Type 0} → Option A → Bool
is_some none = false
is_some (some _) = true

unfoldable pub get_stats : Env → Call Store ChunkStoreStats
get_stats env st =
    returns
      (record {
        chunk_count = st.chunk_count;
        bytes_used = st.bytes_used;
        bytes_free = elim env.space [ none ↦ 0 | some free ↦ free ];
      })
      st

-- The loop of `ListAllChunkIds`.
unfoldable pub chunk_ids_in : Disk → List ChunkId
chunk_ids_in [] = []
chunk_ids_in ((p, content) ∷ d) =
    let rest = chunk_ids_in d in
    if is_chunk_file p
    then elim (parse (stem (filename p))) [ ok id ↦ id ∷ rest | err e ↦ rest ]
    else rest

unfoldable pub list_all_chunk_ids : Env → Call Store (List ChunkId)
list_all_chunk_ids env st = elim env.walk [
  | completes ↦ returns (chunk_ids_in st.disk) st
  | absent ↦ returns [] st
  | breaks_off ↦ throws
]
