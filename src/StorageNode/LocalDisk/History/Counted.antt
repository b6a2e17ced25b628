-- ===== src/StorageNode/LocalDisk/History/Counted.antt =====
-- local_disk_chunk_store.cpp, `GetStats` after any sequence of calls.
use microsoft.Base.{Bool, true, false, some, ◌≡◌, ◌%◌, refl, List, [], ◌∷◌, Bytes, All}
use microsoft.StorageNode.ChunkStore.{ChunkStoreStats, returns, ◌>>=◌}
use microsoft.StorageNode.Files.{Disk}
use microsoft.StorageNode.Files.Update.{IsUnique}
use microsoft.StorageNode.LocalDisk.{
  Store, Walk, Env, u64, completes, absent, breaks_off, counted_store, construct_at, construct,
  get_stats,
}
use microsoft.StorageNode.LocalDisk.Counters.{
  IsCounted, chunks_in, bytes_in, put_result-IsCounted, counted_store-IsCounted,
}
use microsoft.StorageNode.LocalDisk.Counters.Delete.{remove_chunk-IsCounted}
use microsoft.StorageNode.LocalDisk.Contract.{
  Request, Reply, put_request, get_request, verify_request, delete_request, exists_request,
}
use microsoft.StorageNode.LocalDisk.History.{IsWellFormed, IsSteady, run}
use microsoft.StorageNode.LocalDisk.History.Refines.{after, answered}

after-IsCounted :
    (hash_bytes : Bytes → Bytes) (request : Request) (st : Store)
    → IsWellFormed request
    → IsSteady request
    → IsCounted st
    → IsCounted (after hash_bytes request st)
after-IsCounted hash_bytes (put_request env id bytes) st valid steady v =
    put_result-IsCounted hash_bytes env id bytes st valid.0 valid.1 steady v
after-IsCounted hash_bytes (delete_request env id) st valid steady v =
    remove_chunk-IsCounted env id st valid v
after-IsCounted hash_bytes (get_request env id) st valid steady v = v
after-IsCounted hash_bytes (verify_request env id) st valid steady v = v
after-IsCounted hash_bytes (exists_request env id) st valid steady v = v

run-IsCounted :
    (hash_bytes : Bytes → Bytes) (requests : List Request) (st : Store)
    → All IsWellFormed requests
    → All IsSteady requests
    → st.held ≡ []
    → IsCounted st
    → (replies : List Reply) × (st' : Store) × (run hash_bytes requests st ≡ returns replies st')
      × IsCounted st'
unfolding run
run-IsCounted hash_bytes [] st valid steady free v = ([], st, refl, v)
run-IsCounted hash_bytes (request ∷ requests) st valid steady free v =
    let (reply, called, free₁, _) = answered hash_bytes request st valid.0 free in
    let v₁ = after-IsCounted hash_bytes request st valid.0 steady.0 v in
    let (replies, st₂, ran, v₂) =
      run-IsCounted hash_bytes requests (after hash_bytes request st) valid.1 steady.1 free₁ v₁ in
    (reply ∷ replies, st₂, rw (called, ◌>>=◌, ran) refl, v₂)

counted_store-held : (d : Disk) → (counted_store d).held ≡ []
unfolding counted_store
counted_store-held d = refl

-- What holds of the store over the files and of an empty one holds of what the constructor leaves.
construct_at_elim :
    (P : Store → Type 0) (walk : Walk) (create_fails : Bool) (d : Disk) (st : Store)
    → construct_at walk create_fails d ≡ some st
    → P (counted_store d)
    → P (counted_store [])
    → P st
unfolding construct_at
construct_at_elim P completes create_fails d st e whole fresh =
    let same : counted_store d ≡ st = cc in rw (← same) whole
construct_at_elim P absent true d st e whole fresh = absurd cc
construct_at_elim P absent false d st e whole fresh =
    let same : counted_store [] ≡ st = cc in rw (← same) fresh
construct_at_elim P breaks_off create_fails d st e whole fresh = absurd cc

-- The constructor, where it throws no exception, counts the chunk files and their bytes.
construct-IsCounted :
    (env : Env) (d : Disk) (st : Store)
    → construct env d ≡ some st
    → IsUnique d
    → IsCounted st × (st.held ≡ [])
unfolding construct
construct-IsCounted env d st constructed unique =
    construct_at_elim (λ s. IsCounted s × (s.held ≡ [])) env.walk env.create_directories_fails d st
      constructed (counted_store-IsCounted d unique, counted_store-held d)
      (counted_store-IsCounted [] tt, counted_store-held [])

-- A store that is constructed over files with distinct paths, without an exception, and then serves
-- any sequence of well-formed requests, on success and on every failure: `get_stats` reports the
-- number of chunk files then on the disk and the sum of their sizes, modulo 2 ^ 64. The mutex lets
-- its owner in again, and `put` can read the state of the file.
pub run-get_stats :
    (hash_bytes : Bytes → Bytes) (env env' : Env) (requests : List Request) (d : Disk) (st : Store)
    → construct env d ≡ some st
    → IsUnique d
    → All IsWellFormed requests
    → All IsSteady requests
    → (replies : List Reply) × (st' : Store) × (stats : ChunkStoreStats) × (run hash_bytes requests
          st
        ≡ returns replies st')
      × (get_stats env' st' ≡ returns stats st')
      × (stats.chunk_count ≡ chunks_in st'.disk % u64)
      × (stats.bytes_used ≡ bytes_in st'.disk % u64)
unfolding get_stats
run-get_stats hash_bytes env env' requests d st constructed unique valid steady =
    let (counted, free) = construct-IsCounted env d st constructed unique in
    let (replies, st', ran, v) = run-IsCounted hash_bytes requests st valid steady free counted in
    (replies, st', _, ran, refl, v.count, v.bytes)
