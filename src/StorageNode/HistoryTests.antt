-- ===== src/StorageNode/HistoryTests.antt =====
-- The theorems about sequences of calls at a concrete one.
use microsoft.Base.{◌⊎◌, some, none, ◌≡◌, ◌%◌, refl, List, [], ◌∷◌, All, if◌then◌else◌}
use microsoft.StorageNode.ChunkStore.{ChunkStoreStats, returns}
use microsoft.StorageNode.Files.{lookup}
use microsoft.StorageNode.ChunkId.{ChunkId}
use microsoft.StorageNode.LocalDisk.{
  write_chunk, lookup_file, Store, u64, counted_store, construct_at, construct, get_stats,
  list_all_chunk_ids, is_some,
}
use microsoft.StorageNode.LocalDisk.Listing.{times}
use microsoft.StorageNode.LocalDisk.History.Listed.{run-list_all_chunk_ids}
use microsoft.StorageNode.LocalDisk.Counters.{IsCounted, chunks_in, bytes_in}
use microsoft.StorageNode.LocalDisk.Reading.{IsIntact}
use microsoft.StorageNode.LocalDisk.Contract.{
  IsSame, IsUpdate, Request, put_request, get_request, verify_request, delete_request,
  exists_request, Reply, view, AreAllowed,
}
use microsoft.StorageNode.LocalDisk.Crash.{write_disks, last_disk, write_disks-construct}
use microsoft.StorageNode.LocalDisk.History.{IsWellFormed, IsSteady, run}
use microsoft.StorageNode.LocalDisk.History.Refines.{run_refines}
use microsoft.StorageNode.LocalDisk.History.Intact.{IsClean, run-IsIntact}
use microsoft.StorageNode.LocalDisk.History.Counted.{run-get_stats}
use microsoft.StorageNode.Sample.{
  content, toy_hash, sample_id, sample_id-IsChunkId, sample_uuid-IsUuid, healthy, empty_store,
  empty_store-IsIntact,
}

-- Store a chunk on a healthy system, look at it, fail to store another, and delete it.
abbrev requests : List Request
requests =
    put_request (healthy 2) sample_id content
    ∷ get_request (healthy 2) sample_id
    ∷ exists_request (healthy 2) sample_id
    ∷ put_request (healthy 2) sample_id (1 ∷ [])
    ∷ verify_request (healthy 1) sample_id
    ∷ delete_request (healthy 2) sample_id
    ∷ []

well_formed : All IsWellFormed requests
well_formed = (
  (sample_id-IsChunkId, sample_uuid-IsUuid),
  (
    sample_id-IsChunkId,
    (
      sample_id-IsChunkId,
      ((sample_id-IsChunkId, sample_uuid-IsUuid), (sample_id-IsChunkId, (sample_id-IsChunkId, tt))),
    ),
  ),
)

steady : All IsSteady requests
steady = (refl, (tt, (tt, (refl, (tt, (tt, tt))))))

run_refines_example :
    (replies : List Reply) × (st' : Store) × (run toy_hash requests empty_store
      ≡ returns replies st')
    × (st'.held ≡ [])
    × AreAllowed toy_hash (view st') (view empty_store) requests replies
run_refines_example = run_refines toy_hash requests empty_store well_formed refl

run-IsIntact_example :
    (replies : List Reply) × (st' : Store) × (run toy_hash requests empty_store
      ≡ returns replies st')
    × IsIntact toy_hash st'
    × All IsClean replies
run-IsIntact_example =
    run-IsIntact toy_hash requests empty_store well_formed refl empty_store-IsIntact

constructed : construct (healthy 2) [] ≡ some (counted_store [])
unfolding construct construct_at
constructed = refl

run-get_stats_example :
    (replies : List Reply) × (st' : Store) × (stats : ChunkStoreStats) × (run toy_hash requests
        (counted_store [])
      ≡ returns replies st')
    × (get_stats (healthy 2) st' ≡ returns stats st')
    × (stats.chunk_count ≡ chunks_in st'.disk % u64)
    × (stats.bytes_used ≡ bytes_in st'.disk % u64)
run-get_stats_example =
    run-get_stats toy_hash (healthy 2) (healthy 2) requests [] (counted_store []) constructed tt
      well_formed steady

sample_absent : lookup_file sample_id empty_store.disk ≡ none
unfolding lookup
sample_absent = refl

content-hash : toy_hash content ≡ sample_id.digest
content-hash = refl

write_disks-construct_example :
    let disks = write_disks (healthy 2) sample_id content 1 [] in
    All
      (λ d.
        (st₁ : Store) × (construct (healthy 2) d ≡ some st₁)
        × (IsSame (view empty_store) (view st₁)
            ⊎ IsUpdate sample_id (some content) (view empty_store) (view st₁))
        × IsIntact toy_hash st₁
        × IsCounted st₁)
      disks
    × (last_disk [] disks ≡ (write_chunk (healthy 2) sample_id content empty_store).1.disk)
write_disks-construct_example =
    write_disks-construct toy_hash (healthy 2) (healthy 2) sample_id content 1 empty_store refl
      sample_id-IsChunkId sample_uuid-IsUuid content-hash sample_absent tt empty_store-IsIntact

run-list_all_chunk_ids_example :
    (replies : List Reply) × (st' : Store) × (run toy_hash requests empty_store
      ≡ returns replies st')
    × (ids : List ChunkId) × (list_all_chunk_ids (healthy 2) st' ≡ returns ids st')
    × (times sample_id ids ≡ (if is_some (lookup_file sample_id st'.disk) then 1 else 0))
run-list_all_chunk_ids_example =
    run-list_all_chunk_ids toy_hash (healthy 2) requests empty_store sample_id refl well_formed refl
      (tt, tt) sample_id-IsChunkId
