-- ===== src/StorageNode/Tests.antt =====
-- The theorems about the chunk store at concrete inputs.
use microsoft.Base.{◌≡◌, ◌≢◌, refl, none, some, [], ◌∷◌, Bytes}
use microsoft.Common.Result.{ok}
use microsoft.StorageNode.ChunkStore.{returns, blocks, throws}
use microsoft.StorageNode.Files.{lookup}
use microsoft.StorageNode.Files.Update.{path_eq_refl}
use microsoft.StorageNode.LocalDisk.{
  Store, waits, fails, grants, put, get, lookup_file, final_path_for, counted_store,
}
use microsoft.StorageNode.LocalDisk.Locking.{put_deadlock}
use microsoft.StorageNode.LocalDisk.RoundTrip.{Writes, put-get}
use microsoft.StorageNode.LocalDisk.Reading.{Reads}
use microsoft.StorageNode.Sample.{
  content, toy_hash, sample_id, sample_id-IsChunkId, sample_uuid-IsUuid, healthy, empty_store,
}

absent : lookup_file sample_id [] ≡ none
unfolding lookup
absent = refl

writes : Writes (healthy 2) content
writes = record {
  statted = refl;
  created = refl;
  opened = refl;
  whole = refl;
  synced = refl;
  renamed = refl;
}

reads : Reads (healthy 2) content
reads = record { found = refl; opened = refl; whole = refl }

put-get_example :
    (st' : Store) × (put grants toy_hash (healthy 2) sample_id content empty_store
      ≡ returns (ok tt) st')
    × (get grants toy_hash (healthy 2) sample_id st' ≡ returns (ok content) st')
put-get_example =
    put-get toy_hash (healthy 2) (healthy 2) sample_id content empty_store sample_id-IsChunkId
      sample_uuid-IsUuid refl refl absent writes reads

put_deadlock_example :
    (put waits toy_hash (healthy 2) sample_id content empty_store ≡ blocks)
    × (put fails toy_hash (healthy 2) sample_id content empty_store ≡ throws)
put_deadlock_example = put_deadlock toy_hash (healthy 2) sample_id content empty_store refl

-- A store with the sample chunk, and one in which its file is damaged.
abbrev holding : Bytes → Store
holding c = counted_store ((final_path_for sample_id, c) ∷ [])

held_none : (c : Bytes) → (holding c).held ≡ []
unfolding counted_store
held_none c = refl

holds : (c : Bytes) → lookup_file sample_id (holding c).disk ≡ some c
unfolding counted_store lookup
holds c = rw (path_eq_refl (final_path_for sample_id)) refl

damaged : toy_hash (9 ∷ []) ≢ sample_id.digest
damaged e = cc

Reads-damaged : Reads (healthy 1) (9 ∷ [])
Reads-damaged = record { found = refl; opened = refl; whole = refl }
