-- ===== src/StorageNode/LocalDisk/History/Listed.antt =====
-- local_disk_chunk_store.cpp, `ListAllChunkIds` after any sequence of calls.
use microsoft.Base.{
  ◌≡◌, refl, inl, inr, List, [], ◌∷◌, Bytes, All, arith, Bool-cases, Option-cases, if◌then◌else◌,
}
use microsoft.Common.Result.{ok}
use microsoft.StorageNode.ChunkId.{ChunkId, parse}
use microsoft.StorageNode.ChunkId.Parse.{IsChunkId, parse-IsChunkId}
use microsoft.StorageNode.ChunkStore.{returns, ◌>>=◌}
use microsoft.StorageNode.Files.{FilePath, path_eq, Disk, lookup, insert, erase, rename}
use microsoft.StorageNode.Files.Update.{IsUnique, insert-IsUnique, erase-IsUnique}
use microsoft.StorageNode.LocalDisk.{
  Store, Env, is_some, completes, chunk_ids_in, list_all_chunk_ids, lookup_file, final_path_for,
  tmp_path_for, remove_tmp, written_part,
}
use microsoft.StorageNode.LocalDisk.Names.{IsUuid, IsChunkId-IsNamed, tmp_path-is_chunk_file}
use microsoft.StorageNode.LocalDisk.Counters.{put_result_cases, write_chunk_cases}
use microsoft.StorageNode.LocalDisk.Counters.Delete.{remove_chunk_cases}
use microsoft.StorageNode.LocalDisk.Listing.{
  times, IsInPlace, AreInPlace, final_path-stem, times-chunk_ids_in,
}
use microsoft.StorageNode.LocalDisk.Contract.{
  Request, put_request, get_request, verify_request, delete_request, exists_request, Reply,
}
use microsoft.StorageNode.LocalDisk.History.{IsWellFormed, run}
use microsoft.StorageNode.LocalDisk.History.Refines.{after, answered}

-- Distinct paths, and every chunk file where its chunk belongs.
abbrev pub IsTidy : Disk → Type 0
IsTidy d = IsUnique d × AreInPlace d

insert-AreInPlace :
    (p : FilePath) (content : Bytes) (d : Disk)
    → IsInPlace p
    → AreInPlace d
    → AreInPlace (insert p content d)
unfolding insert
insert-AreInPlace p content [] here placed = (here, tt)
insert-AreInPlace p content ((q, old) ∷ d) here placed = elim (Bool-cases (path_eq p q)) [
  | inl same ↦ rw same placed
  | inr other ↦ rw other (placed.0, insert-AreInPlace p content d here placed.1)
]

erase-AreInPlace : (p : FilePath) (d : Disk) → AreInPlace d → AreInPlace (erase p d)
unfolding erase
erase-AreInPlace p [] placed = tt
erase-AreInPlace p ((q, content) ∷ d) placed = elim (Bool-cases (path_eq p q)) [
  | inl same ↦ rw same (erase-AreInPlace p d placed.1)
  | inr other ↦ rw other (placed.0, erase-AreInPlace p d placed.1)
]

insert-IsTidy :
    (p : FilePath) (content : Bytes) (d : Disk)
    → IsInPlace p
    → IsTidy d
    → IsTidy (insert p content d)
insert-IsTidy p content d here (u, placed) =
    (insert-IsUnique p content d u, insert-AreInPlace p content d here placed)

erase-IsTidy : (p : FilePath) (d : Disk) → IsTidy d → IsTidy (erase p d)
erase-IsTidy p d (u, placed) = (erase-IsUnique p d u, erase-AreInPlace p d placed)

rename-IsTidy :
    (old new : FilePath) (d : Disk) → IsInPlace new → IsTidy d → IsTidy (rename old new d)
unfolding rename
rename-IsTidy old new d here tidy = elim (Option-cases (lookup old d)) [
  | inl absent ↦ rw (rename, absent) tidy
  | inr (content, there) ↦
      rw (rename, there) (insert-IsTidy new content (erase old d) here (erase-IsTidy old d tidy))
]

final_path-IsInPlace : (id : ChunkId) → IsChunkId id → IsInPlace (final_path_for id)
unfolding final_path_for
final_path-IsInPlace id v x chunk parsed =
    let text : parse id.hex ≡ ok x = rw (final_path-stem id (IsChunkId-IsNamed id v)) at parsed in
    rw (parse-IsChunkId id.hex x text).0 refl

tmp_path-IsInPlace :
    (id : ChunkId) (uuid : Bytes) → IsChunkId id → IsUuid uuid → IsInPlace (tmp_path_for id uuid)
tmp_path-IsInPlace id uuid v u x chunk parsed =
    let plain = tmp_path-is_chunk_file id uuid (IsChunkId-IsNamed id v) u in
    absurd (ground (arith, plain, chunk))

remove_tmp-IsTidy :
    (env : Env) (tmp : FilePath) (st : Store) → IsTidy st.disk → IsTidy (remove_tmp env tmp st).disk
remove_tmp-IsTidy env tmp st tidy = elim (Bool-cases env.remove_fails) [
  | inl stays ↦ rw stays tidy
  | inr goes ↦ rw goes (erase-IsTidy tmp st.disk tidy)
]

after-IsTidy :
    (hash_bytes : Bytes → Bytes) (request : Request) (st : Store)
    → IsWellFormed request
    → IsTidy st.disk
    → IsTidy (after hash_bytes request st).disk
after-IsTidy hash_bytes (put_request env id content) st (v, uuid) tidy =
    let tmp = tmp_path_for id env.uuid in
    let opened =
      insert-IsTidy tmp (written_part env content) st.disk (tmp_path-IsInPlace id env.uuid v uuid)
        tidy in
    put_result_cases (λ st'. IsTidy st'.disk) hash_bytes env id content st tidy
      λ absent.
        write_chunk_cases (λ st'. IsTidy st'.disk) env id content st tidy
          (remove_tmp-IsTidy env tmp
            (record st { disk = insert tmp (written_part env content) st.disk }) opened)
          λ whole.
            rename-IsTidy tmp (final_path_for id) (insert tmp (written_part env content) st.disk)
              (final_path-IsInPlace id v) opened
after-IsTidy hash_bytes (delete_request env id) st v tidy =
    remove_chunk_cases (λ st'. IsTidy st'.disk) env id st tidy
      λ c present. erase-IsTidy (final_path_for id) st.disk tidy
after-IsTidy hash_bytes (get_request env id) st v tidy = tidy
after-IsTidy hash_bytes (verify_request env id) st v tidy = tidy
after-IsTidy hash_bytes (exists_request env id) st v tidy = tidy

run-IsTidy :
    (hash_bytes : Bytes → Bytes) (requests : List Request) (st : Store)
    → All IsWellFormed requests
    → st.held ≡ []
    → IsTidy st.disk
    → (replies : List Reply) × (st' : Store) × (run hash_bytes requests st ≡ returns replies st')
      × IsTidy st'.disk
unfolding run
run-IsTidy hash_bytes [] st valid free tidy = ([], st, refl, tidy)
run-IsTidy hash_bytes (request ∷ requests) st valid free tidy =
    let (reply, called, free₁, _) = answered hash_bytes request st valid.0 free in
    let (replies, st₂, ran, tidy₂) =
      run-IsTidy hash_bytes requests (after hash_bytes request st) valid.1 free₁
        (after-IsTidy hash_bytes request st valid.0 tidy) in
    (reply ∷ replies, st₂, rw (called, ◌>>=◌, ran) refl, tidy₂)

-- From files with distinct paths, each chunk file where its chunk belongs, and where the mutex lets
-- its owner in again: after any sequence of well-formed requests, whatever the system answers to
-- each, `ListAllChunkIds`, where it can walk the files, lists a well-formed chunk id once if there is a file of this chunk, and
-- otherwise not at all.
pub run-list_all_chunk_ids :
    (hash_bytes : Bytes → Bytes) (env : Env) (requests : List Request) (st : Store) (id : ChunkId)
    → env.walk ≡ completes
    → All IsWellFormed requests
    → st.held ≡ []
    → IsTidy st.disk
    → IsChunkId id
    → (replies : List Reply) × (st' : Store) × (run hash_bytes requests st ≡ returns replies st')
      × (ids : List ChunkId) × (list_all_chunk_ids env st' ≡ returns ids st')
      × (times id ids ≡ (if is_some (lookup_file id st'.disk) then 1 else 0))
unfolding list_all_chunk_ids
run-list_all_chunk_ids hash_bytes env requests st id walks valid free tidy v =
    let (replies, st', ran, (u, placed)) = run-IsTidy hash_bytes requests st valid free tidy in
    (
      replies,
      st',
      ran,
      chunk_ids_in st'.disk,
      rw (list_all_chunk_ids, walks) refl,
      times-chunk_ids_in id st'.disk v u placed,
    )
