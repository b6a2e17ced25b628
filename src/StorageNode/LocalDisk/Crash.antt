-- ===== src/StorageNode/LocalDisk/Crash.antt =====
-- local_disk_chunk_store.cpp, `Put`: the files that a process leaves behind when it is killed at any
-- point of it, and the store that is started on them again.
use microsoft.Base.{
  ℕ, ◌≡◌, refl, ◌∙◌, ◌⊎◌, inl, inr, false, ◌||◌, none, some, List, [], ◌∷◌, Bytes, take, All, arith,
  Bool-cases, if◌then◌else◌,
}
use microsoft.StorageNode.ChunkId.{ChunkId}
use microsoft.StorageNode.ChunkId.Parse.{IsChunkId}
use microsoft.StorageNode.Files.{path_eq, Disk, insert, erase, rename}
use microsoft.StorageNode.Files.Update.{
  lookup-insert, lookup-erase, IsUnique, insert-IsUnique, erase-IsUnique,
}
use microsoft.StorageNode.Files.Moves.{IsUnique-renamed}
use microsoft.StorageNode.LocalDisk.{
  Store, Env, completes, counted_store, construct_at, construct, lookup_file, final_path_for,
  tmp_path_for, write_chunk, write_fails, written_part,
}
use microsoft.StorageNode.LocalDisk.Names.{
  path_eq-final_path, IsUuid, IsChunkId-IsNamed, final_path-is_chunk_file,
}
use microsoft.StorageNode.LocalDisk.Put.{ne_tmp, written_part_all, lookup-rename_new}
use microsoft.StorageNode.LocalDisk.Counters.{IsCounted, counted_store-IsCounted}
use microsoft.StorageNode.LocalDisk.Reading.{IsIntact}
use microsoft.StorageNode.LocalDisk.Contract.{View, view, IsSame, IsUpdate}
use microsoft.StorageNode.LocalDisk.History.Intact.{same-AreTrue, update-AreTrue}

-- The files after each system call of `Put` from `create_directories` on, in order. A process that
-- is killed in `::write` leaves the first bytes, `cut` of them.
unfoldable pub write_disks : Env → ChunkId → Bytes → ℕ → Disk → List Disk
write_disks env id content cut disk =
    let tmp = tmp_path_for id env.uuid in
    let full = insert tmp (written_part env content) disk in
    disk
    ∷ (if env.create_directories_fails || env.open_fails
        then []
        else insert tmp [] disk
          ∷ insert tmp (take cut (written_part env content)) disk
          ∷ full
          ∷ (if write_fails env content || (env.fsync_fails || env.rename_fails)
              then if env.remove_fails then [] else erase tmp full ∷ []
              else rename tmp (final_path_for id) full ∷ []))

abbrev disk_view : Disk → View
disk_view disk other = lookup_file other disk

module _ (hash_bytes : Bytes → Bytes) (env : Env) (id : ChunkId) (content : Bytes) (disk : Disk)
    (valid : IsChunkId id) (u : IsUuid env.uuid) (absent : lookup_file id disk ≡ none)
    (unique : IsUnique disk) where
  -- The old chunks, or these and the new one with its whole content.
  abbrev IsWhole : Disk → Type 0
  IsWhole d =
      (IsSame (disk_view disk) (disk_view d)
        ⊎ IsUpdate id (some content) (disk_view disk) (disk_view d))
      × IsUnique d

  other_path :
      (other : ChunkId)
      → IsChunkId other
      → path_eq (final_path_for other) (tmp_path_for id env.uuid) ≡ false
  other_path other v =
      ne_tmp id env.uuid (final_path_for other) (IsChunkId-IsNamed id valid) u
        (final_path-is_chunk_file other (IsChunkId-IsNamed other v))

  insert-IsWhole : (part : Bytes) → IsWhole (insert (tmp_path_for id env.uuid) part disk)
  insert-IsWhole part = (
    inl (λ other v.
        lookup-insert _ (final_path_for other) part disk ∙ rw (other_path other v) refl),
    insert-IsUnique _ part disk unique,
  )

  erase-IsWhole :
      (part : Bytes)
      → IsWhole (erase (tmp_path_for id env.uuid) (insert (tmp_path_for id env.uuid) part disk))
  erase-IsWhole part = (
    inl (λ other v.
        lookup-erase _ (final_path_for other) (insert (tmp_path_for id env.uuid) part disk)
        ∙ rw (other_path other v)
            (lookup-insert _ (final_path_for other) part disk ∙ rw (other_path other v) refl)),
    erase-IsUnique _ _ (insert-IsUnique _ part disk unique),
  )

  rename-IsWhole : IsWhole (
      rename
        (tmp_path_for id env.uuid)
        (final_path_for id)
        (insert (tmp_path_for id env.uuid) content disk))
  rename-IsWhole = (
    inr (λ other v.
        lookup-rename_new _ (final_path_for id) (final_path_for other) content disk
          (other_path other v)
        ∙ rw (path_eq-final_path other id) refl),
    IsUnique-renamed (tmp_path_for id env.uuid) (final_path_for id) content disk
        (other_path id valid) absent unique,
  )

  write_disks-IsWhole : (cut : ℕ) → All IsWhole (write_disks env id content cut disk)
  unfolding write_disks
  write_disks-IsWhole cut = (
    (inl (λ other v. refl), unique),
    elim (Bool-cases (env.create_directories_fails || env.open_fails)) [
      | inl fails ↦ rw fails tt
      | inr opens ↦ rw opens (
        insert-IsWhole [],
        (
          insert-IsWhole _,
          (
            insert-IsWhole _,
            elim (Bool-cases (write_fails env content || (env.fsync_fails || env.rename_fails))) [
              | inl fails ↦ rw fails (elim (Bool-cases env.remove_fails) [
                | inl stays ↦ rw stays tt
                | inr goes ↦ rw goes (erase-IsWhole _, tt)
              ])
              | inr whole ↦
                  rw (whole, written_part_all env content (ground (arith, whole)))
                    (rename-IsWhole, tt)
            ],
          ),
        ),
      )
    ],
  )

  IsWhole-IsIntact :
      (d : Disk)
      → hash_bytes content ≡ id.digest
      → IsIntact hash_bytes (counted_store disk)
      → IsWhole d
      → IsIntact hash_bytes (counted_store d)
  unfolding counted_store
  IsWhole-IsIntact d h intact (inl same, _) =
      same-AreTrue hash_bytes (disk_view disk) (disk_view d) same intact
  IsWhole-IsIntact d h intact (inr up, _) =
      update-AreTrue hash_bytes (disk_view disk) (disk_view d) id (some content) valid
        (λ c e. let same : content ≡ c = cc in rw (← same) h) up intact

-- The last of the disks, behind a first one.
unfoldable pub last_disk : Disk → List Disk → Disk
last_disk d [] = d
last_disk d (d' ∷ disks) = last_disk d' disks

write_disks-last :
    (env : Env) (id : ChunkId) (content : Bytes) (cut : ℕ) (st : Store)
    → last_disk st.disk (write_disks env id content cut st.disk)
      ≡ (write_chunk env id content st).1.disk
unfolding write_disks write_chunk last_disk
write_disks-last env id content cut st = ground arith

All-map :
    {P Q : Disk → Type 0}
    → ((d : Disk) → P d → Q d)
    → (disks : List Disk) → All P disks
    → All Q disks
All-map f [] h = tt
All-map f (d ∷ disks) (p, h) = (f d p, All-map f disks h)

-- If a process is killed at any system call of `Put`, or in the middle of its `write`, and a store is
-- started again on the files that are left, and can walk them, then this store has the chunks of before, or these and
-- the new chunk with its whole content; every chunk matches its id if this was so before; and the
-- counters are those of the files that are there. Without a kill the files are those of the last
-- call. The data match the id, and there was no file of the chunk.
pub write_disks-construct :
    (hash_bytes : Bytes → Bytes) (env env' : Env) (id : ChunkId) (content : Bytes) (cut : ℕ)
    (st : Store)
    → env'.walk ≡ completes
    → IsChunkId id
    → IsUuid env.uuid
    → hash_bytes content ≡ id.digest
    → lookup_file id st.disk ≡ none
    → IsUnique st.disk
    → IsIntact hash_bytes st
    → let disks = write_disks env id content cut st.disk in
      All
        (λ d.
          (st₁ : Store) × (construct env' d ≡ some st₁)
          × (IsSame (view st) (view st₁) ⊎ IsUpdate id (some content) (view st) (view st₁))
          × IsIntact hash_bytes st₁
          × IsCounted st₁)
        disks
      × (last_disk st.disk disks ≡ (write_chunk env id content st).1.disk)
unfolding construct construct_at counted_store
write_disks-construct hash_bytes env env' id content cut st walks valid u h absent unique intact = (
  All-map
      (λ d whole. (
        counted_store d,
        rw (construct, walks) refl,
        whole.0,
        IsWhole-IsIntact hash_bytes env id content st.disk valid u absent unique d h intact whole,
        counted_store-IsCounted d whole.1,
      ))
      _ (write_disks-IsWhole hash_bytes env id content st.disk valid u absent unique cut),
  write_disks-last env id content cut st,
)
