-- ===== src/StorageNode/LocalDisk/Threads/Whole.antt =====
-- local_disk_chunk_store.cpp: what a thread relies on at each step, and that steps keep chunks whole.
use microsoft.Base.{
  ℕ, ◌≡◌, refl, ◌∙◌, ap, inl, inr, false, ◌||◌, none, some, [], Bytes, length, arith, Bool-cases,
  Option-cases, if◌then◌else◌,
}
use microsoft.StorageNode.ChunkId.{ChunkId}
use microsoft.StorageNode.ChunkId.Parse.{IsChunkId}
use microsoft.StorageNode.Files.{FilePath, path_eq, Disk, lookup, insert, erase, rename}
use microsoft.StorageNode.Files.Update.{lookup-insert, lookup-erase, path_eq_refl}
use microsoft.StorageNode.LocalDisk.{
  Store, Env, lookup_file, stat, is_some, final_path_for, tmp_path_for, write_fails, written_part,
}
use microsoft.StorageNode.LocalDisk.Names.{
  IsUuid, IsChunkId-IsNamed, final_path-is_chunk_file, path_eq-final_path,
}
use microsoft.StorageNode.LocalDisk.Put.{ne_tmp, written_part_all}
use microsoft.StorageNode.LocalDisk.Reading.{IsIntact}
use microsoft.StorageNode.LocalDisk.Contract.{view}
use microsoft.StorageNode.LocalDisk.History.Intact.{same-AreTrue, update-AreTrue}
use microsoft.StorageNode.LocalDisk.Threads.{
  Phase, idle, checking, writing, closing, counting, sizing, reading, removing, forgetting,
  shrinking, next_of,
}

-- The files after one step of a file system call.
module _ (tmp : FilePath) (id : ChunkId) (valid : IsChunkId id) (disk : Disk)
    (ne : (other : ChunkId) → IsChunkId other → path_eq (final_path_for other) tmp ≡ false) where
  insert_tmp-same :
      (part : Bytes) (other : ChunkId)
      → IsChunkId other
      → lookup_file other (insert tmp part disk) ≡ lookup_file other disk
  insert_tmp-same part other v =
      lookup-insert tmp (final_path_for other) part disk ∙ rw (ne other v) refl

  erase_tmp-same :
      (other : ChunkId)
      → IsChunkId other
      → lookup_file other (erase tmp disk) ≡ lookup_file other disk
  erase_tmp-same other v = lookup-erase tmp (final_path_for other) disk ∙ rw (ne other v) refl

  pub rename_tmp :
      (content : Bytes) (p : FilePath)
      → lookup tmp disk ≡ some content
      → path_eq p tmp ≡ false
      → lookup p (rename tmp (final_path_for id) disk)
        ≡ (if path_eq p (final_path_for id) then some content else lookup p disk)
  unfolding rename
  rename_tmp content p e other =
      rw (e, rename)
        (ground (
          arith,
          lookup-insert (final_path_for id) p content (erase tmp disk),
          lookup-erase tmp p disk,
        ))

pub removing-cases :
    (P : Phase → Store → Type 0) (env : Env) (id : ChunkId) (st : Store)
    → P idle st
    → ((n : ℕ) → P (forgetting id n) (record st { disk = erase (final_path_for id) st.disk }))
    → P (next_of (removing env id) st).0 (next_of (removing env id) st).1
unfolding next_of
removing-cases P env id st stays goes = elim (Option-cases (lookup_file id st.disk)) [
  | inl absent ↦ ground (arith, stays, absent)
  | inr (c, there) ↦ ground (arith, stays, goes (length c), there)
]

module _ (hash_bytes : Bytes → Bytes) where
  abbrev pub IsPut : Env → ChunkId → Bytes → Type 0
  IsPut env id content = IsChunkId id × IsUuid env.uuid × (hash_bytes content ≡ id.digest)

  -- What a thread relies on at its next step.
  abbrev pub IsReady : Phase → Store → Type 0
  IsReady idle st = Unit
  IsReady (checking env id content) st = IsPut env id content
  IsReady (writing env id content) st =
      IsPut env id content × ((x : Bytes) × (lookup (tmp_path_for id env.uuid) st.disk ≡ some x))
  IsReady (closing env id content) st =
      IsPut env id content
      × (lookup (tmp_path_for id env.uuid) st.disk ≡ some (written_part env content))
  IsReady (counting env id content) st = Unit
  IsReady (sizing env id content) st = Unit
  IsReady (reading env id) st = IsChunkId id
  IsReady (removing env id) st = IsChunkId id
  IsReady (forgetting id n) st = Unit
  IsReady (shrinking id n) st = Unit

  pub not_tmp :
      (env : Env) (id : ChunkId) (content : Bytes)
      → IsPut env id content
      → (other : ChunkId) → IsChunkId other
      → path_eq (final_path_for other) (tmp_path_for id env.uuid) ≡ false
  not_tmp env id content (valid, u, _) other v =
      ne_tmp id env.uuid (final_path_for other) (IsChunkId-IsNamed id valid) u
        (final_path-is_chunk_file other (IsChunkId-IsNamed other v))

  pub next_of-IsReady :
      (p : Phase) (st : Store) → IsReady p st → IsReady (next_of p st).0 (next_of p st).1
  unfolding next_of
  next_of-IsReady idle st r = tt
  next_of-IsReady (checking env id content) st r =
      elim (Bool-cases
        (is_some (stat env id st) || (env.create_directories_fails || env.open_fails))) [
          | inl stops ↦ rw stops tt
          | inr goes ↦ rw goes (
            r,
            ([], lookup-insert _ _ [] st.disk ∙ rw (path_eq_refl (tmp_path_for id env.uuid)) refl),
          )
        ]
  next_of-IsReady (writing env id content) st r =
      (r.0, lookup-insert _ _ _ st.disk ∙ rw (path_eq_refl (tmp_path_for id env.uuid)) refl)
  next_of-IsReady (closing env id content) st r =
      elim (Bool-cases (write_fails env content || (env.fsync_fails || env.rename_fails))) [
        | inl stops ↦ rw stops tt
        | inr goes ↦ rw goes tt
      ]
  next_of-IsReady (counting env id content) st r = tt
  next_of-IsReady (sizing env id content) st r = tt
  next_of-IsReady (reading env id) st r = tt
  next_of-IsReady (removing env id) st r =
      removing-cases (λ p st'. IsReady p st') env id st tt (λ n. tt)
  next_of-IsReady (forgetting id n) st r = tt
  next_of-IsReady (shrinking id n) st r = tt

  pub next_of-IsIntact :
      (p : Phase) (st : Store)
      → IsReady p st
      → IsIntact hash_bytes st
      → IsIntact hash_bytes (next_of p st).1
  unfolding next_of
  next_of-IsIntact idle st r intact = intact
  next_of-IsIntact (checking env id content) st r intact =
      elim (Bool-cases
        (is_some (stat env id st) || (env.create_directories_fails || env.open_fails))) [
          | inl stops ↦ rw stops intact
          | inr goes ↦ rw goes (
              same-AreTrue hash_bytes (view st) _
                (insert_tmp-same (tmp_path_for id env.uuid) id r.0 st.disk
                  (not_tmp env id content r) [])
                intact)
        ]
  next_of-IsIntact (writing env id content) st r intact =
      same-AreTrue hash_bytes (view st) _
        (insert_tmp-same (tmp_path_for id env.uuid) id r.0.0 st.disk (not_tmp env id content r.0)
          (written_part env content))
        intact
  next_of-IsIntact (closing env id content) st r intact =
      elim (Bool-cases (write_fails env content || (env.fsync_fails || env.rename_fails))) [
        | inl stops ↦ rw stops (elim (Bool-cases env.remove_fails) [
          | inl stays ↦ rw stays intact
          | inr goes ↦ rw goes (
              same-AreTrue hash_bytes (view st) _
                (erase_tmp-same (tmp_path_for id env.uuid) id r.0.0 st.disk
                  (not_tmp env id content r.0))
                intact)
        ])
        | inr goes ↦
            let whole : written_part env content ≡ content =
              written_part_all env content (ground (arith, goes)) in
            rw goes (
              update-AreTrue hash_bytes (view st) _ id (some content) r.0.0
                (λ c e. let same : content ≡ c = cc in rw (← same) r.0.2)
                (λ other v.
                  rename_tmp (tmp_path_for id env.uuid) id r.0.0 st.disk
                    (not_tmp env id content r.0) content (final_path_for other)
                    (r.1 ∙ ap some whole) (not_tmp env id content r.0 other v)
                  ∙ rw (path_eq-final_path other id) refl)
                intact)
      ]
  next_of-IsIntact (counting env id content) st r intact = intact
  next_of-IsIntact (sizing env id content) st r intact = intact
  next_of-IsIntact (reading env id) st r intact = intact
  next_of-IsIntact (removing env id) st r intact =
      removing-cases (λ p st'. IsIntact hash_bytes st') env id st intact
        (λ n.
          update-AreTrue hash_bytes (view st) _ id none r (λ c e. absurd (cc))
            (λ other v.
              lookup-erase (final_path_for id) (final_path_for other) st.disk
              ∙ rw (path_eq-final_path other id) refl)
            intact)
  next_of-IsIntact (forgetting id n) st r intact = intact
  next_of-IsIntact (shrinking id n) st r intact = intact
