-- ===== src/StorageNode/LocalDisk/Threads/Final.antt =====
-- local_disk_chunk_store.cpp: the file of a chunk, under the steps of the thread that has the chunk's
-- stripe and of the others.
use microsoft.Base.{
  ◌%◌, ◌≢◌, ◌≡◌, refl, sym, ◌∙◌, ap, inl, inr, false, ◌||◌, none, some, [], Bytes, bytes_eq_iff,
  take, arith, Bool-cases,
}
use microsoft.StorageNode.ChunkId.{ChunkId, hash, hash_bytes_from}
use microsoft.StorageNode.ChunkId.Parse.{IsChunkId, hex-digest}
use microsoft.StorageNode.Files.{path_eq}
use microsoft.StorageNode.Files.Update.{lookup-insert, lookup-erase}
use microsoft.StorageNode.LocalDisk.{
  Store, stat, is_some, lock_for, lookup_file, final_path_for, tmp_path_for, write_fails,
  written_part, lock_stripe_count,
}
use microsoft.StorageNode.LocalDisk.Names.{path_eq-final_path}
use microsoft.StorageNode.LocalDisk.Counters.{stat-none}
use microsoft.StorageNode.LocalDisk.Threads.Whole.{IsReady, not_tmp, rename_tmp, removing-cases}
use microsoft.StorageNode.LocalDisk.Threads.{
  Phase, idle, checking, writing, closing, counting, sizing, reading, removing, forgetting,
  shrinking, next_of, stripe_of,
}

lock_for-digest : (a b : ChunkId) → a.digest ≡ b.digest → lock_for a ≡ lock_for b
unfolding lock_for hash
lock_for-digest a b e = ap (λ digest. hash_bytes_from 0 (take 8 digest) % lock_stripe_count) e

-- Chunks with different stripes have different files.
final_apart :
    (a b : ChunkId)
    → IsChunkId a
    → IsChunkId b
    → some (lock_for b) ≢ some (lock_for a)
    → path_eq (final_path_for a) (final_path_for b) ≡ false
final_apart a b va vb apart = elim (Bool-cases (path_eq (final_path_for a) (final_path_for b))) [
  | inl same ↦
      let hex : a.hex ≡ b.hex =
        (bytes_eq_iff a.hex b.hex).0 (sym (path_eq-final_path a b) ∙ same) in
      absurd (apart (ap some (sym (lock_for-digest a b (hex-digest a b va vb hex)))))
  | inr differ ↦ differ
]

-- `exists` can read the state of the file.
abbrev pub IsSteady : Phase → Type 0
IsSteady (checking env id content) = env.stat_fails ≡ false
IsSteady _ = Unit

-- Between its look at the file and its `rename`, a `Put` has no file of that name.
abbrev pub IsAbsent : Phase → Store → Type 0
IsAbsent (writing env id content) st = lookup_file id st.disk ≡ none
IsAbsent (closing env id content) st = lookup_file id st.disk ≡ none
IsAbsent _ st = Unit

module _ (hash_bytes : Bytes → Bytes) where
  pub other_final :
      (p : Phase) (st : Store) (id : ChunkId)
      → IsReady hash_bytes p st
      → IsChunkId id
      → stripe_of p ≢ some (lock_for id)
      → lookup_file id (next_of p st).1.disk ≡ lookup_file id st.disk
  unfolding next_of
  other_final idle st id r v apart = refl
  other_final (checking env other content) st id r v apart =
      elim (Bool-cases
        (is_some (stat env other st) || (env.create_directories_fails || env.open_fails))) [
          | inl stops ↦ rw stops refl
          | inr goes ↦ rw goes (
              lookup-insert (tmp_path_for other env.uuid) (final_path_for id) [] st.disk
              ∙ rw (not_tmp hash_bytes env other content r id v) refl)
        ]
  other_final (writing env other content) st id r v apart =
      lookup-insert (tmp_path_for other env.uuid) (final_path_for id) _ st.disk
      ∙ rw (not_tmp hash_bytes env other content r.0 id v) refl
  other_final (closing env other content) st id r v apart =
      elim (Bool-cases (write_fails env content || (env.fsync_fails || env.rename_fails))) [
        | inl stops ↦ rw stops (elim (Bool-cases env.remove_fails) [
          | inl stays ↦ rw stays refl
          | inr goes ↦ rw goes (
              lookup-erase (tmp_path_for other env.uuid) (final_path_for id) st.disk
              ∙ rw (not_tmp hash_bytes env other content r.0 id v) refl)
        ])
        | inr goes ↦ rw goes (
            rename_tmp (tmp_path_for other env.uuid) other r.0.0 st.disk
              (not_tmp hash_bytes env other content r.0) (written_part env content)
              (final_path_for id) r.1 (not_tmp hash_bytes env other content r.0 id v)
            ∙ rw (final_apart id other v r.0.0 apart) refl)
      ]
  other_final (counting env other content) st id r v apart = refl
  other_final (sizing env other content) st id r v apart = refl
  other_final (reading env other) st id r v apart = refl
  other_final (removing env other) st id r v apart =
      removing-cases (λ p st'. lookup_file id st'.disk ≡ lookup_file id st.disk) env other st refl
        (λ n.
          lookup-erase (final_path_for other) (final_path_for id) st.disk
          ∙ rw (final_apart id other v r apart) refl)
  other_final (forgetting other n) st id r v apart = refl
  other_final (shrinking other n) st id r v apart = refl

  pub next_of-IsAbsent :
      (p : Phase) (st : Store)
      → IsReady hash_bytes p st
      → IsSteady p
      → IsAbsent p st
      → IsAbsent (next_of p st).0 (next_of p st).1
  unfolding next_of
  next_of-IsAbsent idle st r steady absent = tt
  next_of-IsAbsent (checking env id content) st r steady absent =
      elim (Bool-cases
        (is_some (stat env id st) || (env.create_directories_fails || env.open_fails))) [
          | inl stops ↦ rw stops tt
          | inr goes ↦ rw goes (
              lookup-insert (tmp_path_for id env.uuid) (final_path_for id) [] st.disk
              ∙ (rw (not_tmp hash_bytes env id content r id r.0)
                  (stat-none env id st steady (ground (arith, goes)))))
        ]
  next_of-IsAbsent (writing env id content) st r steady absent =
      lookup-insert (tmp_path_for id env.uuid) (final_path_for id) _ st.disk
      ∙ rw (not_tmp hash_bytes env id content r.0 id r.0.0) absent
  next_of-IsAbsent (closing env id content) st r steady absent =
      elim (Bool-cases (write_fails env content || (env.fsync_fails || env.rename_fails))) [
        | inl stops ↦ rw stops tt
        | inr goes ↦ rw goes tt
      ]
  next_of-IsAbsent (counting env id content) st r steady absent = tt
  next_of-IsAbsent (sizing env id content) st r steady absent = tt
  next_of-IsAbsent (reading env id) st r steady absent = tt
  next_of-IsAbsent (removing env id) st r steady absent =
      removing-cases (λ p st'. IsAbsent p st') env id st tt (λ n. tt)
  next_of-IsAbsent (forgetting id n) st r steady absent = tt
  next_of-IsAbsent (shrinking id n) st r steady absent = tt
