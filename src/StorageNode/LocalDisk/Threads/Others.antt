-- ===== src/StorageNode/LocalDisk/Threads/Others.antt =====
-- local_disk_chunk_store.cpp: a step of one thread keeps the temporary files of the others.
use mathlib.Core.Option.{some-injective}
use microsoft.Base.{
  ◌≢◌, ◌≡◌, refl, sym, ◌∙◌, ap, inl, inr, false, ◌||◌, some, [], Bytes, arith, Bool-cases,
}
use microsoft.StorageNode.ChunkId.{ChunkId}
use microsoft.StorageNode.ChunkId.Parse.{IsChunkId}
use microsoft.StorageNode.Files.{FilePath, path_eq, lookup, is_chunk_file}
use microsoft.StorageNode.Files.Update.{lookup-insert, lookup-erase, path_eq_iff}
use microsoft.StorageNode.LocalDisk.{
  Store, stat, is_some, final_path_for, tmp_path_for, write_fails, written_part,
}
use microsoft.StorageNode.LocalDisk.Names.{IsChunkId-IsNamed, final_path-is_chunk_file}
use microsoft.StorageNode.LocalDisk.Threads.Whole.{IsReady, not_tmp, rename_tmp, removing-cases}
use microsoft.StorageNode.LocalDisk.Threads.{
  Phase, idle, checking, writing, closing, counting, sizing, reading, removing, forgetting,
  shrinking, next_of, tmp_of, IsFresh,
}

unequal : (tmp path : FilePath) → some tmp ≢ some path → path_eq path tmp ≡ false
unequal tmp path apart = elim (Bool-cases (path_eq path tmp)) [
  | inl same ↦ absurd (apart (ap some (sym ((path_eq_iff path tmp).0 same))))
  | inr differ ↦ differ
]

not_final :
    (path : FilePath) (id : ChunkId)
    → is_chunk_file path ≡ false
    → IsChunkId id
    → path_eq path (final_path_for id) ≡ false
not_final path id plain v = elim (Bool-cases (path_eq path (final_path_for id))) [
  | inl same ↦
      let it : path ≡ final_path_for id = (path_eq_iff path (final_path_for id)).0 same in
      let chunk = final_path-is_chunk_file id (IsChunkId-IsNamed id v) in
      absurd (ground (arith, plain, chunk, it))
  | inr differ ↦ differ
]

module _ (hash_bytes : Bytes → Bytes) where
  -- Steps of another thread: what they do to a temporary file that is not theirs.
  pub other_tmp :
      (p : Phase) (st : Store) (path : FilePath)
      → IsReady hash_bytes p st
      → is_chunk_file path ≡ false
      → ((x : Bytes) × (lookup path st.disk ≡ some x))
      → IsFresh hash_bytes p st
      → tmp_of p ≢ some path
      → lookup path (next_of p st).1.disk ≡ lookup path st.disk
  unfolding next_of
  other_tmp idle st path r plain there fresh apart = refl
  other_tmp (checking env id content) st path r plain (x, there) fresh apart =
      elim (Bool-cases
        (is_some (stat env id st) || (env.create_directories_fails || env.open_fails))) [
          | inl stops ↦ rw stops refl
          | inr goes ↦
              let differ : path_eq path (tmp_path_for id env.uuid) ≡ false = unequal _ path (λ e.
                let it : tmp_path_for id env.uuid ≡ path = some-injective _ _ e in
                absurd (ground (arith, there, fresh, it))) in
              rw goes (lookup-insert (tmp_path_for id env.uuid) path [] st.disk ∙ rw differ refl)
        ]
  other_tmp (writing env id content) st path r plain there fresh apart =
      lookup-insert (tmp_path_for id env.uuid) path _ st.disk ∙ rw (unequal _ path apart) refl
  other_tmp (closing env id content) st path r plain there fresh apart =
      let differ = unequal (tmp_path_for id env.uuid) path apart in
      elim (Bool-cases (write_fails env content || (env.fsync_fails || env.rename_fails))) [
        | inl stops ↦ rw stops (elim (Bool-cases env.remove_fails) [
          | inl stays ↦ rw stays refl
          | inr goes ↦
              rw goes (lookup-erase (tmp_path_for id env.uuid) path st.disk ∙ rw differ refl)
        ])
        | inr goes ↦ rw goes (
            rename_tmp (tmp_path_for id env.uuid) id r.0.0 st.disk
              (not_tmp hash_bytes env id content r.0) (written_part env content) path r.1 differ
            ∙ rw (not_final path id plain r.0.0) refl)
      ]
  other_tmp (counting env id content) st path r plain there fresh apart = refl
  other_tmp (sizing env id content) st path r plain there fresh apart = refl
  other_tmp (reading env id) st path r plain there fresh apart = refl
  other_tmp (removing env id) st path r plain there fresh apart =
      removing-cases (λ p st'. lookup path st'.disk ≡ lookup path st.disk) env id st refl
        (λ n. lookup-erase (final_path_for id) path st.disk ∙ rw (not_final path id plain r) refl)
  other_tmp (forgetting id n) st path r plain there fresh apart = refl
  other_tmp (shrinking id n) st path r plain there fresh apart = refl
