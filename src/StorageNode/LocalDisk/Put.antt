-- ===== src/StorageNode/LocalDisk/Put.antt =====
-- local_disk_chunk_store.cpp, `Put`: what it does to the chunk files on every branch.
use microsoft.Base.{
  ℕ, zero, suc, ◌≡◌, refl, Bool, true, false, not, ◌&&◌, some, [], ◌∷◌, Bytes, take, take_all,
  arith, Bool-cases, Option-cases, inl, inr, if◌then◌else◌,
}
use microsoft.StorageNode.ChunkId.{ChunkId}
use microsoft.Common.Result.{is_ok}
use microsoft.StorageNode.ChunkStore.{returns, StoreResult}
use microsoft.StorageNode.Files.{
  FilePath, path_eq, Disk, lookup, insert, erase, rename, is_chunk_file,
}
use microsoft.StorageNode.Files.Update.{path_eq_iff, path_eq_refl, lookup-insert, lookup-erase}
use microsoft.StorageNode.LocalDisk.{
  Store, Env, grants, put, write_chunk, stat, is_some, write_fails, written_part, final_path_for,
  tmp_path_for,
}
use microsoft.StorageNode.LocalDisk.Names.{IsNamed, IsUuid, tmp_path-is_chunk_file}
use microsoft.StorageNode.LocalDisk.Locking.{put_result, put_granted}

take_all-nil : (n : ℕ) → take {A = ℕ} n [] ≡ []
take_all-nil zero = refl
take_all-nil (suc n) = refl

pub written_part_all :
    (env : Env) (content : Bytes)
    → write_fails env content ≡ false
    → written_part env content ≡ content
written_part_all env [] e = elim (Option-cases env.written) [
  | inl failed ↦ rw failed refl
  | inr (n, some_n) ↦ rw some_n (take_all-nil n)
]
written_part_all env (b ∷ content) e = elim (Option-cases env.written) [
  | inl failed ↦ ground arith
  | inr (n, some_n) ↦ rw some_n (take_all n (b ∷ content) (ground arith))
]

pub ne_tmp :
    (id : ChunkId) (uuid : Bytes) (p : FilePath)
    → IsNamed id
    → IsUuid uuid
    → is_chunk_file p ≡ true
    → path_eq p (tmp_path_for id uuid) ≡ false
ne_tmp id uuid p named u e = elim (Bool-cases (path_eq p (tmp_path_for id uuid))) [
  | inl same ↦
      let eq : p ≡ tmp_path_for id uuid = (path_eq_iff p (tmp_path_for id uuid)).0 same in
      cc (tmp_path-is_chunk_file id uuid named u)
  | inr other ↦ other
]

pub lookup-rename_new :
    (old new p : FilePath) (content : Bytes) (d : Disk)
    → path_eq p old ≡ false
    → lookup p (rename old new (insert old content d))
      ≡ (if path_eq p new then some content else lookup p d)
unfolding rename
lookup-rename_new old new p content d other =
    let moved = insert old content d in
    let found : lookup old moved ≡ some content =
      rw (lookup-insert old old content d, path_eq_refl old) refl in
    rw (found, rename)
      (ground (
        arith,
        lookup-insert new p content (erase old moved),
        lookup-erase old p moved,
        lookup-insert old p content d,
      ))

write_chunk_view :
    (env : Env) (id : ChunkId) (content : Bytes) (st : Store) (p : FilePath)
    → IsNamed id
    → IsUuid env.uuid
    → is_chunk_file p ≡ true
    → let (r, st') = write_chunk env id content st in
      lookup p st'.disk
      ≡ (if is_ok r && path_eq p (final_path_for id) then some content else lookup p st.disk)
unfolding write_chunk
write_chunk_view env id content st p named u chunk = ground (
  arith,
  ne_tmp id env.uuid p named u chunk,
  written_part_all env content,
  lookup-insert (tmp_path_for id env.uuid) p (written_part env content) st.disk,
  lookup-erase (tmp_path_for id env.uuid) p
      (insert (tmp_path_for id env.uuid) (written_part env content) st.disk),
  lookup-rename_new (tmp_path_for id env.uuid) (final_path_for id) p (written_part env content)
      st.disk,
)

-- Whether a call of `put` that ended with `r` has stored its data: it reports success, and did not
-- find the chunk in place.
abbrev pub stored : Env → ChunkId → Store → StoreResult (Unit {0}) → Bool
stored env id st r = is_ok r && not (is_some (stat env id st))

pub put_result_view :
    (hash_bytes : Bytes → Bytes) (env : Env) (id : ChunkId) (content : Bytes) (st : Store)
    (p : FilePath)
    → IsNamed id
    → IsUuid env.uuid
    → is_chunk_file p ≡ true
    → let (r, st') = put_result hash_bytes env id content st in
      lookup p st'.disk ≡ (
        if stored env id st r && path_eq p (final_path_for id)
        then some content
        else lookup p st.disk)
unfolding put_result
put_result_view hash_bytes env id content st p named u chunk =
    ground (arith, write_chunk_view env id content st p named u chunk)

-- Where the mutex lets its owner in again, `put` comes back with a result, and sets the file of its
-- chunk to the given data if it stores them; otherwise, on an error or if the chunk was found, no
-- chunk file changes. The files of other chunks change in no case.
put_view :
    (hash_bytes : Bytes → Bytes) (env : Env) (id : ChunkId) (content : Bytes) (st : Store)
    → IsNamed id
    → IsUuid env.uuid
    → (r : StoreResult (Unit {0})) × (st' : Store) × (put grants hash_bytes env id content st
        ≡ returns r st')
      × ((p : FilePath)
          → is_chunk_file p ≡ true
          → lookup p st'.disk ≡ (
              if stored env id st r && path_eq p (final_path_for id)
              then some content
              else lookup p st.disk))
put_view hash_bytes env id content st named u =
    let res = put_result hash_bytes env id content st in
    (
      res.0,
      res.1,
      put_granted hash_bytes env id content st,
      λ p chunk. put_result_view hash_bytes env id content st p named u chunk,
    )
