-- ===== src/StorageNode/LocalDisk/History/Allowed.antt =====
-- local_disk_chunk_store.cpp: each reply of an operation is one that the contract allows.
use microsoft.Base.{
  ◌≡◌, ◌⊎◌, inl, inr, refl, ◌∙◌, Bool, true, false, not, ◌&&◌, ◌||◌, leb, length, ◌==◌, false, none,
  some, Bytes, bytes_eq, bytes_eq_iff, arith, Bool-cases, Option-cases, if◌then◌else◌,
}
use microsoft.Common.Result.{ok, err, is_ok}
use microsoft.StorageNode.ChunkId.{ChunkId}
use microsoft.StorageNode.ChunkId.Parse.{IsChunkId}
use microsoft.StorageNode.ChunkStore.{ChunkStoreErrorDetail, StoreResult, io_error}
use microsoft.StorageNode.LocalDisk.{
  Store, Env, stat, is_some, lookup_file, final_path_for, write_chunk, read_chunk, remove_chunk,
}
use microsoft.StorageNode.LocalDisk.Names.{
  path_eq-final_path, IsUuid, IsChunkId-IsNamed, final_path-is_chunk_file,
}
use microsoft.StorageNode.LocalDisk.Locking.{put_unlocked, put_result}
use microsoft.StorageNode.LocalDisk.Put.{put_result_view, stored}
use microsoft.StorageNode.LocalDisk.Reading.{remove_chunk_view, read_chunk_sound}
use microsoft.StorageNode.LocalDisk.Contract.{
  put_request, get_request, verify_request, delete_request, exists_request, done, content, found,
  view, IsSame, IsUpdate, IsPutError, IsGetError, IsAllowed, stores, keeps, put_fails, reads,
  get_fails, verifies, verify_fails, removes, overlooks, delete_fails, finds, misses,
}

-- What is in the store after `put` and `delete`, by the text of the ids.
module _ (hash_bytes : Bytes → Bytes) (env : Env) (id : ChunkId) (bytes : Bytes) (st : Store)
    (valid : IsChunkId id) (u : IsUuid env.uuid) where
  put_at :
      (other : ChunkId)
      → IsChunkId other
      → let (r, st') = put_result hash_bytes env id bytes st in
        view st' other
        ≡ (if stored env id st r && bytes_eq other.hex id.hex then some bytes else view st other)
  put_at other v = rw (← path_eq-final_path other id) (
      put_result_view hash_bytes env id bytes st (final_path_for other) (IsChunkId-IsNamed id valid)
        u (final_path-is_chunk_file other (IsChunkId-IsNamed other v)))

  put-IsSame :
      let (r, st') = put_result hash_bytes env id bytes st in
      stored env id st r ≡ false → IsSame (view st) (view st')
  put-IsSame e other v = put_at other v ∙ rw e refl

  put-IsUpdate :
      let (r, st') = put_result hash_bytes env id bytes st in
      stored env id st r ≡ true → IsUpdate id (some bytes) (view st) (view st')
  put-IsUpdate e other v = put_at other v ∙ rw e refl

stat_present :
    (env : Env) (id : ChunkId) (st : Store)
    → is_some (stat env id st) ≡ true
    → (bytes : Bytes) × (view st id ≡ some bytes)
stat_present env id st e = elim (Option-cases (lookup_file id st.disk)) [
  | inl absent ↦ absurd (ground (arith, e, absent))
  | inr (c, present) ↦ (c, present)
]

stat_absent :
    (env : Env) (id : ChunkId) (st : Store)
    → is_some (stat env id st) ≡ false
    → (view st id ≡ none) ⊎ (env.stat_fails ≡ true)
stat_absent env id st e = elim (Option-cases (lookup_file id st.disk)) [
  | inl absent ↦ inl absent
  | inr (c, present) ↦ inr (ground (arith, e, present))
]

module _ (hash_bytes : Bytes → Bytes) (env : Env) (id : ChunkId) (bytes : Bytes) (st : Store) where
  put_ok-hash : (put_result hash_bytes env id bytes st).0 ≡ ok tt → hash_bytes bytes ≡ id.digest
  unfolding put_result
  put_ok-hash e = ground (arith, e, bytes_eq_iff (hash_bytes bytes) id.digest)

  write_error :
      (e : ChunkStoreErrorDetail) → (write_chunk env id bytes st).0 ≡ err e → e.kind ≡ io_error
  unfolding write_chunk
  write_error e h = ground (arith, h)

  put_error :
      (e : ChunkStoreErrorDetail)
      → (put_result hash_bytes env id bytes st).0 ≡ err e
      → IsPutError hash_bytes id bytes e
  unfolding put_result put_unlocked
  put_error e h = elim (Bool-cases (bytes_eq (hash_bytes bytes) id.digest)) [
    | inl same ↦ inr ((bytes_eq_iff _ _).0 same, ground (arith, h, same, write_error e))
    | inr other ↦
        inl (λ eq. ground (arith, other, (bytes_eq_iff _ _).1 eq), ground (arith, h, other))
  ]

module _ (hash_bytes : Bytes → Bytes) (env : Env) (id : ChunkId) (st : Store) where
  read_error :
      (e : ChunkStoreErrorDetail)
      → read_chunk hash_bytes env id st ≡ err e
      → IsGetError hash_bytes (view st) env id e
  unfolding read_chunk
  read_error e h = elim (Option-cases (lookup_file id st.disk)) [
    | inl absent ↦ inl (inl absent, ground (arith, h, absent))
    | inr (c, present) ↦ elim (Bool-cases env.stat_fails) [
      | inl hidden ↦ inl (inr hidden, ground (arith, h, present, hidden))
      | inr statted ↦ elim (Bool-cases (env.open_fails || short c)) [
        | inl unread ↦ inr (inr (ground (arith, h, present, statted, unread)))
        | inr whole ↦ elim (Bool-cases (bytes_eq (hash_bytes c) id.digest)) [
          | inl same ↦ absurd (ground (arith, h, present, statted, whole, same))
          | inr other ↦ inr (
              inl (
                c,
                present,
                λ eq. ground (arith, other, (bytes_eq_iff _ _).1 eq),
                ground (arith, h, present, statted, whole, other),
              ))
        ]
      ]
    ]
  ]
    where
      short : Bytes → Bool
      short c =
          leb 1 (length c) && not (elim env.bytes_read [ none ↦ false | some n ↦ n == length c ])

  pub get-IsAllowed :
      (r : StoreResult Bytes)
      → read_chunk hash_bytes env id st ≡ r
      → IsAllowed hash_bytes (view st) (view st) (get_request env id) (content r)
  get-IsAllowed (ok bytes) e =
      let (same, there) = read_chunk_sound hash_bytes env id st bytes e in
      reads there same (λ other v. refl)
  get-IsAllowed (err x) e = get_fails (read_error x e) (λ other v. refl)

  pub verify-IsAllowed :
      (r : StoreResult Bytes)
      → read_chunk hash_bytes env id st ≡ r
      → IsAllowed hash_bytes
          (view st)
          (view st)
          (verify_request env id)
          (done (elim r [ ok _ ↦ ok tt | err e ↦ err e ]))
  verify-IsAllowed (ok bytes) e =
      let (same, there) = read_chunk_sound hash_bytes env id st bytes e in
      verifies bytes there same (λ other v. refl)
  verify-IsAllowed (err x) e = verify_fails (read_error x e) (λ other v. refl)

  pub exists-IsAllowed :
      (b : Bool)
      → is_some (stat env id st) ≡ b
      → IsAllowed hash_bytes (view st) (view st) (exists_request env id) (found b)
  exists-IsAllowed true e =
      let (bytes, there) = stat_present env id st e in finds bytes there (λ other v. refl)
  exists-IsAllowed false e = misses (stat_absent env id st e) (λ other v. refl)

  pub put-IsAllowed :
      (bytes : Bytes) (r : StoreResult (Unit {0}))
      → IsChunkId id
      → IsUuid env.uuid
      → (put_result hash_bytes env id bytes st).0 ≡ r
      → IsAllowed hash_bytes
          (view st)
          (view (put_result hash_bytes env id bytes st).1)
          (put_request env id bytes)
          (done r)
  put-IsAllowed bytes (ok _) valid u e = elim (Bool-cases (is_some (stat env id st))) [
    | inl present ↦
        let (old, there) = stat_present env id st present in
        keeps old (put_ok-hash hash_bytes env id bytes st e) there
          (put-IsSame hash_bytes env id bytes st valid u (ground (arith, present)))
    | inr absent ↦
        stores (put_ok-hash hash_bytes env id bytes st e)
          (put-IsUpdate hash_bytes env id bytes st valid u (rw (e, absent) refl))
  ]
  put-IsAllowed bytes (err x) valid u e =
      put_fails (put_error hash_bytes env id bytes st x e)
        (put-IsSame hash_bytes env id bytes st valid u (rw e refl))

  delete_at :
      (other : ChunkId)
      → let (r, st') = remove_chunk env id st in
        view st' other ≡ (
          if is_some (stat env id st) && is_ok r && bytes_eq other.hex id.hex
          then none
          else view st other)
  delete_at other =
      rw (← path_eq-final_path other id) (remove_chunk_view env id st (final_path_for other))

  remove_error :
      (e : ChunkStoreErrorDetail) → (remove_chunk env id st).0 ≡ err e → e.kind ≡ io_error
  unfolding remove_chunk
  remove_error e h = ground (arith, h)

  view_hex : (other : ChunkId) → other.hex ≡ id.hex → view st other ≡ view st id
  unfolding final_path_for
  view_hex other e = rw e refl

  gone :
      (other : ChunkId)
      → view st id ≡ none
      → view st other ≡ (if bytes_eq other.hex id.hex then none else view st other)
  gone other absent = elim (Bool-cases (bytes_eq other.hex id.hex)) [
    | inl same ↦ rw same (view_hex other ((bytes_eq_iff _ _).0 same) ∙ absent)
    | inr differ ↦ rw differ refl
  ]

  pub delete-IsAllowed :
      (r : StoreResult (Unit {0}))
      → (remove_chunk env id st).0 ≡ r
      → IsAllowed hash_bytes
          (view st)
          (view (remove_chunk env id st).1)
          (delete_request env id)
          (done r)
  delete-IsAllowed (ok _) e = elim (Bool-cases (is_some (stat env id st))) [
    | inl present ↦ removes (λ other v. delete_at other ∙ rw (present, e) refl)
    | inr unseen ↦ elim (stat_absent env id st unseen) [
      | inr hidden ↦ overlooks hidden (λ other v. delete_at other ∙ rw unseen refl)
      | inl absent ↦ removes (λ other v. delete_at other ∙ rw unseen (gone other absent))
    ]
  ]
  delete-IsAllowed (err x) e =
      delete_fails (remove_error x e) (λ other v. delete_at other ∙ ground (arith, e))
