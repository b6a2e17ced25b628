-- ===== src/StorageNode/LocalDisk/History/Refines.antt =====
-- local_disk_chunk_store.cpp: any sequence of calls keeps the contract of a chunk store.
use microsoft.Base.{◌≡◌, refl, ◌∙◌, List, [], ◌∷◌, Bytes, All, arith}
use microsoft.Common.Result.{ok, err}
use microsoft.StorageNode.ChunkId.{ChunkId}
use microsoft.StorageNode.ChunkStore.{returns, ◌>>=◌}
use microsoft.StorageNode.LocalDisk.{
  Store, Env, grants, verify_only, exists, stat, is_some, read_chunk, remove_chunk, lock_for,
}
use microsoft.StorageNode.LocalDisk.Locking.{
  put_result, put_granted, get_unlocked, delete_unlocked, with_lock_free,
}
use microsoft.StorageNode.LocalDisk.RoundTrip.{put_result_held}
use microsoft.StorageNode.LocalDisk.Contract.{
  Request, put_request, get_request, verify_request, delete_request, exists_request, Reply, done,
  content, found, view, IsAllowed, AreAllowed, ends, goes_on,
}
use microsoft.StorageNode.LocalDisk.History.{IsWellFormed, answer, run}
use microsoft.StorageNode.LocalDisk.History.Allowed.{
  get-IsAllowed, verify-IsAllowed, exists-IsAllowed, put-IsAllowed, delete-IsAllowed,
}

module _ (hash_bytes : Bytes → Bytes) where
  -- What a call does to a store none of whose stripes the thread holds.
  abbrev pub after : Request → Store → Store
  after (put_request env id bytes) st = (put_result hash_bytes env id bytes st).1
  after (delete_request env id) st = (remove_chunk env id st).1
  after (get_request env id) st = st
  after (verify_request env id) st = st
  after (exists_request env id) st = st

  abbrev pub IsAnswered : Store → Request → Type 0
  IsAnswered st request =
      (reply : Reply) × (answer hash_bytes request st ≡ returns reply (after request st))
      × ((after request st).held ≡ [])
      × IsAllowed hash_bytes (view st) (view (after request st)) request reply

  pub remove_chunk_held :
      (env : Env) (id : ChunkId) (st : Store) → (remove_chunk env id st).1.held ≡ st.held
  unfolding remove_chunk
  remove_chunk_held env id st = ground arith

  pub answered :
      (request : Request) (st : Store) → IsWellFormed request → st.held ≡ [] → IsAnswered st request
  unfolding answer verify_only exists
  answered (put_request env id bytes) st valid free =
      let r = (put_result hash_bytes env id bytes st).0 in
      (
        done r,
        rw (put_granted hash_bytes env id bytes st, ◌>>=◌) refl,
        put_result_held hash_bytes env id bytes st ∙ free,
        put-IsAllowed hash_bytes env id st bytes r valid.0 valid.1 refl,
      )
  answered (get_request env id) st valid free = (
    content (read_chunk hash_bytes env id st),
    rw (get_unlocked grants hash_bytes env id st free, ◌>>=◌) refl,
    free,
    get-IsAllowed hash_bytes env id st (read_chunk hash_bytes env id st) refl,
  )
  answered (verify_request env id) st valid free = (
    done (elim (read_chunk hash_bytes env id st) [ ok _ ↦ ok tt | err e ↦ err e ]),
    rw (get_unlocked grants hash_bytes env id st free, ◌>>=◌) (ground arith),
    free,
    verify-IsAllowed hash_bytes env id st (read_chunk hash_bytes env id st) refl,
  )
  answered (delete_request env id) st valid free =
      let r = (remove_chunk env id st).0 in
      (
        done r,
        rw (delete_unlocked grants env id st free, ◌>>=◌) refl,
        remove_chunk_held env id st ∙ free,
        delete-IsAllowed hash_bytes env id st r refl,
      )
  answered (exists_request env id) st valid free = (
    found (is_some (stat env id st)),
    rw (with_lock_free grants (lock_for id) _ st free, ◌>>=◌) refl,
    free,
    exists-IsAllowed hash_bytes env id st (is_some (stat env id st)) refl,
  )

  -- From a store whose stripes the thread does not hold, and where the mutex lets its owner in again,
  -- every sequence of well-formed requests is answered, whatever the system answers to each; and the
  -- replies and the map from chunks to contents are, step by step, among those of the contract: `put`
  -- stores the bytes or keeps what is there or fails for the reason it names, `get` and `verify_only`
  -- succeed only on bytes with the digest of the chunk, `delete` removes that chunk alone, and a
  -- failure changes nothing.
  pub run_refines :
      (requests : List Request) (st : Store)
      → All IsWellFormed requests
      → st.held ≡ []
      → (replies : List Reply) × (st' : Store) × (run hash_bytes requests st ≡ returns replies st')
        × (st'.held ≡ [])
        × AreAllowed hash_bytes (view st') (view st) requests replies
  unfolding run
  run_refines [] st valid free = ([], st, refl, free, ends (λ other v. refl))
  run_refines (request ∷ requests) st valid free =
      let (reply, called, free₁, allowed) = answered request st valid.0 free in
      let (replies, st₂, ran, free₂, rest) =
        run_refines requests (after request st) valid.1 free₁ in
      (
        reply ∷ replies,
        st₂,
        rw (called, ◌>>=◌, ran) refl,
        free₂,
        goes_on (view (after request st)) allowed rest,
      )
