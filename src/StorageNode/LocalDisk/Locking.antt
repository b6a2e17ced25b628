-- ===== src/StorageNode/LocalDisk/Locking.antt =====
-- local_disk_chunk_store.cpp, the lock guards: `Put` holds the stripe of its chunk when it calls
-- `Exists`, which locks the same stripe.
use microsoft.Base.{
  ℕ, ◌≡◌, refl, sym, ap, true, false, List, [], ◌∷◌, Bytes, bytes_eq, bytes_eq_refl, bytes_eq_iff,
  arith, Bool-cases, inl, inr, if◌then◌else◌, ==_refl,
}
use microsoft.StorageNode.ChunkId.{ChunkId}
use microsoft.Common.Result.{ok}
use microsoft.StorageNode.ChunkStore.{
  returns, blocks, throws, Call, ◌>>=◌, StoreResult, checksum_mismatch,
}
use microsoft.StorageNode.LocalDisk.{
  Store, Env, Relock, waits, fails, grants, with_lock, release, relocked, contains, lock_for,
  exists, put, write_chunk, stat, is_some, read_chunk, get, lift, failed, remove_chunk, delete,
}

pub with_lock_granted :
    {A : Type 0} (stripe : ℕ) (body : Call Store A) (st : Store)
    → with_lock grants stripe body st
      ≡ release st.held (body (record st { held = stripe ∷ st.held }))
unfolding with_lock
with_lock_granted stripe body st = elim (Bool-cases (contains stripe st.held)) [
  | inl e ↦ rw e refl
  | inr e ↦ rw e refl
]

contains_self : (stripe : ℕ) (held : List ℕ) → contains stripe (stripe ∷ held) ≡ true
unfolding contains
contains_self stripe held = rw (==_refl stripe) refl

-- With the stripe held, `exists` gets no further than the policy of the mutex.
exists_relocked :
    (relock : Relock) (env : Env) (id : ChunkId) (st : Store) (held : List ℕ)
    → exists relock env id (record st { held = lock_for id ∷ held })
      ≡ relocked relock
          (returns (is_some (stat env id st)) (record st { held = lock_for id ∷ held }))
unfolding exists with_lock
exists_relocked relock env id st held = rw (contains_self (lock_for id) held) refl

-- What `put` does once both locks are granted.
unfoldable pub put_unlocked : Env → ChunkId → Bytes → Store → StoreResult (Unit {0}) × Store
put_unlocked env id content st =
    if is_some (stat env id st) then (ok tt, st) else write_chunk env id content st

write_chunk_held :
    (env : Env) (id : ChunkId) (content : Bytes) (st : Store) (held : List ℕ)
    → write_chunk env id content (record st { held = held }) ≡ (
      (write_chunk env id content st).0,
      record (write_chunk env id content st).1 { held = held },
    )
unfolding write_chunk
write_chunk_held env id content st held = ground arith

module _ (hash_bytes : Bytes → Bytes) (env : Env) (id : ChunkId) (content : Bytes) (st : Store)
    (e : hash_bytes content ≡ id.digest) where
  put_waits : put waits hash_bytes env id content st ≡ blocks
  unfolding put with_lock
  put_waits = elim (Bool-cases (contains (lock_for id) st.held)) [
    | inl held ↦ rw (e, bytes_eq_refl id.digest, held) refl
    | inr free ↦
        rw (e, bytes_eq_refl id.digest, free, exists_relocked waits env id st st.held, ◌>>=◌) refl
  ]

  put_fails : put fails hash_bytes env id content st ≡ throws
  unfolding put with_lock
  put_fails = elim (Bool-cases (contains (lock_for id) st.held)) [
    | inl held ↦ rw (e, bytes_eq_refl id.digest, held) refl
    | inr free ↦
        rw (e, bytes_eq_refl id.digest, free, exists_relocked fails env id st st.held, ◌>>=◌) refl
  ]

  pub put_grants : put grants hash_bytes env id content st ≡ lift (put_unlocked env id content) st
  unfolding put put_unlocked
  put_grants =
      rw
        (
          e,
          bytes_eq_refl id.digest,
          with_lock_granted,
          exists_relocked grants env id st st.held,
          ◌>>=◌,
        )
        (elim (Bool-cases (is_some (stat env id st))) [
          | inl present ↦ rw present refl
          | inr absent ↦
              rw (absent, write_chunk_held env id content st (lock_for id ∷ st.held))
                (sym (ap (λ p. returns p.0 p.1) (write_chunk_held env id content st st.held)))
        ])

-- With a mutex that does not let its owner in again, `put` of data that match the chunk's digest
-- never comes back with a result: it waits for ever, or throws.
pub put_deadlock :
    (hash_bytes : Bytes → Bytes) (env : Env) (id : ChunkId) (content : Bytes) (st : Store)
    → hash_bytes content ≡ id.digest
    → (put waits hash_bytes env id content st ≡ blocks)
      × (put fails hash_bytes env id content st ≡ throws)
put_deadlock hash_bytes env id content st e =
    (put_waits hash_bytes env id content st e, put_fails hash_bytes env id content st e)

put_mismatch :
    (hash_bytes : Bytes → Bytes) (env : Env) (id : ChunkId) (content : Bytes) (st : Store)
    → bytes_eq (hash_bytes content) id.digest ≡ false
    → put grants hash_bytes env id content st
      ≡ returns (failed checksum_mismatch "Provided chunk data does not match the ChunkId") st
unfolding put
put_mismatch hash_bytes env id content st e = rw e refl

-- The result of `put` and the new store, with both locks granted.
unfoldable pub put_result :
    (Bytes → Bytes) → Env → ChunkId → Bytes → Store → StoreResult (Unit {0}) × Store
unfolding put_unlocked
put_result hash_bytes env id content st =
    if bytes_eq (hash_bytes content) id.digest
    then put_unlocked env id content st
    else (failed checksum_mismatch "Provided chunk data does not match the ChunkId", st)

pub put_granted :
    (hash_bytes : Bytes → Bytes) (env : Env) (id : ChunkId) (content : Bytes) (st : Store)
    → let (r, st') = put_result hash_bytes env id content st in
      put grants hash_bytes env id content st ≡ returns r st'
unfolding put_result
put_granted hash_bytes env id content st =
    elim (Bool-cases (bytes_eq (hash_bytes content) id.digest)) [
      | inl same ↦ rw same (put_grants hash_bytes env id content st ((bytes_eq_iff _ _).0 same))
      | inr other ↦ rw other (put_mismatch hash_bytes env id content st other)
    ]

-- A thread that holds no stripe gets any stripe, whatever the mutex does otherwise.
pub with_lock_free :
    {A : Type 0} (relock : Relock) (stripe : ℕ) (body : Call Store A) (st : Store)
    → st.held ≡ []
    → with_lock relock stripe body st
      ≡ release st.held (body (record st { held = stripe ∷ st.held }))
unfolding with_lock contains
with_lock_free relock stripe body st e =
    let free : contains stripe st.held ≡ false = rw e refl in rw free refl

pub get_unlocked :
    (relock : Relock) (hash_bytes : Bytes → Bytes) (env : Env) (id : ChunkId) (st : Store)
    → st.held ≡ []
    → get relock hash_bytes env id st ≡ returns (read_chunk hash_bytes env id st) st
unfolding get read_chunk
get_unlocked relock hash_bytes env id st e = rw (with_lock_free relock (lock_for id) _ st e) refl

pub delete_unlocked :
    (relock : Relock) (env : Env) (id : ChunkId) (st : Store)
    → st.held ≡ []
    → delete relock env id st ≡ lift (remove_chunk env id) st
unfolding delete remove_chunk
delete_unlocked relock env id st e =
    rw (with_lock_free relock (lock_for id) (lift (remove_chunk env id)) st e) (ground arith)
