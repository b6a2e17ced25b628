-- ===== src/StorageNode/LocalDisk/History/Intact.antt =====
-- local_disk_chunk_store.cpp: a store whose files match their names stays so, and reports no
-- corruption.
use microsoft.Base.{
  ◌≡◌, ◌≢◌, refl, sym, ◌∙◌, inl, inr, Option, none, some, List, [], Bytes, bytes_eq, bytes_eq_iff,
  All, arith, Bool-cases,
}
use microsoft.Common.Result.{ok, err}
use microsoft.StorageNode.ChunkId.{ChunkId}
use microsoft.StorageNode.ChunkId.Parse.{IsChunkId, hex-digest}
use microsoft.StorageNode.ChunkStore.{ChunkStoreErrorDetail, returns, corruption_detected}
use microsoft.StorageNode.LocalDisk.{Store, Env}
use microsoft.StorageNode.LocalDisk.Reading.{IsIntact}
use microsoft.StorageNode.LocalDisk.Contract.{
  Request, Reply, done, content, found, View, view, IsSame, IsUpdate, IsGetError, IsAllowed,
  AreAllowed, ends, goes_on, stores, keeps, put_fails, reads, get_fails, verifies, verify_fails,
  removes, overlooks, delete_fails, finds, misses,
}
use microsoft.StorageNode.LocalDisk.History.{IsWellFormed, run}
use microsoft.StorageNode.LocalDisk.History.Refines.{run_refines}

abbrev pub IsClean : Reply → Type 0
IsClean (done (ok _)) = Unit
IsClean (done (err e)) = e.kind ≢ corruption_detected
IsClean (content (ok _)) = Unit
IsClean (content (err e)) = e.kind ≢ corruption_detected
IsClean (found _) = Unit

module _ (hash_bytes : Bytes → Bytes) where
  abbrev pub AreTrue : View → Type 0
  AreTrue f = (id : ChunkId) (c : Bytes) → IsChunkId id → f id ≡ some c → hash_bytes c ≡ id.digest

  pub same-AreTrue : (f f' : View) → IsSame f f' → AreTrue f → AreTrue f'
  same-AreTrue f f' same t id c v e = t id c v (sym (same id v) ∙ e)

  pub update-AreTrue :
      (f f' : View) (id : ChunkId) (value : Option Bytes)
      → IsChunkId id
      → ((c : Bytes) → value ≡ some c → hash_bytes c ≡ id.digest)
      → IsUpdate id value f f'
      → AreTrue f
      → AreTrue f'
  update-AreTrue f f' id value valid ok_value up t other c v e =
      elim (Bool-cases (bytes_eq other.hex id.hex)) [
        | inl same ↦
            let there : value ≡ some c = sym (up other v ∙ rw same refl) ∙ e in
            ok_value c there ∙ sym (hex-digest other id v valid ((bytes_eq_iff _ _).0 same))
        | inr differ ↦ t other c v (sym (up other v ∙ rw differ refl) ∙ e)
      ]

  pub get_error-clean :
      (f : View) (env : Env) (id : ChunkId)
      → AreTrue f
      → IsChunkId id
      → (e : ChunkStoreErrorDetail) → IsGetError hash_bytes f env id e
      → e.kind ≢ corruption_detected
  get_error-clean f env id t v e (inl h) = λ bad. ground (arith, bad, h.1)
  get_error-clean f env id t v e (inr (inl (c, there, other, _))) = λ bad. other (t id c v there)
  get_error-clean f env id t v e (inr (inr io)) = λ bad. ground (arith, bad, io)

  pub allowed-AreTrue :
      (f f' : View) (request : Request) (reply : Reply)
      → IsWellFormed request
      → IsAllowed hash_bytes f f' request reply
      → AreTrue f
      → AreTrue f' × IsClean reply
  allowed-AreTrue f f' _ _ valid (stores {id} {bytes} h up) t = (
    update-AreTrue f f' id (some bytes) valid.0 (λ c e. let same : bytes ≡ c = cc in rw (← same) h)
        up t,
    tt,
  )
  allowed-AreTrue f f' _ _ valid (keeps old h there same) t = (same-AreTrue f f' same t, tt)
  allowed-AreTrue f f' _ _ valid (put_fails (inl h) same) t =
      (same-AreTrue f f' same t, λ bad. ground (arith, bad, h.1))
  allowed-AreTrue f f' _ _ valid (put_fails (inr h) same) t =
      (same-AreTrue f f' same t, λ bad. ground (arith, bad, h.1))
  allowed-AreTrue f f' _ _ valid (reads there h same) t = (same-AreTrue f f' same t, tt)
  allowed-AreTrue f f' _ _ valid (get_fails {env} {id} {e} h same) t =
      (same-AreTrue f f' same t, get_error-clean f env id t valid e h)
  allowed-AreTrue f f' _ _ valid (verifies bytes there h same) t = (same-AreTrue f f' same t, tt)
  allowed-AreTrue f f' _ _ valid (verify_fails {env} {id} {e} h same) t =
      (same-AreTrue f f' same t, get_error-clean f env id t valid e h)
  allowed-AreTrue f f' _ _ valid (removes {id} up) t =
      (update-AreTrue f f' id none valid (λ c e. cc) up t, tt)
  allowed-AreTrue f f' _ _ valid (overlooks hidden same) t = (same-AreTrue f f' same t, tt)
  allowed-AreTrue f f' _ _ valid (delete_fails h same) t =
      (same-AreTrue f f' same t, λ bad. ground (arith, bad, h))
  allowed-AreTrue f f' _ _ valid (finds bytes there same) t = (same-AreTrue f f' same t, tt)
  allowed-AreTrue f f' _ _ valid (misses h same) t = (same-AreTrue f f' same t, tt)

  All-allowed :
      (f'' f : View) (requests : List Request) (replies : List Reply)
      → All IsWellFormed requests
      → AreAllowed hash_bytes f'' f requests replies
      → AreTrue f
      → AreTrue f'' × All IsClean replies
  All-allowed f'' f _ _ valid (ends same) t = (same-AreTrue f f'' same t, tt)
  All-allowed f'' f _ _ valid (goes_on {request} {reply} {requests} {replies} f' first rest) t =
      let (t', clean) = allowed-AreTrue f f' request reply valid.0 first t in
      let (t'', all_clean) = All-allowed f'' f' requests replies valid.1 rest t' in
      (t'', (clean, all_clean))

  -- From a store in which every chunk file matches its name, and where the mutex lets its owner in
  -- again, any sequence of well-formed requests leaves every chunk file true to its name, whatever
  -- system calls fail on the way, and no reply reports a corruption.
  pub run-IsIntact :
      (requests : List Request) (st : Store)
      → All IsWellFormed requests
      → st.held ≡ []
      → IsIntact hash_bytes st
      → (replies : List Reply) × (st' : Store) × (run hash_bytes requests st ≡ returns replies st')
        × IsIntact hash_bytes st'
        × All IsClean replies
  run-IsIntact requests st valid free intact =
      let (replies, st', ran, free', allowed) = run_refines hash_bytes requests st valid free in
      let (intact', clean) =
        All-allowed (view st') (view st) requests replies valid allowed intact in
      (replies, st', ran, intact', clean)
