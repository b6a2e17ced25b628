-- ===== src/StorageNode/FaultInjecting/Faults.antt =====
-- fault_injecting_chunk_store.cpp: which calls fail, and what the others do.
use microsoft.Base.{
  ℕ, zero, suc, ◌+◌, ◌^◌, ◌<◌, ◌≡◌, refl, ap, ◌∙◌, false, none, some, [], Bytes, ltb, arith,
  if◌then◌else◌,
}
use microsoft.StorageNode.ChunkId.{ChunkId}
use microsoft.StorageNode.ChunkStore.{ChunkStoreError, Outcome, Call, returns, IChunkStore}
use microsoft.StorageNode.FaultInjecting.{
  FaultState, Faulty, should_inject_fault, inject_failure_after_n_calls,
  inject_failure_on_next_call, clear_injected_faults, guarded, injected, in_delegate,
  fault_injecting, count_call,
}

-- The fault state after this many calls.
pub after_calls : ℕ → FaultState → FaultState
after_calls zero f = f
after_calls (suc k) f = (should_inject_fault (after_calls k f)).1

armed : ℕ → ℕ → ChunkStoreError → FaultState → FaultState
armed n k error f = record f { pending_nth_call_fault = some (n, error); call_counter = k }

armed_start :
    (n : ℕ) (error : ChunkStoreError) (f : FaultState)
    → inject_failure_after_n_calls n error f ≡ armed n 0 error f
unfolding armed inject_failure_after_n_calls
armed_start n error f = refl

armed_step :
    (n k : ℕ) (error : ChunkStoreError) (f : FaultState)
    → f.pending_one_shot_fault ≡ none
    → suc k < 2 ^ 64
    → should_inject_fault (armed n k error f)
      ≡ ((if ltb k n then none else some error), armed n (suc k) error f)
unfolding armed should_inject_fault
armed_step n k error f e h = ground arith

after_calls_lem :
    (n k : ℕ) (error : ChunkStoreError) (f : FaultState)
    → f.pending_one_shot_fault ≡ none
    → k < 2 ^ 64
    → after_calls k (inject_failure_after_n_calls n error f) ≡ armed n k error f
unfolding after_calls
after_calls_lem n zero error f e h = armed_start n error f
after_calls_lem n (suc k) error f e h =
    ap (λ g. (should_inject_fault g).1) (after_calls_lem n k error f e (omega arith))
    ∙ ap (λ p. p.1) (armed_step n k error f e h)

-- After `InjectFailureAfterNCalls(n, error)` and with no one-shot fault pending, the next n calls
-- go through and every later one fails with this error, up to the range of the counter.
pub inject_failure_after_n_calls_lem :
    (n k : ℕ) (error : ChunkStoreError) (f : FaultState)
    → f.pending_one_shot_fault ≡ none
    → suc k < 2 ^ 64
    → (should_inject_fault (after_calls k (inject_failure_after_n_calls n error f))).0
      ≡ (if ltb k n then none else some error)
inject_failure_after_n_calls_lem n k error f e h =
    rw (after_calls_lem n k error f e (omega arith), armed_step n k error f e h) refl

-- A one-shot fault fails the next call, whatever else is pending and whatever that call is, without
-- a call of the delegate; and after it no one-shot fault is pending.
inject_failure_on_next_call_lem :
    {S A : Type 0} (on_fault : ChunkStoreError → A) (call : Call S A) (error : ChunkStoreError)
    (st : Faulty S)
    → (st' : Faulty S) × (guarded on_fault call
          (record st { faults = inject_failure_on_next_call error st.faults })
        ≡ returns (on_fault error) st')
      × (st'.delegate ≡ st.delegate)
      × (st'.faults.pending_one_shot_fault ≡ none)
unfolding guarded inject_failure_on_next_call
inject_failure_on_next_call_lem on_fault call error st = (_, refl, refl, refl)

-- With all faults cleared a call is that of the delegate: the same outcome, and the same new state
-- of the delegate; the call does not sleep.
cleared_guarded :
    {S A : Type 0} (on_fault : ChunkStoreError → A) (call : Call S A) (st : Faulty S)
    → guarded on_fault call (record st { faults = clear_injected_faults st.faults })
      ≡ in_delegate
          (record st { faults = count_call (clear_injected_faults st.faults) })
          (call st.delegate)
unfolding guarded clear_injected_faults
cleared_guarded on_fault call st =
    let awake : st.slept + 0 ≡ st.slept = omega arith in rw awake refl

module _ {S : Type 0} (inner : IChunkStore S) (st : Faulty S) where
  abbrev pub forwards : {A : Type 0} → Outcome S A → Outcome (Faulty S) A
  forwards = in_delegate (record st { faults = count_call (clear_injected_faults st.faults) })

  -- With all faults cleared each of the seven operations is that of the delegate: the same outcome,
  -- and the same new state of the delegate, with no time slept.
  pub clear_injected_faults_lem :
      (id : ChunkId) (content : Bytes)
      → let outer = fault_injecting inner in
        let st' = record st { faults = clear_injected_faults st.faults } in
        (outer.put id content st' ≡ forwards (inner.put id content st.delegate))
        × (outer.get id st' ≡ forwards (inner.get id st.delegate))
        × (outer.verify_only id st' ≡ forwards (inner.verify_only id st.delegate))
        × (outer.delete id st' ≡ forwards (inner.delete id st.delegate))
        × (outer.exists id st' ≡ forwards (inner.exists id st.delegate))
        × (outer.get_stats st' ≡ forwards (inner.get_stats st.delegate))
        × (outer.list_all_chunk_ids st' ≡ forwards (inner.list_all_chunk_ids st.delegate))
  unfolding fault_injecting
  clear_injected_faults_lem id content = (
    cleared_guarded injected (inner.put id content) st,
    cleared_guarded injected (inner.get id) st,
    cleared_guarded injected (inner.verify_only id) st,
    cleared_guarded injected (inner.delete id) st,
    cleared_guarded (λ _. false) (inner.exists id) st,
    cleared_guarded (λ _. record { chunk_count = 0; bytes_used = 0; bytes_free = 0 })
        inner.get_stats st,
    cleared_guarded (λ _. []) inner.list_all_chunk_ids st,
  )
