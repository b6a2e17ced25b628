-- ===== src/StorageNode/FaultInjecting.antt =====
-- fault_injecting_chunk_store.h and fault_injecting_chunk_store.cpp: a chunk store that fails on
-- demand, around another chunk store with states in `S`. Its mutex is held within one function
-- only, so each function of the fault state is one step. Sleeping adds to a clock.
pub mod Faults
use microsoft.Base.{
  ℕ, ◌+◌, ◌%◌, ◌^◌, Bool, true, false, Option, none, some, List, [], Bytes, ltb, if◌then◌else◌,
}
use microsoft.Base.Int.{ℤ, pos, pos_part, ltb_ℤ}
use microsoft.Common.Result.{err}
use microsoft.StorageNode.ChunkId.{ChunkId}
use microsoft.StorageNode.ChunkStore.{
  ChunkStoreError, ChunkStoreErrorDetail, ChunkStoreStats, Outcome, returns, blocks, throws, Call,
  StoreResult, IChunkStore,
}

pub record FaultState : Type 0 where
  pub pending_one_shot_fault : Option ChunkStoreError
  pub pending_nth_call_fault : Option (ℕ × ChunkStoreError)
  pub call_counter : ℕ
  pub pending_latency : ℤ

unfoldable pub inject_failure_on_next_call : ChunkStoreError → FaultState → FaultState
inject_failure_on_next_call error f = record f { pending_one_shot_fault = some error }

unfoldable pub inject_failure_after_n_calls : ℕ → ChunkStoreError → FaultState → FaultState
inject_failure_after_n_calls n error f = record f {
  pending_nth_call_fault = some (n, error);
  call_counter = 0;
}

unfoldable pub inject_latency : ℤ → FaultState → FaultState
inject_latency latency f = record f { pending_latency = latency }

unfoldable pub clear_injected_faults : FaultState → FaultState
clear_injected_faults f = record {
  pending_one_shot_fault = none;
  pending_nth_call_fault = none;
  call_counter = 0;
  pending_latency = pos 0;
}

-- The fault of the call that begins, if it is to fail, and the state after it. The counter is a
-- `size_t`.
abbrev pub count_call : FaultState → FaultState
count_call f = record f { call_counter = (f.call_counter + 1) % 2 ^ 64 }

abbrev nth_call_fault : FaultState → Option ChunkStoreError
nth_call_fault f = elim f.pending_nth_call_fault [
  | none ↦ none
  | some (n, error) ↦ if ltb n f.call_counter then some error else none
]

unfoldable pub should_inject_fault : FaultState → Option ChunkStoreError × FaultState
should_inject_fault f = elim f.pending_one_shot_fault [
  | some error ↦ (some error, record (count_call f) { pending_one_shot_fault = none })
  | none ↦ (nth_call_fault (count_call f), count_call f)
]

-- The time that `ApplyLatency` sleeps.
unfoldable pub apply_latency : FaultState → ℕ
apply_latency f = if ltb_ℤ (pos 0) f.pending_latency then pos_part f.pending_latency else 0

pub record Faulty (S : Type 0) : Type 0 where
  pub faults : FaultState
  pub slept : ℕ
  pub delegate : S

module _ {S A : Type 0} where
  -- The call of the delegate, in the state of the wrapper.
  abbrev pub in_delegate : Faulty S → Outcome S A → Outcome (Faulty S) A
  in_delegate st (returns a s) = returns a (record st { delegate = s })
  in_delegate st blocks = blocks
  in_delegate st throws = throws

  abbrev pub inject_or :
      (ChunkStoreError → A)
      → Call S A
      → Faulty S
      → Option ChunkStoreError × FaultState
      → Outcome (Faulty S) A
  inject_or on_fault call st (some error, f) = returns (on_fault error) (record st { faults = f })
  inject_or on_fault call st (none, f) = in_delegate (record st { faults = f }) (call st.delegate)

  -- The common shape of the seven operations: sleep, then fail with `on_fault` or call the
  -- delegate.
  unfoldable pub guarded : (ChunkStoreError → A) → Call S A → Call (Faulty S) A
  unfolding should_inject_fault apply_latency
  guarded on_fault call st =
      inject_or on_fault call (record st { slept = st.slept + apply_latency st.faults })
        (should_inject_fault st.faults)

abbrev pub injected : {A : Type 0} → ChunkStoreError → StoreResult A
injected error = err (record { kind = error; message = "Injected Fault" })

unfoldable pub fault_injecting : {S : Type 0} → IChunkStore S → IChunkStore (Faulty S)
unfolding guarded
fault_injecting inner = record {
  put = λ id content. guarded injected (inner.put id content);
  get = λ id. guarded injected (inner.get id);
  verify_only = λ id. guarded injected (inner.verify_only id);
  delete = λ id. guarded injected (inner.delete id);
  exists = λ id. guarded (λ _. false) (inner.exists id);
  get_stats =
      guarded (λ _. record { chunk_count = 0; bytes_used = 0; bytes_free = 0 }) inner.get_stats;
  list_all_chunk_ids = guarded (λ _. []) inner.list_all_chunk_ids;
}
