-- ===== src/StorageNode/IdTests.antt =====
-- The theorems about chunk ids, versions and injected faults at concrete inputs.
use microsoft.Base.{
  ℕ, ◌≡◌, ◌≢◌, ◌↔◌, refl, none, some, ◌∷◌, length, leb, arith, ◌&&◌, if◌then◌else◌,
}
use microsoft.Base.Int.{pos}
use microsoft.Common.Result.{ok, err}
use microsoft.Common.Sha256.Hex.{IsLowerHex}
use microsoft.StorageNode.ChunkId.{
  ChunkId, parse, is_upper, wrong_length, not_lowercase, invalid_hex_character,
}
use microsoft.StorageNode.ChunkId.Parse.{first_bad, parse_iff, parse_error}
use microsoft.StorageNode.ChunkStore.{not_found}
use microsoft.StorageNode.FaultInjecting.{
  FaultState, should_inject_fault, inject_failure_after_n_calls,
}
use microsoft.StorageNode.FaultInjecting.Faults.{after_calls, inject_failure_after_n_calls_lem}
use microsoft.StorageNode.Sample.{hex_zeros, sample_text}

parse_iff_example :
    ((id : ChunkId) × (parse sample_text ≡ ok id))
    ↔ ((length sample_text ≡ 64) × IsLowerHex sample_text)
parse_iff_example = parse_iff sample_text

parse_error_example :
    (length (b'G' ∷ hex_zeros) ≢ 64 → parse (b'G' ∷ hex_zeros) ≡ err wrong_length)
    × ((c : ℕ)
        → length (b'G' ∷ hex_zeros) ≡ 64
        → first_bad (b'G' ∷ hex_zeros) ≡ some c
        → parse (b'G' ∷ hex_zeros)
          ≡ (if is_upper c && leb c b'F' then err not_lowercase else err invalid_hex_character))
parse_error_example = parse_error (b'G' ∷ hex_zeros)

idle : FaultState
idle = record {
  pending_one_shot_fault = none;
  pending_nth_call_fault = none;
  call_counter = 5;
  pending_latency = pos 3;
}

inject_failure_after_n_calls_example :
    (should_inject_fault (after_calls 2 (inject_failure_after_n_calls 2 not_found idle))).0
    ≡ some not_found
unfolding idle
inject_failure_after_n_calls_example =
    inject_failure_after_n_calls_lem 2 2 not_found idle refl (omega arith)
