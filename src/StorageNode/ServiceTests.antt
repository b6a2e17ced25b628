-- ===== src/StorageNode/ServiceTests.antt =====
-- The theorems about the handlers and the fault-injecting store at concrete inputs.
use microsoft.Base.{
  ℕ, ◌≡◌, refl, true, false, none, some, List, [], ◌∷◌, ◌++◌, Bytes, All, arith, inr,
}
use microsoft.Base.Int.{pos}
use microsoft.Common.Result.{ok, err}
use microsoft.StorageNode.ChunkId.{wrong_length, parse}
use microsoft.StorageNode.ChunkStore.{not_found, returns, pure, ◌>>=◌, IChunkStore}
use microsoft.StorageNode.LocalDisk.{Store, grants, lookup_file}
use microsoft.StorageNode.LocalDisk.RoundTrip.{Writes}
use microsoft.StorageNode.LocalDisk.Reading.{Reads}
use microsoft.StorageNode.Files.{lookup}
use microsoft.StorageNode.FaultInjecting.{Faulty, fault_injecting, clear_injected_faults}
use microsoft.StorageNode.FaultInjecting.Faults.{clear_injected_faults_lem, forwards}
use microsoft.StorageNode.Messages.{
  ChunkStatus, PutChunkMetadata, PutChunkPayload, PutChunkRequest, PutChunkResponse,
  GetChunkPayload, GetChunkResponse, Status, StatusCode, status_ok,
}
use microsoft.StorageNode.Preamble.{unsupported_version, run_preamble}
use microsoft.StorageNode.Streams.{receive, send_frames, collect}
use microsoft.StorageNode.Streams.Frames.{receive_lem, send_frames_lem, IsFrame}
use microsoft.StorageNode.Service.{
  put_chunk, put_result_response, put_response, get_chunk, get_result_stream,
}
use microsoft.StorageNode.Service.PutChunk.{upload, put_chunk_too_large}
use microsoft.StorageNode.Service.Unary.{
  result_status, replied, verify_chunk, verified, delete_chunk, deleted, replicate_chunk,
  get_node_stats, Remote,
}
use microsoft.StorageNode.Service.Replicate.{source_request, replicate_chunk-get_chunk}
use microsoft.StorageNode.Service.Versions.{no_stats, unsupported_version_refused}
use microsoft.StorageNode.Node.{local_disk, get_request, put_chunk-get_chunk}
use microsoft.StorageNode.Sample.{
  content, toy_hash, sample_id, sample_text, parse_sample, sample_uuid-IsUuid, healthy, empty_store,
}

abbrev node : IChunkStore Store
node = local_disk grants toy_hash (healthy 2)

abbrev meta : PutChunkMetadata
meta = record { chunk_id = sample_text; capability_token = []; total_size_bytes = 2 }

abbrev data_frame : Bytes → PutChunkRequest
data_frame bytes = record { protocol_version = 1; payload = PutChunkPayload.data_chunk bytes }

abbrev frames : List PutChunkRequest
frames = data_frame (0x7a ∷ []) ∷ data_frame (8 ∷ []) ∷ []

put_chunk_too_large_example :
    (r : Status × PutChunkResponse) × (put_chunk node 1 (upload 1 meta frames) empty_store
      ≡ returns r empty_store)
    × (r.0.code ≡ StatusCode.resource_exhausted)
    × (r.1.status ≡ ChunkStatus.chunk_too_large)
put_chunk_too_large_example =
    put_chunk_too_large node 1 meta frames sample_id empty_store parse_sample (inr (omega arith))

receive_lem_example : receive 4 [] frames ≡ some content
receive_lem_example = receive_lem 4 frames

send_frames_lem_example :
    All IsFrame (send_frames 2 1 0 content)
    × ((rest : Bytes) × (collect [] (send_frames 2 1 0 content) ++ rest ≡ content))
send_frames_lem_example = send_frames_lem 1 content

absent : lookup_file sample_id [] ≡ none
unfolding lookup
absent = refl

writes : Writes (healthy 2) content
writes = record {
  statted = refl;
  created = refl;
  opened = refl;
  whole = refl;
  synced = refl;
  renamed = refl;
}

reads : Reads (healthy 2) content
reads = record { found = refl; opened = refl; whole = refl }

put_chunk-get_chunk_example :
    (st' : Store) × (messages : List GetChunkResponse) × (put_chunk node 4
        (upload 1 meta frames)
        empty_store
      ≡ returns (status_ok, put_result_response (ok tt)) st')
    × (get_chunk node (get_request sample_text) 3 st' ≡ returns (status_ok, messages) st')
    × (collect [] messages ≡ content)
put_chunk-get_chunk_example =
    put_chunk-get_chunk toy_hash (healthy 2) (healthy 2) 4 meta frames sample_id empty_store
      parse_sample (omega arith) (omega arith) refl absent refl sample_uuid-IsUuid writes reads

-- A source that holds the sample, and the link to it.
source : IChunkStore ℕ
source = record {
  put = λ id c. pure (ok tt);
  get = λ id. pure (ok content);
  verify_only = λ id. pure (ok tt);
  delete = λ id. pure (ok tt);
  exists = λ id. pure true;
  get_stats = pure (record { chunk_count = 1; bytes_used = 2; bytes_free = 0 });
  list_all_chunk_ids = pure (sample_id ∷ []);
}

abbrev answer : Status × List GetChunkResponse
answer = (status_ok, get_result_stream 3 (ok content))

abbrev link : Remote
link address correlation_id request = (answer.1, answer.0)

served : get_chunk source (source_request sample_id) 3 0 ≡ returns answer 0
unfolding get_chunk source run_preamble
served = rw (parse_sample, get_chunk) refl

found : source.get sample_id 0 ≡ returns (ok content) 0
unfolding source
found = refl

replicate_chunk-get_chunk_example :
    replicate_chunk node 4 link [] []
      (record { protocol_version = 1; chunk_id = sample_text; source_node_address = [] })
      empty_store
    ≡ (node.put sample_id content >>= λ res. pure (status_ok, replied (result_status res)))
        empty_store
replicate_chunk-get_chunk_example =
    replicate_chunk-get_chunk node source 4 empty_store 0 0 sample_id content link [] [] [] answer
      parse_sample found (omega arith) served refl

abbrev stream_frame : GetChunkResponse
stream_frame = record { protocol_version = 1; payload = GetChunkPayload.data_chunk content }

unsupported_version_refused_example :
    (put_chunk node 4 (upload 2 meta frames) empty_store
      ≡ returns (unsupported_version, put_response) empty_store)
    × (get_chunk node (record { protocol_version = 2; chunk_id = sample_text }) 3 empty_store
        ≡ returns (unsupported_version, []) empty_store)
    × (verify_chunk node (record { protocol_version = 2; chunk_id = sample_text }) empty_store
        ≡ returns (unsupported_version, verified false ChunkStatus.ok) empty_store)
    × (delete_chunk node
          (record { protocol_version = 2; chunk_id = sample_text; capability_token = [] })
          empty_store
        ≡ returns (unsupported_version, deleted ChunkStatus.ok) empty_store)
    × (replicate_chunk node 4 link [] []
          (record { protocol_version = 2; chunk_id = sample_text; source_node_address = [] })
          empty_store
        ≡ returns (unsupported_version, replied ChunkStatus.ok) empty_store)
    × (get_node_stats node (record { protocol_version = 2 }) empty_store
        ≡ returns (unsupported_version, no_stats) empty_store)
unsupported_version_refused_example =
    unsupported_version_refused node 4 2 meta empty_store frames sample_id 3 link [] [] [] []
      (omega arith) parse_sample

abbrev short_meta : PutChunkMetadata
short_meta = record { chunk_id = []; capability_token = []; total_size_bytes = 2 }

short : parse [] ≡ err wrong_length
unfolding parse
short = refl

abbrev busy : Faulty Store
busy = record {
  faults = record {
    pending_one_shot_fault = none;
    pending_nth_call_fault = some (0, not_found);
    call_counter = 5;
    pending_latency = pos 3;
  };
  slept = 0;
  delegate = empty_store;
}

clear_injected_faults_lem_example :
    let outer = fault_injecting node in
    let st' = record busy { faults = clear_injected_faults busy.faults } in
    (outer.put sample_id content st' ≡ forwards node busy (node.put sample_id content empty_store))
    × (outer.get sample_id st' ≡ forwards node busy (node.get sample_id empty_store))
    × (outer.verify_only sample_id st'
        ≡ forwards node busy (node.verify_only sample_id empty_store))
    × (outer.delete sample_id st' ≡ forwards node busy (node.delete sample_id empty_store))
    × (outer.exists sample_id st' ≡ forwards node busy (node.exists sample_id empty_store))
    × (outer.get_stats st' ≡ forwards node busy (node.get_stats empty_store))
    × (outer.list_all_chunk_ids st' ≡ forwards node busy (node.list_all_chunk_ids empty_store))
clear_injected_faults_lem_example = clear_injected_faults_lem node busy sample_id content
