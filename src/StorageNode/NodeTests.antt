-- ===== src/StorageNode/NodeTests.antt =====
-- A node that starts with an empty directory, and the calls of a client.
use microsoft.Base.{◌≡◌, refl, List, [], ◌∷◌, codes}
use microsoft.StorageNode.ChunkStore.{returns}
use microsoft.StorageNode.Messages.{
  ChunkStatus, PutChunkMetadata, PutChunkPayload, PutChunkRequest, GetChunkPayload,
  ReplicateChunkRequest, status_ok,
}
use microsoft.StorageNode.LocalDisk.{Store, Env}
use microsoft.StorageNode.LocalDisk.Reading.{IsIntact}
use microsoft.StorageNode.Service.PutChunk.{upload}
use microsoft.StorageNode.Service.Unary.{Remote}
use microsoft.StorageNode.Node.{get_request}
use microsoft.StorageNode.Node.History.{
  Rpc, put_rpc, get_rpc, verify_rpc, delete_rpc, replicate_rpc, Answer, run, AreHonest,
  run-AreHonest,
}
use microsoft.StorageNode.Sample.{
  content, toy_hash, sample_text, sample_uuid-IsUuid, healthy, empty_store, empty_store-IsIntact,
}

abbrev frames : List PutChunkRequest
frames = record { protocol_version = 1; payload = PutChunkPayload.data_chunk content } ∷ []

abbrev meta : PutChunkMetadata
meta = record { chunk_id = sample_text; capability_token = []; total_size_bytes = 2 }

-- A node at which every chunk is damaged.
abbrev damaged_node : Remote
damaged_node address correlation_id request = (
  record {
    protocol_version = 1;
    payload =
        GetChunkPayload.metadata
          (record { total_size_bytes = 0; status = ChunkStatus.corruption_detected });
  }
      ∷ [],
  status_ok,
)

abbrev from_damaged : ReplicateChunkRequest
from_damaged = record {
  protocol_version = 1;
  chunk_id = sample_text;
  source_node_address = codes "node";
}

-- An upload, a download of which one message is taken, a check on a disk that reads too little, a
-- request of another version, and a replication from a node that reports a corruption.
abbrev rpcs : List (Env × Rpc)
rpcs =
    (healthy 2, put_rpc (upload 1 meta frames))
    ∷ (healthy 2, get_rpc (get_request sample_text) 1)
    ∷ (healthy 1, verify_rpc (record { protocol_version = 1; chunk_id = sample_text }))
    ∷ (
      healthy 2,
      delete_rpc (record { protocol_version = 2; chunk_id = sample_text; capability_token = [] }),
    )
    ∷ (healthy 2, replicate_rpc damaged_node [] [] from_damaged)
    ∷ []

run-AreHonest_example :
    (answers : List Answer) × (st' : Store) × (run toy_hash 4 rpcs empty_store
      ≡ returns answers st')
    × (st'.held ≡ [])
    × IsIntact toy_hash st'
    × AreHonest toy_hash 4 rpcs answers
run-AreHonest_example =
    run-AreHonest toy_hash 4 rpcs empty_store
      (
        sample_uuid-IsUuid,
        (sample_uuid-IsUuid, (sample_uuid-IsUuid, (sample_uuid-IsUuid, (sample_uuid-IsUuid, tt)))),
      )
      refl empty_store-IsIntact
