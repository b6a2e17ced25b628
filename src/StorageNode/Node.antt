-- ===== src/StorageNode/Node.antt =====
-- services/storage_node/src/main.cpp, what it puts together: the handlers over a local disk store.
pub mod Safe
pub mod History
use microsoft.Base.{
  ℕ, suc, ◌≤◌, ◌≡◌, refl, none, List, [], Bytes, length, take_all, ◌-◌, ◌∙◌, arith,
}
use microsoft.Common.Result.{ok}
use microsoft.Common.ProtocolVersion.{current_protocol_version}
use microsoft.StorageNode.ChunkId.{ChunkId, parse}
use microsoft.StorageNode.ChunkId.Parse.{parse-IsChunkId}
use microsoft.StorageNode.ChunkStore.{returns, ◌>>=◌, IChunkStore}
use microsoft.StorageNode.LocalDisk.{
  Store, Env, Relock, grants, put, get, verify_only, delete, exists, get_stats, list_all_chunk_ids,
  lookup_file,
}
use microsoft.StorageNode.LocalDisk.Names.{IsUuid}
use microsoft.StorageNode.LocalDisk.Reading.{Reads}
use microsoft.StorageNode.LocalDisk.RoundTrip.{Writes, put-get}
use microsoft.StorageNode.Messages.{
  PutChunkMetadata, PutChunkRequest, GetChunkRequest, GetChunkResponse, status_ok,
}
use microsoft.StorageNode.Preamble.{run_preamble}
use microsoft.StorageNode.Streams.{collect}
use microsoft.StorageNode.Streams.Frames.{sent_data, collect-send_frames}
use microsoft.StorageNode.Service.{put_chunk, put_result_response, get_chunk, get_result_stream}
use microsoft.StorageNode.Service.PutChunk.{upload, put_chunk_stores}

-- The store that `main` hands to the service, for the answers of the system in one call.
unfoldable pub local_disk : Relock → (Bytes → Bytes) → Env → IChunkStore Store
local_disk relock hash_bytes env = record {
  put = put relock hash_bytes env;
  get = get relock hash_bytes env;
  verify_only = verify_only relock hash_bytes env;
  delete = delete relock env;
  exists = exists relock env;
  get_stats = get_stats env;
  list_all_chunk_ids = list_all_chunk_ids env;
}

abbrev pub get_request : Bytes → GetChunkRequest
get_request text = record { protocol_version = current_protocol_version; chunk_id = text }

get_chunk_stream :
    (hash_bytes : Bytes → Bytes) (env : Env) (id : ChunkId) (text content : Bytes) (st : Store)
    → parse text ≡ ok id
    → get grants hash_bytes env id st ≡ returns (ok content) st
    → get_chunk (local_disk grants hash_bytes env) (get_request text) (suc (length content)) st
      ≡ returns (status_ok, get_result_stream (suc (length content)) (ok content)) st
unfolding get_chunk run_preamble local_disk
get_chunk_stream hash_bytes env id text content st parsed found =
    rw (parsed, get_chunk, found, ◌>>=◌) refl

stream_data :
    (content : Bytes) → collect [] (get_result_stream (suc (length content)) (ok content)) ≡ content
unfolding collect
stream_data content =
    rw (take_all {A = GetChunkResponse} (length content) [] (omega arith))
      (collect-send_frames (suc (length content) - 1) content (omega arith))

-- Through the whole node, where the mutex lets its owner in again and no stripe is held: a chunk
-- that the store does not hold, uploaded in the current version and within the limit by data frames
-- whose hash is the digest of its well-formed id, is answered with success; and the messages that a
-- later `GetChunk` of the current version for this id sends carry the data of the upload, if no system
-- call fails and the client takes all messages.
pub put_chunk-get_chunk :
    (hash_bytes : Bytes → Bytes) (env env' : Env) (max_chunk_bytes : ℕ) (m : PutChunkMetadata)
    (frames : List PutChunkRequest) (id : ChunkId) (st : Store)
    → parse m.chunk_id ≡ ok id
    → m.total_size_bytes ≤ max_chunk_bytes
    → length (sent_data frames) ≤ max_chunk_bytes
    → hash_bytes (sent_data frames) ≡ id.digest
    → lookup_file id st.disk ≡ none
    → st.held ≡ []
    → IsUuid env.uuid
    → Writes env (sent_data frames)
    → Reads env' (sent_data frames)
    → (st' : Store) × (messages : List GetChunkResponse) × (put_chunk
          (local_disk grants hash_bytes env)
          max_chunk_bytes
          (upload current_protocol_version m frames)
          st
        ≡ returns (status_ok, put_result_response (ok tt)) st')
      × (get_chunk
            (local_disk grants hash_bytes env')
            (get_request m.chunk_id)
            (suc (length (sent_data frames)))
            st'
          ≡ returns (status_ok, messages) st')
      × (collect [] messages ≡ sent_data frames)
unfolding local_disk
put_chunk-get_chunk hash_bytes env env' max_chunk_bytes m frames id st parsed declared fits same
      absent free uuid w r =
    let content = sent_data frames in
    let (st', stored, found) =
      put-get hash_bytes env env' id content st (parse-IsChunkId m.chunk_id id parsed).1 uuid free
        same absent w r in
    (
      st',
      get_result_stream (suc (length content)) (ok content),
      put_chunk_stores (local_disk grants hash_bytes env) max_chunk_bytes m frames id st parsed
            declared fits
          ∙ rw (stored, ◌>>=◌) refl,
      get_chunk_stream hash_bytes env' id m.chunk_id content st' parsed found,
      stream_data content,
    )
