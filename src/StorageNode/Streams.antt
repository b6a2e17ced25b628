-- ===== src/StorageNode/Streams.antt =====
-- storage_node_service_impl.cpp: the three loops over streams. A stream that a client sends is the
-- list of its messages; a stream that a handler sends is the list of the messages that reach the
-- client, who takes `accepted` of them before the stream breaks.
pub mod Frames
use microsoft.Base.{
  ℕ, zero, suc, ◌+◌, ◌-◌, Option, none, some, List, [], ◌∷◌, ◌++◌, Bytes, length, take, drop, ltb,
  min, if◌then◌else◌,
}
use microsoft.Common.ProtocolVersion.{current_protocol_version}
use microsoft.StorageNode.Messages.{
  PutChunkPayload, PutChunkRequest, GetChunkPayload, GetChunkResponse,
}
use microsoft.StorageNode.Preamble.{stream_frame_size_bytes}

-- The loop of `PutChunk` over the frames; `none` if the data grow too large.
unfoldable pub receive : ℕ → Bytes → List PutChunkRequest → Option Bytes
receive max_chunk_bytes payload [] = some payload
receive max_chunk_bytes payload (frame ∷ frames) = elim frame.payload [
  | PutChunkPayload.data_chunk content ↦
      let rest = receive max_chunk_bytes (payload ++ content) frames in
      if ltb max_chunk_bytes (length payload + length content) then none else rest
  | PutChunkPayload.metadata m ↦ receive max_chunk_bytes payload frames
  | PutChunkPayload.not_set ↦ receive max_chunk_bytes payload frames
]

-- The loop of `GetChunk` over the content, with as much fuel as there are bytes.
unfoldable pub send_frames : ℕ → ℕ → ℕ → Bytes → List GetChunkResponse
send_frames zero accepted offset content = []
send_frames (suc fuel) accepted offset content =
    let chunk_size = min stream_frame_size_bytes (length content - offset) in
    let rest = send_frames fuel (accepted - 1) (offset + chunk_size) content in
    let frame : GetChunkResponse = record {
      protocol_version = current_protocol_version;
      payload = GetChunkPayload.data_chunk (take chunk_size (drop offset content));
    } in
    if ltb offset (length content) then (if ltb 0 accepted then frame ∷ rest else []) else []

-- The loop of `ReplicateChunk` over the frames of the source.
unfoldable pub collect : Bytes → List GetChunkResponse → Bytes
collect payload [] = payload
collect payload (frame ∷ frames) = elim frame.payload [
  | GetChunkPayload.data_chunk content ↦ collect (payload ++ content) frames
  | GetChunkPayload.metadata m ↦ collect payload frames
  | GetChunkPayload.not_set ↦ collect payload frames
]
