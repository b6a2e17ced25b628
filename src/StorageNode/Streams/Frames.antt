-- ===== src/StorageNode/Streams/Frames.antt =====
-- storage_node_service_impl.cpp, the loops over streams: what is received, sent and collected.
use mathlib.Core.List.{append-nil, append_assoc}
use microsoft.Base.{
  ℕ, zero, suc, ◌+◌, ◌-◌, ◌≤◌, ◌<◌, ◌≡◌, refl, ap, ◌∙◌, true, false, ◌&&◌, Option, none, some, List,
  [], ◌∷◌, ◌++◌, Bytes, length, length-append, length-drop, length-take, take, drop,
  take-append-drop, All, min, ltb, leb, arith, Bool-cases, inl, inr, if◌then◌else◌,
}
use microsoft.StorageNode.Messages.{
  PutChunkPayload, PutChunkRequest, GetChunkPayload, GetChunkResponse,
}
use microsoft.StorageNode.Preamble.{stream_frame_size_bytes}
use microsoft.StorageNode.Streams.{receive, send_frames, collect}

-- The bytes of the data frames of an upload, in order.
abbrev pub frame_data : PutChunkPayload → Bytes
frame_data (PutChunkPayload.data_chunk content) = content
frame_data (PutChunkPayload.metadata m) = []
frame_data PutChunkPayload.not_set = []

abbrev pub sent_data : List PutChunkRequest → Bytes
sent_data [] = []
sent_data (frame ∷ frames) = frame_data frame.payload ++ sent_data frames

abbrev within : ℕ → Bytes → Option Bytes
within limit payload = if leb (length payload) limit then some payload else none

receive_step :
    (limit : ℕ) (payload : Bytes) (frame : PutChunkRequest) (frames : List PutChunkRequest)
    → ((q : Bytes)
        → length q ≤ limit
        → receive limit q frames ≡ within limit (q ++ sent_data frames))
    → (p : PutChunkPayload) → frame.payload ≡ p
    → length payload ≤ limit
    → receive limit payload (frame ∷ frames)
      ≡ within limit (payload ++ (frame_data p ++ sent_data frames))
unfolding receive
receive_step limit payload frame frames ih (PutChunkPayload.data_chunk content) e h =
    elim (Bool-cases (ltb limit (length payload + length content))) [
      | inl over ↦
          rw (e, receive, over)
            (ground (
              arith,
              length-append payload (content ++ sent_data frames),
              length-append content (sent_data frames),
            ))
      | inr fits ↦
          rw (e, receive, fits)
            (ih (payload ++ content) (ground (arith, length-append payload content))
              ∙ rw (append_assoc payload content (sent_data frames)) refl)
    ]
receive_step limit payload frame frames ih (PutChunkPayload.metadata m) e h =
    rw (e, receive) (ih payload h)
receive_step limit payload frame frames ih PutChunkPayload.not_set e h =
    rw (e, receive) (ih payload h)

receive_from :
    (limit : ℕ) (payload : Bytes) (frames : List PutChunkRequest)
    → length payload ≤ limit
    → receive limit payload frames ≡ within limit (payload ++ sent_data frames)
unfolding receive
receive_from limit payload [] h = rw (append-nil payload) (ground arith)
receive_from limit payload (frame ∷ frames) h =
    receive_step limit payload frame frames (λ q. receive_from limit q frames) frame.payload refl h

-- The upload loop accepts a stream exactly if its data frames together fit the limit, and then
-- gives their concatenation.
pub receive_lem :
    (limit : ℕ) (frames : List PutChunkRequest)
    → receive limit [] frames
      ≡ (if leb (length (sent_data frames)) limit then some (sent_data frames) else none)
receive_lem limit frames = receive_from limit [] frames (omega arith)

drop_nil : {A : Type 0} (m : ℕ) → drop {A = A} m [] ≡ []
drop_nil zero = refl
drop_nil (suc m) = refl

drop-drop : {A : Type 0} (m n : ℕ) (xs : List A) → drop m (drop n xs) ≡ drop (n + m) xs
drop-drop m zero xs = let same : 0 + m ≡ m = omega arith in rw same refl
drop-drop m (suc n) [] = let same : suc n + m ≡ suc (n + m) = omega arith in rw same (drop_nil m)
drop-drop m (suc n) (x ∷ xs) =
    let same : suc n + m ≡ suc (n + m) = omega arith in rw same (drop-drop m n xs)

drop_all : {A : Type 0} (n : ℕ) (xs : List A) → length xs ≤ n → drop n xs ≡ []
drop_all zero [] h = refl
drop_all zero (x ∷ xs) h = absurd (omega arith)
drop_all (suc n) [] h = refl
drop_all (suc n) (x ∷ xs) h = drop_all n xs (omega arith)

abbrev frame_size : ℕ → Bytes → ℕ
frame_size offset content = min stream_frame_size_bytes (length content - offset)

collect-send_frames_from :
    (fuel accepted offset : ℕ) (content acc : Bytes)
    → length content - offset ≤ fuel
    → length content - offset ≤ accepted
    → collect acc (send_frames fuel accepted offset content) ≡ acc ++ drop offset content
unfolding collect send_frames
collect-send_frames_from zero accepted offset content acc f a =
    rw (drop_all offset content (omega arith), append-nil acc) refl
collect-send_frames_from (suc fuel) accepted offset content acc f a =
    elim (Bool-cases (ltb offset (length content))) [
      | inl more ↦
          let n = frame_size offset content in
          let rest : collect (acc ++ take n (drop offset content))
                (send_frames fuel (accepted - 1) (offset + n) content)
              ≡ (acc ++ take n (drop offset content)) ++ drop (offset + n) content =
            collect-send_frames_from fuel (accepted - 1) (offset + n) content
              (acc ++ take n (drop offset content)) (ground arith) (ground arith) in
          let taken : ltb 0 accepted ≡ true = ground arith in
          rw (more, taken)
            (rest
              ∙ rw
                  (
                    ← drop-drop n offset content,
                    append_assoc acc (take n (drop offset content)) (drop n (drop offset content)),
                    take-append-drop n (drop offset content),
                  )
                  refl)
      | inr done ↦ rw (done, drop_all offset content (ground arith), append-nil acc) refl
    ]

-- A client who takes every frame that `GetChunk` sends, and appends their data as `ReplicateChunk`
-- does, gets the content back. Fuel for one frame a byte is enough.
pub collect-send_frames :
    (accepted : ℕ) (content : Bytes)
    → length content ≤ accepted
    → collect [] (send_frames (length content) accepted 0 content) ≡ content
collect-send_frames accepted content h =
    collect-send_frames_from (length content) accepted 0 content [] (omega arith) (omega arith)

-- What a stream delivers before it breaks is a part of the content from its beginning.
send_frames_prefix :
    (fuel accepted offset : ℕ) (content acc : Bytes)
    → (rest : Bytes) × (collect acc (send_frames fuel accepted offset content) ++ rest
        ≡ acc ++ drop offset content)
unfolding collect send_frames
send_frames_prefix zero accepted offset content acc = (drop offset content, refl)
send_frames_prefix (suc fuel) accepted offset content acc =
    elim (Bool-cases (ltb offset (length content) && ltb 0 accepted)) [
      | inl more ↦
          let n = frame_size offset content in
          let (rest, e) =
            send_frames_prefix fuel (accepted - 1) (offset + n) content
              (acc ++ take n (drop offset content)) in
          let left : ltb offset (length content) ≡ true = ground arith in
          let taken : ltb 0 accepted ≡ true = ground arith in
          (
            rest,
            rw (left, taken)
                (e
                  ∙ rw
                      (
                        ← drop-drop n offset content,
                        append_assoc acc (take n (drop offset content))
                            (drop n (drop offset content)),
                        take-append-drop n (drop offset content),
                      )
                      refl),
          )
      | inr done ↦ (
        drop offset content,
        ap (λ fs. collect acc fs ++ drop offset content) (stops fuel accepted offset content done),
      )
    ]
  where
    stops :
        (fuel accepted offset : ℕ) (content : Bytes)
        → (ltb offset (length content) && ltb 0 accepted) ≡ false
        → send_frames (suc fuel) accepted offset content ≡ []
    stops fuel accepted offset content e = ground arith

-- A frame of the stream: data, not empty, and at most 256 KiB of them.
abbrev pub IsFrame : GetChunkResponse → Type 0
IsFrame r =
    (content : Bytes) × (r.payload ≡ GetChunkPayload.data_chunk content)
    × (0 < length content)
    × (length content ≤ stream_frame_size_bytes)

send_frames-IsFrame :
    (fuel accepted offset : ℕ) (content : Bytes)
    → All IsFrame (send_frames fuel accepted offset content)
unfolding send_frames
send_frames-IsFrame zero accepted offset content = tt
send_frames-IsFrame (suc fuel) accepted offset content =
    elim (Bool-cases (ltb offset (length content))) [
      | inl more ↦ elim (Bool-cases (ltb 0 accepted)) [
        | inl taken ↦
            let n = frame_size offset content in
            rw (more, taken)
              (
                (
                  take n (drop offset content),
                  refl,
                  ground (arith, length-take n (drop offset content), length-drop offset content),
                  ground (arith, length-take n (drop offset content), length-drop offset content),
                ),
                send_frames-IsFrame fuel (accepted - 1) (offset + n) content,
              )
        | inr broken ↦ rw (more, broken) tt
      ]
      | inr done ↦ rw done tt
    ]

-- Every frame that `GetChunk` sends carries between one byte and 256 KiB of data, and at any point
-- where the client breaks the stream off, the data sent so far are a beginning of the content.
pub send_frames_lem :
    (accepted : ℕ) (content : Bytes)
    → let frames = send_frames (length content) accepted 0 content in
      All IsFrame frames × ((rest : Bytes) × (collect [] frames ++ rest ≡ content))
send_frames_lem accepted content = (
  send_frames-IsFrame (length content) accepted 0 content,
  send_frames_prefix (length content) accepted 0 content [],
)
