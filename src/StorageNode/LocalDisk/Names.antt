-- ===== src/StorageNode/LocalDisk/Names.antt =====
-- local_disk_chunk_store.cpp, `FinalPathFor` and the temporary path: which names count as chunks.
use mathlib.Core.List.{append_cancel_right}
use microsoft.Base.{
  ◌<◌, ◌≡◌, ◌≢◌, refl, sym, ◌∙◌, bytes_eq_iff, ap, true, false, some, [], ◌∷◌, ◌++◌, Bytes,
  bytes_eq, bytes_eq→eq, codes, length, length-append, arith, Bool-cases, inl, inr,
}
use microsoft.Common.Sha256.Hex.{length-to_hex_string}
use microsoft.StorageNode.ChunkId.{ChunkId}
use microsoft.StorageNode.ChunkId.Parse.{IsChunkId}
use microsoft.StorageNode.Files.{path_eq, last_dot, extension, filename, is_chunk_file}
use microsoft.StorageNode.Files.Names.{HasNoDot, last_dot-append, last_dot-dot, extension-last_dot}
use microsoft.StorageNode.Files.Update.{path_eq_iff, path_eq_refl}
use microsoft.StorageNode.LocalDisk.{final_path_for, tmp_path_for}

-- A name in a store is not empty, and a UUID has no dot and more than five characters.
abbrev pub IsNamed : ChunkId → Type 0
IsNamed id = id.hex ≢ []

abbrev pub IsUuid : Bytes → Type 0
IsUuid uuid = HasNoDot uuid × (5 < length uuid)

pub extension-suffix :
    (hex s : Bytes) {e : Bytes}
    → hex ≢ []
    → 2 < length s
    → last_dot s ≡ some e
    → extension (hex ++ s) ≡ e
extension-suffix [] s h size last = absurd (h refl)
extension-suffix (c ∷ hex) s h size last =
    extension-last_dot c (hex ++ s) (omega (arith, length-append hex s))
      (last_dot-append hex s last)

pub final_path-is_chunk_file :
    (id : ChunkId) → IsNamed id → is_chunk_file (final_path_for id) ≡ true
unfolding is_chunk_file final_path_for last_dot
final_path-is_chunk_file id h =
    rw (extension-suffix id.hex (codes ".chunk") h (omega arith) refl) refl

pub tmp_path-is_chunk_file :
    (id : ChunkId) (uuid : Bytes)
    → IsNamed id
    → IsUuid uuid
    → is_chunk_file (tmp_path_for id uuid) ≡ false
unfolding is_chunk_file tmp_path_for
tmp_path-is_chunk_file id uuid h u =
    rw (extension-suffix id.hex (codes ".tmp." ++ uuid) h (omega arith) last) other
  where
    last : last_dot (codes ".tmp." ++ uuid) ≡ some (b'.' ∷ uuid)
    last = last_dot-append (codes ".tmp") (b'.' ∷ uuid) (last_dot-dot uuid u.0)

    other : bytes_eq (b'.' ∷ uuid) (codes ".chunk") ≡ false
    other = elim (Bool-cases (bytes_eq (b'.' ∷ uuid) (codes ".chunk"))) [
      | inl e ↦
          absurd (omega (arith, u.1, ap length (bytes_eq→eq (b'.' ∷ uuid) (codes ".chunk") e)))
      | inr e ↦ e
    ]

-- Chunks of different text lie at different paths.
pub final_path-injective :
    (a b : ChunkId) → path_eq (final_path_for a) (final_path_for b) ≡ true → a.hex ≡ b.hex
unfolding final_path_for
final_path-injective a b e =
    append_cancel_right a.hex b.hex (codes ".chunk")
      (ap filename ((path_eq_iff (final_path_for a) (final_path_for b)).0 e))

pub path_eq-final_path :
    (a b : ChunkId) → path_eq (final_path_for a) (final_path_for b) ≡ bytes_eq a.hex b.hex
unfolding final_path_for
path_eq-final_path a b = elim (Bool-cases (path_eq (final_path_for a) (final_path_for b))) [
  | inl same ↦ same ∙ sym ((bytes_eq_iff a.hex b.hex).1 (final_path-injective a b same))
  | inr other ↦ elim (Bool-cases (bytes_eq a.hex b.hex)) [
    | inr differ ↦ other ∙ sym differ
    | inl equal ↦
        let e : a.hex ≡ b.hex = (bytes_eq_iff a.hex b.hex).0 equal in
        rw (equal, e) (path_eq_refl (final_path_for b))
  ]
]

pub IsChunkId-IsNamed : (id : ChunkId) → IsChunkId id → IsNamed id
IsChunkId-IsNamed id v empty = absurd (
    omega
      (arith, ap length empty, ap length v.text, length-to_hex_string id.digest v.bytes, v.size))
