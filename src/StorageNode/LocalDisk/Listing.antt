-- ===== src/StorageNode/LocalDisk/Listing.antt =====
-- local_disk_chunk_store.cpp, `ListAllChunkIds`: which chunks it lists, and how often.
use microsoft.Base.{
  ℕ, ◌+◌, ◌-◌, ◌≡◌, refl, sym, ap, ◌∙◌, inl, inr, Bool, true, false, ◌&&◌, none, List, [], ◌∷◌,
  ◌++◌, Bytes, bytes_eq, bytes_eq_refl, length-append, take_append, codes, length, All, arith,
  Bool-cases, if◌then◌else◌,
}
use microsoft.Common.Result.{Result-cases, Result, ok, err}
use microsoft.StorageNode.ChunkId.{ChunkId, ParseError, parse, from_digest}
use microsoft.StorageNode.ChunkId.Parse.{IsChunkId, parse-from_digest}
use microsoft.StorageNode.Files.{
  FilePath, path_eq, Disk, lookup, stem, last_dot, filename, is_chunk_file,
}
use microsoft.StorageNode.Files.Update.{IsUnique, path_eq_iff}
use microsoft.StorageNode.LocalDisk.{final_path_for, chunk_ids_in, lookup_file, is_some}
use microsoft.StorageNode.LocalDisk.Names.{
  IsNamed, IsChunkId-IsNamed, final_path-is_chunk_file, extension-suffix, path_eq-final_path,
}

-- How often a chunk is in a list of ids.
unfoldable pub times : ChunkId → List ChunkId → ℕ
times id [] = 0
times id (x ∷ ids) = (if bytes_eq id.hex x.hex then 1 else 0) + times id ids

-- A chunk file whose name is the text of an id lies where that chunk belongs.
abbrev pub IsInPlace : FilePath → Type 0
IsInPlace p =
    (id : ChunkId)
    → is_chunk_file p ≡ true
    → parse (stem (filename p)) ≡ ok id
    → p ≡ final_path_for id

abbrev pub AreInPlace : Disk → Type 0
AreInPlace d = All (λ file. IsInPlace file.0) d

pub final_path-stem : (id : ChunkId) → IsNamed id → stem (filename (final_path_for id)) ≡ id.hex
unfolding stem final_path_for last_dot
final_path-stem id named =
    let size : length (id.hex ++ codes ".chunk") - 6 ≡ length id.hex =
      omega (arith, length-append id.hex (codes ".chunk")) in
    rw (extension-suffix id.hex (codes ".chunk") named (omega arith) refl, size)
      (take_append id.hex (codes ".chunk"))

IsChunkId-parse : (id : ChunkId) → IsChunkId id → parse id.hex ≡ ok id
unfolding from_digest
IsChunkId-parse id v =
    let same : from_digest id.digest ≡ id = ap (λ hex. record id { hex = hex }) v.text in
    sym (ap (λ hex. parse hex) v.text) ∙ parse-from_digest id.digest v.bytes v.size ∙ ap ok same

abbrev is_text_of : ChunkId → Result ChunkId ParseError → Bool
is_text_of id (ok x) = bytes_eq id.hex x.hex
is_text_of id (err _) = false

-- Whether a file is listed as this chunk.
abbrev lists : ChunkId → FilePath → Bool
lists id p = is_chunk_file p && is_text_of id (parse (stem (filename p)))

listed_once :
    (id : ChunkId) (p : FilePath) (content : Bytes) (d : Disk)
    → times id (chunk_ids_in ((p, content) ∷ d))
      ≡ (if lists id p then 1 else 0) + times id (chunk_ids_in d)
unfolding times chunk_ids_in
listed_once id p content d = elim (Bool-cases (is_chunk_file p)) [
  | inr other ↦ rw other (omega arith)
  | inl chunk ↦ elim (Result-cases (parse (stem (filename p)))) [
    | inl (e, bad) ↦ rw (chunk, bad) (omega arith)
    | inr (x, parsed) ↦ rw (chunk, parsed) refl
  ]
]

-- A file in place is listed as a chunk exactly if it is the file of that chunk.
lists_in_place :
    (id : ChunkId) (p : FilePath)
    → IsChunkId id
    → IsInPlace p
    → lists id p ≡ path_eq (final_path_for id) p
lists_in_place id p v placed = elim (Bool-cases (path_eq (final_path_for id) p)) [
  | inl same ↦
      let it : final_path_for id ≡ p = (path_eq_iff (final_path_for id) p).0 same in
      let named = IsChunkId-IsNamed id v in
      rw
        (
          same,
          ← it,
          final_path-is_chunk_file id named,
          final_path-stem id named,
          IsChunkId-parse id v,
          bytes_eq_refl id.hex,
        )
        refl
  | inr other ↦ elim (Bool-cases (is_chunk_file p)) [
    | inr plain ↦ rw (other, plain) refl
    | inl chunk ↦ elim (Result-cases (parse (stem (filename p)))) [
      | inl (e, bad) ↦ rw (other, chunk, bad) refl
      | inr (x, parsed) ↦
          rw (chunk, parsed)
            (sym (path_eq-final_path id x)
              ∙ ap (λ q. path_eq (final_path_for id) q) (sym (placed x chunk parsed)))
    ]
  ]
]

-- Over files with distinct paths that are in place, a well-formed chunk id is listed once if there is
-- a file of this chunk, and otherwise not at all.
pub times-chunk_ids_in :
    (id : ChunkId) (d : Disk)
    → IsChunkId id
    → IsUnique d
    → AreInPlace d
    → times id (chunk_ids_in d) ≡ (if is_some (lookup_file id d) then 1 else 0)
unfolding times chunk_ids_in lookup
times-chunk_ids_in id [] v u placed = refl
times-chunk_ids_in id ((p, content) ∷ d) v u placed =
    let rest = times-chunk_ids_in id d v u.1 placed.1 in
    elim (Bool-cases (path_eq (final_path_for id) p)) [
      | inl same ↦
          let it : final_path_for id ≡ p = (path_eq_iff (final_path_for id) p).0 same in
          let gone : lookup_file id d ≡ none = rw it u.0 in
          listed_once id p content d
          ∙ rw (lists_in_place id p v placed.0, same, rest, gone) (omega arith)
      | inr other ↦
          listed_once id p content d
          ∙ rw (lists_in_place id p v placed.0, other, rest) (omega arith)
    ]
