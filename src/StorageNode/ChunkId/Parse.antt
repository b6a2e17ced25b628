-- ===== src/StorageNode/ChunkId/Parse.antt =====
-- chunk_id.cpp, `ChunkId::Parse`: what it accepts, what it answers, and the round trips.
use microsoft.Base.{
  ℕ, ◌≡◌, ◌↔◌, refl, [], ◌∷◌, Bytes, AreBytes, length, arith, ◌≢◌, sym, ◌∙◌, ◌&&◌, leb, Option,
  none, some, if◌then◌else◌,
}
use microsoft.Common.Result.{Result, ok, err}
use microsoft.Common.Sha256.{to_hex_string, parse_bytes, from_hex_string}
use microsoft.Common.Sha256.Hex.{
  is_lower_hex, IsLowerHex, lower_hex-Reads, parse_bytes-to_hex_string, length-to_hex_string,
  to_hex_string-IsLowerHex,
}
use microsoft.StorageNode.ChunkId.{
  ChunkId, wrong_length, not_lowercase, invalid_hex_character, is_upper, parse, from_digest,
  check_characters,
}

-- A chunk id whose two members agree.
pub record IsChunkId (id : ChunkId) : Type 0 where
  pub size : length id.digest ≡ 32
  pub bytes : AreBytes id.digest
  pub text : to_hex_string id.digest ≡ id.hex

check_characters-lower : (s : Bytes) → IsLowerHex s → check_characters s ≡ ok tt
unfolding check_characters
check_characters-lower [] h = refl
check_characters-lower (c ∷ s) h = ground (arith, check_characters-lower s h.1)

lower-check_characters : (s : Bytes) → check_characters s ≡ ok tt → IsLowerHex s
unfolding check_characters
lower-check_characters [] e = tt
lower-check_characters (c ∷ s) e = ground (arith, lower-check_characters s)

-- Every text of 64 lowercase hexadecimal characters is accepted, and the id that it gives has this
-- text and a digest of 32 bytes that prints as it.
pub parse_accepts :
    (s : Bytes)
    → length s ≡ 64
    → IsLowerHex s
    → (id : ChunkId) × (parse s ≡ ok id) × (id.hex ≡ s) × IsChunkId id
unfolding parse from_hex_string
parse_accepts s len lower =
    let (digest, parsed, bytes, size, printed) = lower_hex-Reads 32 s lower len in
    (
      record { digest = digest; hex = s },
      rw (len, check_characters-lower s lower, parsed) refl,
      refl,
      record { size = size; bytes = bytes; text = printed },
    )

parse_needs : (s : Bytes) (id : ChunkId) → parse s ≡ ok id → (length s ≡ 64) × IsLowerHex s
unfolding parse
parse_needs s id e = ground (arith, lower-check_characters s)

-- `Parse` succeeds exactly for the texts of 64 lowercase hexadecimal characters.
pub parse_iff :
    (s : Bytes) → ((id : ChunkId) × (parse s ≡ ok id)) ↔ ((length s ≡ 64) × IsLowerHex s)
parse_iff s = (λ p. parse_needs s p.0 p.1, λ h. let r = parse_accepts s h.0 h.1 in (r.0, r.1))

-- An id that `Parse` returns keeps the text that was parsed, and its digest has 32 bytes and prints
-- as this text.
pub parse-IsChunkId : (s : Bytes) (id : ChunkId) → parse s ≡ ok id → (id.hex ≡ s) × IsChunkId id
parse-IsChunkId s id e =
    let (len, lower) = parse_needs s id e in
    let (id', e', text, valid) = parse_accepts s len lower in
    let same : id' ≡ id = cc in
    let both : (id'.hex ≡ s) × IsChunkId id' = (text, valid) in rw same at both

-- Parsing the text of an id made from a digest of 32 bytes gives this id back.
pub parse-from_digest :
    (digest : Bytes)
    → AreBytes digest
    → length digest ≡ 32
    → parse (from_digest digest).hex ≡ ok (from_digest digest)
unfolding parse from_digest from_hex_string
parse-from_digest digest bytes size =
    rw
      (
        length-to_hex_string digest bytes,
        size,
        check_characters-lower (to_hex_string digest) (to_hex_string-IsLowerHex digest bytes),
        parsed,
      )
      refl
  where
    parsed : parse_bytes 32 (to_hex_string digest) ≡ ok digest
    parsed = rw size at (parse_bytes-to_hex_string digest bytes)

-- The first character that is no lowercase hexadecimal digit.
abbrev pub first_bad : Bytes → Option ℕ
first_bad [] = none
first_bad (c ∷ s) = if is_lower_hex c then first_bad s else some c

check_characters_bad :
    (s : Bytes) (c : ℕ)
    → first_bad s ≡ some c
    → check_characters s
      ≡ (if is_upper c && leb c b'F' then err not_lowercase else err invalid_hex_character)
unfolding check_characters
check_characters_bad [] c e = cc
check_characters_bad (x ∷ s) c e = ground (arith, check_characters_bad s c)

-- On any other text `Parse` fails: by the length first, then by the first character that is no
-- lowercase hexadecimal digit, which is `not_lowercase` for A to F alone.
pub parse_error :
    (s : Bytes)
    → (length s ≢ 64 → parse s ≡ err wrong_length)
      × ((c : ℕ)
          → length s ≡ 64
          → first_bad s ≡ some c
          → parse s
            ≡ (if is_upper c && leb c b'F' then err not_lowercase else err invalid_hex_character))
unfolding parse
parse_error s =
    (λ h. ground arith, λ c len bad. rw (len, check_characters_bad s c bad) (ground arith))

ok_injective : {E : Type 0} {a b : Bytes} → ◌≡◌ {A = Result Bytes E} (ok a) (ok b) → a ≡ b
ok_injective e = cc

-- The text of an id determines its digest.
pub hex-digest : (a b : ChunkId) → IsChunkId a → IsChunkId b → a.hex ≡ b.hex → a.digest ≡ b.digest
hex-digest a b va vb e = ok_injective (sym read_a ∙ (rw same read_b))
  where
    read : (id : ChunkId) → IsChunkId id → parse_bytes 32 (to_hex_string id.digest) ≡ ok id.digest
    read id v = rw v.size at (parse_bytes-to_hex_string id.digest v.bytes)

    read_a : parse_bytes 32 (to_hex_string a.digest) ≡ ok a.digest
    read_a = read a va

    read_b : parse_bytes 32 (to_hex_string b.digest) ≡ ok b.digest
    read_b = read b vb

    same : to_hex_string a.digest ≡ to_hex_string b.digest
    same = va.text ∙ e ∙ sym vb.text
