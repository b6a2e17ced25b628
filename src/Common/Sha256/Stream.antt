-- ===== src/Common/Sha256/Stream.antt =====
-- sha256.cpp: the class `Sha256`, which hashes in pieces over a context of libcrypto.
pub mod Calls
use microsoft.Base.{
  ◌≡◌, refl, Bool, true, false, Option, none, some, List, [], ◌∷◌, ◌++◌, Bytes, is_empty,
  if◌then◌else◌,
}
use microsoft.Common.Result.{Result, ok, err}

-- The calls of the EVP interface, on contexts `C`; `none` is a return value other than success.
pub record Evp (C : Type 0) : Type 0 where
  pub md_ctx_new : Option C
  pub digest_init : C → Option C
  pub digest_update : Bytes → C → Option C
  pub digest_final : C → Option Bytes

pub data Exception : Type 0 where
  -- "Failed to ..."
  runtime_error : Exception
  -- "Called ... after Finalize"
  logic_error : Exception

-- What a call gives, with the state it leaves: a thrown exception undoes no assignment.
pub data Outcome (S A : Type 0) : Type 0 where
  gives : A → S → Outcome S A
  throws : Exception → S → Outcome S A

pub record Sha256 (C : Type 0) : Type 0 where
  pub ctx : C
  pub finalized : Bool

module _ {C : Type 0} (evp : Evp C) where
  -- The constructor; `none` if it throws.
  unfoldable pub create : Option (Sha256 C)
  create = elim evp.md_ctx_new [
    | none ↦ none
    | some new ↦ elim (evp.digest_init new) [
      | none ↦ none
      | some ctx ↦ some (record { ctx = ctx; finalized = false })
    ]
  ]

  unfoldable pub update : Bytes → Sha256 C → Outcome (Sha256 C) (Unit {0})
  update data_in h =
      if h.finalized
      then throws logic_error h
      else if is_empty data_in
      then gives tt h
      else elim (evp.digest_update data_in h.ctx) [
        | none ↦ throws runtime_error h
        | some ctx ↦ gives tt (record h { ctx = ctx })
      ]

  unfoldable pub finalize : Sha256 C → Outcome (Sha256 C) Bytes
  finalize h = if h.finalized then throws logic_error h else elim (evp.digest_final h.ctx) [
    | none ↦ throws runtime_error (record h { finalized = true })
    | some digest ↦ gives digest (record h { finalized = true })
  ]

  -- `Sha256::HashBytes`
  unfoldable pub hash_bytes : Bytes → Result Bytes Exception
  hash_bytes data_in = elim create [
    | none ↦ err runtime_error
    | some hasher ↦ elim (update data_in hasher) [
      | throws e _ ↦ err e
      | gives _ hasher₁ ↦ elim (finalize hasher₁) [
        | throws e _ ↦ err e
        | gives digest _ ↦ ok digest
      ]
    ]
  ]
