-- ===== src/StorageNode/ChunkStore.antt =====
-- i_chunk_store.h: the interface of a chunk store, over the state `S` of an implementation. A call
-- returns and leaves a new state, or blocks for ever, or throws.
use microsoft.Base.{ℕ, Bool, List, String, Bytes}
use microsoft.Common.Result.{Result}
use microsoft.StorageNode.ChunkId.{ChunkId}

pub data ChunkStoreError : Type 0 where
  checksum_mismatch corruption_detected not_found io_error : ChunkStoreError

pub record ChunkStoreErrorDetail : Type 0 where
  pub kind : ChunkStoreError
  pub message : String

pub record ChunkStoreStats : Type 0 where
  pub chunk_count : ℕ
  pub bytes_used : ℕ
  pub bytes_free : ℕ

pub data Outcome (S A : Type 0) : Type 0 where
  returns : A → S → Outcome S A
  blocks : Outcome S A
  throws : Outcome S A

abbrev pub Call : Type 0 → Type 0 → Type 0
Call S A = S → Outcome S A

module _ {S A : Type 0} where
  abbrev pub pure : A → Call S A
  pure a s = returns a s

infixl 5 ◌>>=◌
abbrev pub ◌>>=◌ : {S A B : Type 0} → Call S A → (A → Call S B) → Call S B
◌>>=◌ m f s = elim (m s) [ returns a s' ↦ f a s' | blocks ↦ blocks | throws ↦ throws ]

abbrev pub StoreResult : Type 0 → Type 0
StoreResult A = Result A ChunkStoreErrorDetail

pub record IChunkStore (S : Type 0) : Type 0 where
  pub put : ChunkId → Bytes → Call S (StoreResult (Unit {0}))
  pub get : ChunkId → Call S (StoreResult Bytes)
  pub verify_only : ChunkId → Call S (StoreResult (Unit {0}))
  pub delete : ChunkId → Call S (StoreResult (Unit {0}))
  pub exists : ChunkId → Call S Bool
  pub get_stats : Call S ChunkStoreStats
  pub list_all_chunk_ids : Call S (List ChunkId)
