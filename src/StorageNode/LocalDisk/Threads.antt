-- ===== src/StorageNode/LocalDisk/Threads.antt =====
-- local_disk_chunk_store.cpp with several threads. An operation is cut after each call that changes
-- the files or a counter: the open of the temporary file, the write, the rename, the removal of a
-- file and the change of each counter. A call that only looks, under the lock, belongs to the step
-- after it, and `Get` is one step. The steps of threads on different lock stripes interleave in any
-- order. The mutexes let their owner in again, since otherwise no `Put` would go on.
pub mod Exclusive
pub mod Whole
pub mod Others
pub mod Interleaved
pub mod Alone
pub mod Final
pub mod Settled
pub mod Sums
pub mod Pending
pub mod Balanced
pub mod Counted
use microsoft.Base.{
  ℕ, ◌+◌, ◌-◌, ◌%◌, ◌≡◌, ◌≢◌, Bool, true, false, ◌||◌, Option, none, some, Bytes, [], length, ◌==◌,
  if◌then◌else◌,
}
use microsoft.StorageNode.ChunkId.{ChunkId}
use microsoft.StorageNode.ChunkId.Parse.{IsChunkId}
use microsoft.StorageNode.Files.{FilePath, lookup, insert, erase, rename}
use microsoft.StorageNode.LocalDisk.{
  Store, Env, u64, stat, is_some, lock_for, final_path_for, tmp_path_for, write_fails, written_part,
  remove_tmp,
}
use microsoft.StorageNode.LocalDisk.Names.{IsUuid}

-- Where a thread is: outside of the store, or with the stripe of a chunk and, before its next step,
-- in `Put` at the call of `Exists`, at the `write`, at the `rename` or at one of the counters, in
-- `Get` or one of its kind, or in `Delete` at the file or at one of the counters.
pub data Phase : Type 0 where
  idle : Phase
  checking writing closing counting sizing : Env → ChunkId → Bytes → Phase
  reading removing : Env → ChunkId → Phase
  forgetting shrinking : ChunkId → ℕ → Phase

-- The next step of a thread, with the file system's answers.
unfoldable pub next_of : Phase → Store → Phase × Store
next_of idle st = (idle, st)
next_of (checking env id content) st =
    if is_some (stat env id st) || (env.create_directories_fails || env.open_fails)
    then (idle, st)
    else (writing env id content, record st { disk = insert (tmp_path_for id env.uuid) [] st.disk })
next_of (writing env id content) st = (
  closing env id content,
  record st { disk = insert (tmp_path_for id env.uuid) (written_part env content) st.disk },
)
next_of (closing env id content) st =
    if write_fails env content || (env.fsync_fails || env.rename_fails)
    then (idle, remove_tmp env (tmp_path_for id env.uuid) st)
    else (
      counting env id content,
      record st { disk = rename (tmp_path_for id env.uuid) (final_path_for id) st.disk },
    )
next_of (counting env id content) st =
    (sizing env id content, record st { chunk_count = (st.chunk_count + 1) % u64 })
next_of (sizing env id content) st =
    (idle, record st { bytes_used = (st.bytes_used + length content) % u64 })
next_of (reading env id) st = (idle, st)
next_of (removing env id) st = elim (stat env id st) [
  | none ↦ (idle, st)
  | some size_before ↦
      if env.remove_fails
      then (idle, st)
      else (forgetting id size_before, record st { disk = erase (final_path_for id) st.disk })
]
next_of (forgetting id size_before) st =
    (shrinking id size_before, record st { chunk_count = (st.chunk_count + u64 - 1) % u64 })
next_of (shrinking id size_before) st =
    (idle, record st { bytes_used = (st.bytes_used + u64 - size_before % u64) % u64 })

-- The stripe that a thread holds, and the temporary file that it has open.
abbrev pub stripe_of : Phase → Option ℕ
stripe_of idle = none
stripe_of (checking env id content) = some (lock_for id)
stripe_of (writing env id content) = some (lock_for id)
stripe_of (closing env id content) = some (lock_for id)
stripe_of (counting env id content) = some (lock_for id)
stripe_of (sizing env id content) = some (lock_for id)
stripe_of (reading env id) = some (lock_for id)
stripe_of (removing env id) = some (lock_for id)
stripe_of (forgetting id n) = some (lock_for id)
stripe_of (shrinking id n) = some (lock_for id)

abbrev pub tmp_of : Phase → Option FilePath
tmp_of (writing env id content) = some (tmp_path_for id env.uuid)
tmp_of (closing env id content) = some (tmp_path_for id env.uuid)
tmp_of _ = none

-- The store, who holds each stripe, and where each thread is.
pub record System : Type 0 where
  pub store : Store
  pub owner : ℕ → Option ℕ
  pub phase : ℕ → Phase

abbrev pub set : {A : Type 0} → (ℕ → A) → ℕ → A → ℕ → A
set f t a s = if s == t then a else f s

module _ (hash_bytes : Bytes → Bytes) where
  -- A call that has come to its lock: for `Put` the data match the id.
  abbrev pub IsCall : Phase → Type 0
  IsCall (checking env id content) =
      IsChunkId id × IsUuid env.uuid × (hash_bytes content ≡ id.digest)
  IsCall (reading env id) = IsChunkId id
  IsCall (removing env id) = IsChunkId id
  IsCall _ = ⊥

  -- A new UUID names no file that is there.
  abbrev pub IsFresh : Phase → Store → Type 0
  IsFresh (checking env id content) st = lookup (tmp_path_for id env.uuid) st.disk ≡ none
  IsFresh _ st = Unit

  pub data Step (s : System) : System → Type 0 where
    locks :
        (t stripe : ℕ) (call : Phase)
        → s.phase t ≡ idle
        → IsCall call
        → stripe_of call ≡ some stripe
        → s.owner stripe ≡ none
        → Step s (record s { owner = set s.owner stripe (some t); phase = set s.phase t call })
    moves :
        (t : ℕ)
        → IsFresh (s.phase t) s.store
        → stripe_of (next_of (s.phase t) s.store).0 ≡ stripe_of (s.phase t)
        → Step s (record s {
          store = (next_of (s.phase t) s.store).1;
          phase = set s.phase t (next_of (s.phase t) s.store).0;
        })
    unlocks :
        (t stripe : ℕ)
        → IsFresh (s.phase t) s.store
        → stripe_of (s.phase t) ≡ some stripe
        → (next_of (s.phase t) s.store).0 ≡ idle
        → Step s (record s {
          store = (next_of (s.phase t) s.store).1;
          owner = set s.owner stripe none;
          phase = set s.phase t idle;
        })

  -- What any number of steps can reach.
  pub data Reaches (start : System) : System → Type 0 where
    begins : Reaches start start
    goes_on : {s s' : System} → Reaches start s → Step s s' → Reaches start s'
