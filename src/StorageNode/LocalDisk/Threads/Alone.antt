-- ===== src/StorageNode/LocalDisk/Threads/Alone.antt =====
-- local_disk_chunk_store.cpp: the steps of one thread that no other disturbs are the operations.
use microsoft.Base.{
  ℕ, zero, suc, ◌-◌, ◌≤◌, ◌≡◌, refl, ◌||◌, Bytes, [], ◌∷◌, arith, Bool-cases, Option-cases, inl,
  inr,
}
use microsoft.StorageNode.ChunkId.{ChunkId}
use microsoft.StorageNode.Files.{FilePath, Disk, insert}
use microsoft.StorageNode.Files.Update.{path_eq_refl}
use microsoft.StorageNode.ChunkStore.{returns, StoreResult}
use microsoft.StorageNode.LocalDisk.{
  Store, Env, grants, put, stat, is_some, write_chunk, remove_chunk, write_fails, lookup_file,
}
use microsoft.StorageNode.LocalDisk.Locking.{put_unlocked, put_grants}
use microsoft.StorageNode.LocalDisk.Threads.{
  Phase, idle, checking, writing, closing, counting, sizing, reading, removing, forgetting,
  shrinking, next_of,
}

-- So many steps of a thread, one after the other.
unfoldable pub alone : ℕ → Phase × Store → Phase × Store
alone zero (p, st) = (p, st)
alone (suc n) (p, st) = alone n (next_of p st)

insert_twice :
    (p : FilePath) (old new : Bytes) (d : Disk) → insert p new (insert p old d) ≡ insert p new d
unfolding insert
insert_twice p old new [] = ground (arith, path_eq_refl p)
insert_twice p old new ((q, c) ∷ d) = ground (arith, path_eq_refl p, insert_twice p old new d)

module _ (env : Env) (id : ChunkId) (content : Bytes) (st : Store) where
  put_alone : alone 5 (checking env id content, st) ≡ (idle, (put_unlocked env id content st).1)
  unfolding alone next_of put_unlocked write_chunk
  put_alone =
      elim (Bool-cases
        (is_some (stat env id st) || (env.create_directories_fails || env.open_fails))) [
          | inl stops ↦ rw stops (ground (arith, stops))
          | inr goes ↦
              rw goes
                (elim (Bool-cases
                  (write_fails env content || (env.fsync_fails || env.rename_fails))) [
                    | inl fails ↦
                        rw (fails, insert_twice _ [] _ st.disk) (ground (arith, goes, fails))
                    | inr whole ↦
                        rw (whole, insert_twice _ [] _ st.disk) (ground (arith, goes, whole))
                  ])
        ]

  delete_alone : alone 3 (removing env id, st) ≡ (idle, (remove_chunk env id st).1)
  unfolding alone next_of remove_chunk
  delete_alone = elim (Option-cases (lookup_file id st.disk)) [
    | inl absent ↦ ground (arith, absent)
    | inr (c, there) ↦ ground (arith, there)
  ]

-- How many steps a thread has before it at most.
abbrev left_of : Phase → ℕ
left_of idle = 0
left_of (checking _ _ _) = 5
left_of (writing _ _ _) = 4
left_of (closing _ _ _) = 3
left_of (counting _ _ _) = 2
left_of (sizing _ _ _) = 1
left_of (reading _ _) = 1
left_of (removing _ _) = 3
left_of (forgetting _ _) = 2
left_of (shrinking _ _) = 1

next_of-left_of : (p : Phase) (st : Store) → left_of (next_of p st).0 ≤ left_of p - 1
unfolding next_of
next_of-left_of idle st = omega arith
next_of-left_of (checking env id content) st = ground arith
next_of-left_of (writing env id content) st = omega arith
next_of-left_of (closing env id content) st = ground arith
next_of-left_of (counting env id content) st = omega arith
next_of-left_of (sizing env id content) st = omega arith
next_of-left_of (reading env id) st = omega arith
next_of-left_of (removing env id) st = ground arith
next_of-left_of (forgetting id n) st = omega arith
next_of-left_of (shrinking id n) st = omega arith

left_of_most : (p : Phase) → left_of p ≤ 5
left_of_most idle = omega arith
left_of_most (checking _ _ _) = omega arith
left_of_most (writing _ _ _) = omega arith
left_of_most (closing _ _ _) = omega arith
left_of_most (counting _ _ _) = omega arith
left_of_most (sizing _ _ _) = omega arith
left_of_most (reading _ _) = omega arith
left_of_most (removing _ _) = omega arith
left_of_most (forgetting _ _) = omega arith
left_of_most (shrinking _ _) = omega arith

left_of_none : (p : Phase) → left_of p ≡ 0 → p ≡ idle
left_of_none idle e = refl
left_of_none (checking _ _ _) e = absurd (omega (arith, e))
left_of_none (writing _ _ _) e = absurd (omega (arith, e))
left_of_none (closing _ _ _) e = absurd (omega (arith, e))
left_of_none (counting _ _ _) e = absurd (omega (arith, e))
left_of_none (sizing _ _ _) e = absurd (omega (arith, e))
left_of_none (reading _ _) e = absurd (omega (arith, e))
left_of_none (removing _ _) e = absurd (omega (arith, e))
left_of_none (forgetting _ _) e = absurd (omega (arith, e))
left_of_none (shrinking _ _) e = absurd (omega (arith, e))

-- Where the mutex lets its owner in again and the data match the id, the steps of a `Put` that no
-- other thread disturbs leave the store that the undivided `Put` leaves; and likewise the steps of a
-- `Delete` leave what the body of the undivided `Delete` leaves. And whatever the other threads do to
-- the store between its steps, a thread has left it after at most five steps of its own.
pub alone_lem :
    (hash_bytes : Bytes → Bytes) (env : Env) (id : ChunkId) (content : Bytes) (st : Store)
    → hash_bytes content ≡ id.digest
    → ((r : StoreResult (Unit {0})) × (st' : Store) × (put grants hash_bytes env id content st
          ≡ returns r st')
        × (alone 5 (checking env id content, st) ≡ (idle, st')))
      × (alone 3 (removing env id, st) ≡ (idle, (remove_chunk env id st).1))
      × ((p : Phase) (a b c d e' : Store)
          → (next_of (next_of (next_of (next_of (next_of p a).0 b).0 c).0 d).0 e').0 ≡ idle)
alone_lem hash_bytes env id content st e = (
  (_, _, put_grants hash_bytes env id content st e, put_alone env id content st),
  delete_alone env id content st,
  λ p a b c d e'.
      let p₁ = (next_of p a).0 in
      let p₂ = (next_of p₁ b).0 in
      let p₃ = (next_of p₂ c).0 in
      let p₄ = (next_of p₃ d).0 in
      left_of_none (next_of p₄ e').0 (
        omega (
          arith,
          left_of_most p,
          next_of-left_of p a,
          next_of-left_of p₁ b,
          next_of-left_of p₂ c,
          next_of-left_of p₃ d,
          next_of-left_of p₄ e',
        )),
)
