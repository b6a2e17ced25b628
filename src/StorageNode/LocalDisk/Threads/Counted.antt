-- ===== src/StorageNode/LocalDisk/Threads/Counted.antt =====
-- local_disk_chunk_store.cpp: `chunk_count_` and `bytes_used_` under all interleavings of the
-- threads' steps.
use microsoft.Base.{ℕ, suc, ◌+◌, ◌%◌, ◌≤◌, ◌<◌, ◌≡◌, refl, Option, none, Bytes, arith}
use microsoft.StorageNode.Files.Update.{IsUnique}
use microsoft.StorageNode.LocalDisk.{Store, u64}
use microsoft.StorageNode.LocalDisk.Counters.{IsCounted, chunks_in, bytes_in}
use microsoft.StorageNode.LocalDisk.Threads.Sums.{sum, sum-set, sum-idle, sum_all_idle}
use microsoft.StorageNode.LocalDisk.Threads.Pending.{
  chunks_to_add, chunks_to_take, bytes_to_add, bytes_to_take, IsBalanced,
}
use microsoft.StorageNode.LocalDisk.Threads.Balanced.{next_of-IsBalanced, call-IsBalanced}
use microsoft.StorageNode.LocalDisk.Threads.Exclusive.{IsOwned, Reaches-IsOwned}
use microsoft.StorageNode.LocalDisk.Threads.Settled.{IsSettled, IsSteadyStep, Step-IsSettled}
use microsoft.StorageNode.LocalDisk.Threads.Interleaved.{
  IsWhole, Reaches-IsWhole, idle-IsWhole, idle-IsOwned,
}
use microsoft.StorageNode.LocalDisk.Threads.{
  Phase, idle, System, set, Step, locks, moves, unlocks, Reaches, begins, goes_on,
}

-- The counters agree with the files up to what the threads below a number have pending.
pub record IsPending (s : System) (n : ℕ) : Type 0 where
  pub quiet : (t : ℕ) → n ≤ t → s.phase t ≡ idle
  pub count :
      (s.store.chunk_count + sum chunks_to_add s.phase n) % u64
      ≡ (chunks_in s.store.disk + sum chunks_to_take s.phase n) % u64
  pub bytes :
      (s.store.bytes_used + sum bytes_to_add s.phase n) % u64
      ≡ (bytes_in s.store.disk + sum bytes_to_take s.phase n) % u64
  pub unique : IsUnique s.store.disk
  pub bounded : s.store.chunk_count < u64 × s.store.bytes_used < u64

extended-IsPending : (s : System) (n k : ℕ) → IsPending s n → IsPending s (n + k)
extended-IsPending s n k v = record {
  quiet = λ t above. v.quiet t (omega (arith, above));
  count =
      rw
        (
          sum-idle chunks_to_add s.phase n k refl v.quiet,
          sum-idle chunks_to_take s.phase n k refl v.quiet,
        )
        v.count;
  bytes =
      rw
        (
          sum-idle bytes_to_add s.phase n k refl v.quiet,
          sum-idle bytes_to_take s.phase n k refl v.quiet,
        )
        v.bytes;
  unique = v.unique;
  bounded = v.bounded;
}

-- A balanced change of one thread.
changed-IsPending :
    (s : System) (n t : ℕ) (owner : ℕ → Option ℕ) (p : Phase) (st : Store)
    → t < n
    → IsBalanced (s.phase t) s.store p st
    → IsPending s n
    → IsPending (record { store = st; owner = owner; phase = set s.phase t p }) n
changed-IsPending s n t owner p st below b v = record {
  quiet = λ u above. ground (arith, below, above, v.quiet u above);
  count = omega (
    arith,
    v.count,
    b.count,
    sum-set chunks_to_add s.phase t n p below,
    sum-set chunks_to_take s.phase t n p below,
  );
  bytes = omega (
    arith,
    v.bytes,
    b.bytes,
    sum-set bytes_to_add s.phase t n p below,
    sum-set bytes_to_take s.phase t n p below,
  );
  unique = b.unique;
  bounded = b.bounded v.bounded;
}

module _ (hash_bytes : Bytes → Bytes) where
  Step-IsPending :
      (s s' : System) (n : ℕ)
      → Step hash_bytes s s'
      → IsWhole hash_bytes s
      → IsSettled s
      → IsPending s n
      → (m : ℕ) × IsPending s' m
  Step-IsPending s _ n (locks t stripe call out c here free) w settled v = (
    n + suc t,
    changed-IsPending s (n + suc t) t _ call s.store (omega arith)
        (rw out (call-IsBalanced hash_bytes call s.store c v.unique))
        (extended-IsPending s n (suc t) v),
  )
  Step-IsPending s _ n (moves t fresh same) w settled v = (
    n + suc t,
    changed-IsPending s (n + suc t) t s.owner _ _ (omega arith)
        (next_of-IsBalanced hash_bytes (s.phase t) s.store (w.ready t) (settled.absent t) v.unique)
        (extended-IsPending s n (suc t) v),
  )
  Step-IsPending s _ n (unlocks t stripe fresh here ends) w settled v = (
    n + suc t,
    changed-IsPending s (n + suc t) t (set s.owner stripe none) idle _ (omega arith)
        (rw ends at (
          next_of-IsBalanced hash_bytes (s.phase t) s.store (w.ready t) (settled.absent t)
            v.unique))
        (extended-IsPending s n (suc t) v),
  )

  -- The calls that come to their lock, in all these steps, can read the state of their file.
  abbrev pub AreSteady : {start s : System} → Reaches hash_bytes start s → Type 0
  AreSteady begins = Unit
  AreSteady (goes_on r step) = AreSteady r × IsSteadyStep hash_bytes step

  reached :
      (start s : System) (r : Reaches hash_bytes start s)
      → AreSteady r
      → IsWhole hash_bytes start
      → IsOwned start
      → IsSettled start
      → IsPending start 0
      → IsSettled s × ((n : ℕ) × IsPending s n)
  reached start _ begins steady w owned settled v = (settled, (0, v))
  reached start s (goes_on {s = before} r step) (steady, last) w owned settled v =
      let (settled', (n, v')) = reached start before r steady w owned settled v in
      let w' = Reaches-IsWhole hash_bytes start before r w in
      let owned' = Reaches-IsOwned hash_bytes start before r owned in
      (
        Step-IsSettled hash_bytes before s step last w' owned' settled',
        Step-IsPending before s n step w' settled' v',
      )

  idle-IsSettled : (s : System) → ((t : ℕ) → s.phase t ≡ idle) → IsSettled s
  idle-IsSettled s out = record { steady = λ t. rw (out t) tt; absent = λ t. rw (out t) tt }

  counted-IsPending :
      (s : System) → ((t : ℕ) → s.phase t ≡ idle) → IsCounted s.store → IsPending s 0
  unfolding sum
  counted-IsPending s out c = record {
    quiet = λ t above. out t;
    count = omega (arith, c.count);
    bytes = omega (arith, c.bytes);
    unique = c.unique;
    bounded = (omega (arith, c.count), omega (arith, c.bytes));
  }

  -- Where all threads are out of the store, nothing is pending.
  pending-IsCounted :
      (s : System) (n : ℕ) → ((t : ℕ) → s.phase t ≡ idle) → IsPending s n → IsCounted s.store
  unfolding sum
  pending-IsCounted s n out v = record {
    unique = v.unique;
    count = omega (
      arith,
      v.count,
      v.bounded.0,
      sum_all_idle chunks_to_add s.phase n refl out,
      sum_all_idle chunks_to_take s.phase n refl out,
    );
    bytes = omega (
      arith,
      v.bytes,
      v.bounded.1,
      sum_all_idle bytes_to_add s.phase n refl out,
      sum_all_idle bytes_to_take s.phase n refl out,
    );
  }

  -- Any number of threads put, read and delete, their steps in any order, on a store whose counters
  -- agree with its files and that none is using at first, and each `Put` can read the state of its
  -- file when it has its lock. Then at every moment `chunk_count_`, with the `Put`s that have renamed
  -- their file and not yet counted it, is the number of chunk files with the `Delete`s that have
  -- removed theirs and not yet counted that, modulo 2 ^ 64; likewise `bytes_used_` and the bytes.
  pub Reaches-IsPending :
      (start s : System) (r : Reaches hash_bytes start s)
      → AreSteady r
      → ((t : ℕ) → start.phase t ≡ idle)
      → IsCounted start.store
      → (n : ℕ) × IsPending s n
  Reaches-IsPending start s r steady out counted =
      (reached start s r steady (idle-IsWhole hash_bytes start out)
        (idle-IsOwned hash_bytes start out) (idle-IsSettled start out)
        (counted-IsPending start out counted)).1

  -- Any number of threads put, read and delete, their steps in any order, on a store whose counters
  -- agree with its files and that none is using at first, and each `Put` can read the state of its
  -- file when it has its lock. Then no update of a counter is lost: whenever all threads are out of
  -- the store again, the counters are those of the files, modulo 2 ^ 64.
  pub Reaches-IsCounted :
      (start s : System) (r : Reaches hash_bytes start s)
      → AreSteady r
      → ((t : ℕ) → start.phase t ≡ idle)
      → IsCounted start.store
      → ((t : ℕ) → s.phase t ≡ idle)
      → IsCounted s.store
  Reaches-IsCounted start s r steady out counted out' =
      let (n, v) = Reaches-IsPending start s r steady out counted in pending-IsCounted s n out' v
