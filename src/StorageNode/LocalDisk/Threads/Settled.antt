-- ===== src/StorageNode/LocalDisk/Threads/Settled.antt =====
-- local_disk_chunk_store.cpp: what every `Put` has between its look at the file and its `rename`,
-- under all interleavings.
use microsoft.Base.{
  ℕ, ◌≡◌, refl, ◌∙◌, inl, inr, ◌||◌, Option, none, some, Bytes, ◌==◌, arith, Bool-cases,
}
use microsoft.StorageNode.ChunkId.{ChunkId}
use microsoft.StorageNode.ChunkId.Parse.{IsChunkId}
use microsoft.StorageNode.LocalDisk.{Store, stat, is_some, lock_for, lookup_file, write_fails}
use microsoft.StorageNode.LocalDisk.Threads.Exclusive.{IsOwned, exclusive}
use microsoft.StorageNode.LocalDisk.Threads.Whole.{IsReady, removing-cases}
use microsoft.StorageNode.LocalDisk.Threads.Final.{
  IsSteady, IsAbsent, other_final, next_of-IsAbsent,
}
use microsoft.StorageNode.LocalDisk.Threads.Interleaved.{IsWhole}
use microsoft.StorageNode.LocalDisk.Threads.{
  Phase, idle, checking, writing, closing, counting, sizing, reading, removing, forgetting,
  shrinking, next_of, stripe_of, System, set, IsCall, Step, locks, moves, unlocks,
}

pub record IsSettled (s : System) : Type 0 where
  pub steady : (t : ℕ) → IsSteady (s.phase t)
  pub absent : (t : ℕ) → IsAbsent (s.phase t) s.store

-- No step leads back to the look at the file.
next_of-IsSteady : (p : Phase) (st : Store) → IsSteady (next_of p st).0
unfolding next_of
next_of-IsSteady idle st = tt
next_of-IsSteady (checking env id content) st =
    elim (Bool-cases
      (is_some (stat env id st) || (env.create_directories_fails || env.open_fails))) [
        | inl stops ↦ rw stops tt
        | inr goes ↦ rw goes tt
      ]
next_of-IsSteady (writing env id content) st = tt
next_of-IsSteady (closing env id content) st =
    elim (Bool-cases (write_fails env content || (env.fsync_fails || env.rename_fails))) [
      | inl stops ↦ rw stops tt
      | inr goes ↦ rw goes tt
    ]
next_of-IsSteady (counting env id content) st = tt
next_of-IsSteady (sizing env id content) st = tt
next_of-IsSteady (reading env id) st = tt
next_of-IsSteady (removing env id) st = removing-cases (λ p st'. IsSteady p) env id st tt (λ n. tt)
next_of-IsSteady (forgetting id n) st = tt
next_of-IsSteady (shrinking id n) st = tt

module _ (hash_bytes : Bytes → Bytes) where
  IsAbsent-frame :
      (p : Phase) (st st' : Store)
      → IsReady hash_bytes p st
      → IsAbsent p st
      → ((id : ChunkId)
          → IsChunkId id
          → stripe_of p ≡ some (lock_for id)
          → lookup_file id st'.disk ≡ lookup_file id st.disk)
      → IsAbsent p st'
  IsAbsent-frame idle st st' r absent same = tt
  IsAbsent-frame (checking env id content) st st' r absent same = tt
  IsAbsent-frame (writing env id content) st st' r absent same = same id r.0.0 refl ∙ absent
  IsAbsent-frame (closing env id content) st st' r absent same = same id r.0.0 refl ∙ absent
  IsAbsent-frame (counting env id content) st st' r absent same = tt
  IsAbsent-frame (sizing env id content) st st' r absent same = tt
  IsAbsent-frame (reading env id) st st' r absent same = tt
  IsAbsent-frame (removing env id) st st' r absent same = tt
  IsAbsent-frame (forgetting id n) st st' r absent same = tt
  IsAbsent-frame (shrinking id n) st st' r absent same = tt

  call-IsAbsent : (p : Phase) (st : Store) → IsCall hash_bytes p → IsAbsent p st
  call-IsAbsent idle st c = tt
  call-IsAbsent (writing _ _ _) st c = elim c [ ]
  call-IsAbsent (closing _ _ _) st c = elim c [ ]
  call-IsAbsent (counting _ _ _) st c = tt
  call-IsAbsent (sizing _ _ _) st c = tt
  call-IsAbsent (forgetting _ _) st c = tt
  call-IsAbsent (shrinking _ _) st c = tt
  call-IsAbsent (checking env id content) st c = tt
  call-IsAbsent (reading env id) st c = tt
  call-IsAbsent (removing env id) st c = tt

  advanced-IsSettled :
      (s : System) (t : ℕ) (owner : ℕ → Option ℕ)
      → IsWhole hash_bytes s
      → IsOwned s
      → IsSettled s
      → IsSettled (record {
        store = (next_of (s.phase t) s.store).1;
        owner = owner;
        phase = set s.phase t (next_of (s.phase t) s.store).0;
      })
  advanced-IsSettled s t owner w owned settled = record {
    steady = λ u. elim (Bool-cases (u == t)) [
      | inl me ↦ rw me (next_of-IsSteady (s.phase t) s.store)
      | inr another ↦ rw another (settled.steady u)
    ];
    absent = λ u. elim (Bool-cases (u == t)) [
      | inl me ↦ rw me (
          next_of-IsAbsent hash_bytes (s.phase t) s.store (w.ready t) (settled.steady t)
            (settled.absent t))
      | inr another ↦ rw another (
          IsAbsent-frame (s.phase u) s.store _ (w.ready u) (settled.absent u) (λ id valid here.
            other_final hash_bytes (s.phase t) s.store id (w.ready t) valid (λ there.
              let same = exclusive s t u (lock_for id) owned there here in
              absurd (ground (arith, same, another)))))
    ];
  }

  -- The calls that come to their lock can read the state of their file.
  abbrev pub IsSteadyStep : {s s' : System} → Step hash_bytes s s' → Type 0
  IsSteadyStep (locks t stripe call out c here free) = IsSteady call
  IsSteadyStep _ = Unit

  pub Step-IsSettled :
      (s s' : System) (step : Step hash_bytes s s')
      → IsSteadyStep step
      → IsWhole hash_bytes s
      → IsOwned s
      → IsSettled s
      → IsSettled s'
  Step-IsSettled s _ (locks t stripe call out c here free) steady w owned settled = record {
    steady = λ u. elim (Bool-cases (u == t)) [
      | inl me ↦ rw me steady
      | inr another ↦ rw another (settled.steady u)
    ];
    absent = λ u. elim (Bool-cases (u == t)) [
      | inl me ↦ rw me (call-IsAbsent call s.store c)
      | inr another ↦ rw another (settled.absent u)
    ];
  }
  Step-IsSettled s _ (moves t fresh same) steady w owned settled =
      advanced-IsSettled s t s.owner w owned settled
  Step-IsSettled s _ (unlocks t stripe fresh here ends) steady w owned settled =
      let advanced = advanced-IsSettled s t (set s.owner stripe none) w owned settled in
      rw ends at advanced
