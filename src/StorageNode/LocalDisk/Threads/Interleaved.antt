-- ===== src/StorageNode/LocalDisk/Threads/Interleaved.antt =====
-- local_disk_chunk_store.cpp: all interleavings of the threads' steps.
use mathlib.Core.Option.{some-injective}
use microsoft.Base.{
  ℕ, ◌≡◌, refl, sym, ◌∙◌, ◌⊎◌, inl, inr, true, false, ◌||◌, Option, none, some, Bytes, ◌==◌, arith,
  Bool-cases,
}
use microsoft.StorageNode.Files.{FilePath, lookup, is_chunk_file}
use microsoft.StorageNode.LocalDisk.{Store, stat, is_some, tmp_path_for, write_fails}
use microsoft.StorageNode.LocalDisk.Names.{IsChunkId-IsNamed, tmp_path-is_chunk_file}
use microsoft.StorageNode.LocalDisk.Reading.{IsIntact}
use microsoft.StorageNode.LocalDisk.Threads.{
  Phase, idle, checking, writing, closing, counting, sizing, reading, removing, forgetting,
  shrinking, next_of, stripe_of, tmp_of, System, set, IsCall, IsFresh, Step, locks, moves, unlocks,
  Reaches, begins, goes_on,
}
use microsoft.StorageNode.LocalDisk.Threads.Exclusive.{IsOwned, Reaches-IsOwned, exclusive}
use microsoft.StorageNode.LocalDisk.Threads.Others.{other_tmp}
use microsoft.StorageNode.LocalDisk.Threads.Whole.{
  IsReady, removing-cases, next_of-IsReady, next_of-IsIntact,
}

module _ (hash_bytes : Bytes → Bytes) where
  -- What the threads rely on: each has its file, and no two have the same.
  pub record IsWhole (s : System) : Type 0 where
    pub ready : (t : ℕ) → IsReady hash_bytes (s.phase t) s.store
    apart :
        (t u : ℕ) (path : FilePath)
        → tmp_of (s.phase t) ≡ some path
        → tmp_of (s.phase u) ≡ some path
        → t ≡ u

  pub call-IsReady :
      (p : Phase) (st : Store) → IsCall hash_bytes p → IsReady hash_bytes p st × (tmp_of p ≡ none)
  call-IsReady idle st c = elim c [ ]
  call-IsReady (writing _ _ _) st c = elim c [ ]
  call-IsReady (closing _ _ _) st c = elim c [ ]
  call-IsReady (counting _ _ _) st c = elim c [ ]
  call-IsReady (sizing _ _ _) st c = elim c [ ]
  call-IsReady (forgetting _ _) st c = elim c [ ]
  call-IsReady (shrinking _ _) st c = elim c [ ]
  call-IsReady (checking env id content) st c = (c, refl)
  call-IsReady (reading env id) st c = (c, refl)
  call-IsReady (removing env id) st c = (c, refl)

  -- The temporary file of a thread is there, and is no chunk.
  IsReady-tmp_of :
      (p : Phase) (st : Store) (path : FilePath)
      → IsReady hash_bytes p st
      → tmp_of p ≡ some path
      → (is_chunk_file path ≡ false) × ((x : Bytes) × (lookup path st.disk ≡ some x))
  IsReady-tmp_of idle st path r e = absurd (cc)
  IsReady-tmp_of (checking _ _ _) st path r e = absurd (cc)
  IsReady-tmp_of (counting _ _ _) st path r e = absurd (cc)
  IsReady-tmp_of (sizing _ _ _) st path r e = absurd (cc)
  IsReady-tmp_of (reading _ _) st path r e = absurd (cc)
  IsReady-tmp_of (removing _ _) st path r e = absurd (cc)
  IsReady-tmp_of (forgetting _ _) st path r e = absurd (cc)
  IsReady-tmp_of (shrinking _ _) st path r e = absurd (cc)
  IsReady-tmp_of (writing env id content) st path r e =
      let it : tmp_path_for id env.uuid ≡ path = some-injective _ _ e in
      rw (← it) (tmp_path-is_chunk_file id env.uuid (IsChunkId-IsNamed id r.0.0) r.0.1, r.1)
  IsReady-tmp_of (closing env id content) st path r e =
      let it : tmp_path_for id env.uuid ≡ path = some-injective _ _ e in
      rw (← it) (tmp_path-is_chunk_file id env.uuid (IsChunkId-IsNamed id r.0.0) r.0.1, (_, r.1))

  IsReady-frame :
      (p : Phase) (st st' : Store)
      → IsReady hash_bytes p st
      → ((path : FilePath) → tmp_of p ≡ some path → lookup path st'.disk ≡ lookup path st.disk)
      → IsReady hash_bytes p st'
  IsReady-frame idle st st' r same = tt
  IsReady-frame (checking env id content) st st' r same = r
  IsReady-frame (writing env id content) st st' (put, (x, e)) same = (put, (x, same _ refl ∙ e))
  IsReady-frame (closing env id content) st st' (put, e) same = (put, same _ refl ∙ e)
  IsReady-frame (counting env id content) st st' r same = tt
  IsReady-frame (sizing env id content) st st' r same = tt
  IsReady-frame (reading env id) st st' r same = r
  IsReady-frame (removing env id) st st' r same = r
  IsReady-frame (forgetting id n) st st' r same = tt
  IsReady-frame (shrinking id n) st st' r same = tt

  -- A step opens no temporary file but a new one.
  next_of-tmp_of :
      (p : Phase) (st : Store) (path : FilePath)
      → IsFresh hash_bytes p st
      → tmp_of (next_of p st).0 ≡ some path
      → (tmp_of p ≡ some path) ⊎ (lookup path st.disk ≡ none)
  unfolding next_of
  next_of-tmp_of idle st path fresh e = inl e
  next_of-tmp_of (checking env id content) st path fresh e =
      elim (Bool-cases
        (is_some (stat env id st) || (env.create_directories_fails || env.open_fails))) [
          | inl stops ↦ inl (rw stops at e)
          | inr goes ↦
              let opened : some (tmp_path_for id env.uuid) ≡ some path = rw goes at e in
              let it : tmp_path_for id env.uuid ≡ path = some-injective _ _ opened in
              inr (rw (← it) fresh)
        ]
  next_of-tmp_of (writing env id content) st path fresh e = inl e
  next_of-tmp_of (closing env id content) st path fresh e =
      elim (Bool-cases (write_fails env content || (env.fsync_fails || env.rename_fails))) [
        | inl stops ↦ let gone : none ≡ some path = rw stops at e in absurd (cc)
        | inr goes ↦ let gone : none ≡ some path = rw goes at e in absurd (cc)
      ]
  next_of-tmp_of (counting env id content) st path fresh e = inl e
  next_of-tmp_of (sizing env id content) st path fresh e = inl e
  next_of-tmp_of (reading env id) st path fresh e = inl e
  next_of-tmp_of (removing env id) st path fresh e =
      removing-cases
        (λ p _. tmp_of p ≡ some path → (none ≡ some path) ⊎ (lookup path st.disk ≡ none)) env id st
        (λ gone. inl gone) (λ n gone. inl gone) e
  next_of-tmp_of (forgetting id n) st path fresh e = inl e
  next_of-tmp_of (shrinking id n) st path fresh e = inl e

  same_thread : (t u : ℕ) → (t == u) ≡ true → t ≡ u
  same_thread t u e = ground (arith, e)

  advanced-IsWhole :
      (s : System) (t : ℕ) (owner : ℕ → Option ℕ)
      → IsFresh hash_bytes (s.phase t) s.store
      → IsWhole s
      → IsWhole (record {
        store = (next_of (s.phase t) s.store).1;
        owner = owner;
        phase = set s.phase t (next_of (s.phase t) s.store).0;
      })
  advanced-IsWhole s t owner fresh w = record {
    ready = λ u. elim (Bool-cases (u == t)) [
      | inl me ↦ rw me (next_of-IsReady hash_bytes (s.phase t) s.store (w.ready t))
      | inr another ↦ rw another (
          IsReady-frame (s.phase u) s.store _ (w.ready u) (λ path has.
            let (plain, there) = IsReady-tmp_of (s.phase u) s.store path (w.ready u) has in
            other_tmp hash_bytes (s.phase t) s.store path (w.ready t) plain there fresh (λ mine.
              let same = w.apart u t path has mine in absurd (ground (arith, same, another)))))
    ];
    apart = λ u v path a b. elim (Bool-cases (u == t)) [
      | inl me ↦ elim (Bool-cases (v == t)) [
        | inl me' ↦ same_thread u t me ∙ sym (same_thread v t me')
        | inr another ↦ absurd (clash v path another (rw another at b) (rw me at a))
      ]
      | inr another ↦ elim (Bool-cases (v == t)) [
        | inl me' ↦ absurd (clash u path another (rw another at a) (rw me' at b))
        | inr another' ↦ w.apart u v path (rw another at a) (rw another' at b)
      ]
    ];
  }
    where
      clash :
          (u : ℕ) (path : FilePath)
          → (u == t) ≡ false
          → tmp_of (s.phase u) ≡ some path
          → tmp_of (next_of (s.phase t) s.store).0 ≡ some path
          → ⊥
      clash u path another has mine = elim (next_of-tmp_of (s.phase t) s.store path fresh mine) [
        | inl old ↦ let same = w.apart u t path has old in ground (arith, same, another)
        | inr new ↦
            let (x, there) = (IsReady-tmp_of (s.phase u) s.store path (w.ready u) has).1 in
            ground (arith, new, there)
      ]

  pub Step-IsWhole : (s s' : System) → Step hash_bytes s s' → IsWhole s → IsWhole s'
  Step-IsWhole s _ (locks t stripe call out c here free) w =
      let (r, no_tmp) = call-IsReady call s.store c in
      record {
        ready = λ u. elim (Bool-cases (u == t)) [
          | inl me ↦ rw me r
          | inr another ↦ rw another (w.ready u)
        ];
        apart = λ u v path a b. elim (Bool-cases (u == t)) [
          | inl me ↦ let has : none ≡ some path = sym no_tmp ∙ (rw me at a) in absurd (cc)
          | inr another ↦ elim (Bool-cases (v == t)) [
            | inl me ↦ let has : none ≡ some path = sym no_tmp ∙ (rw me at b) in absurd (cc)
            | inr another' ↦ w.apart u v path (rw another at a) (rw another' at b)
          ]
        ];
      }
  Step-IsWhole s _ (moves t fresh same) w = advanced-IsWhole s t s.owner fresh w
  Step-IsWhole s _ (unlocks t stripe fresh here ends) w =
      let advanced = advanced-IsWhole s t (set s.owner stripe none) fresh w in rw ends at advanced

  pub Reaches-IsWhole : (start s : System) → Reaches hash_bytes start s → IsWhole start → IsWhole s
  Reaches-IsWhole start _ begins w = w
  Reaches-IsWhole start s (goes_on {s = before} r step) w =
      Step-IsWhole before s step (Reaches-IsWhole start before r w)

  Step-IsIntact :
      (s s' : System)
      → Step hash_bytes s s'
      → IsWhole s
      → IsIntact hash_bytes s.store
      → IsIntact hash_bytes s'.store
  Step-IsIntact s _ (locks t stripe call out c here free) w intact = intact
  Step-IsIntact s _ (moves t fresh same) w intact =
      next_of-IsIntact hash_bytes (s.phase t) s.store (w.ready t) intact
  Step-IsIntact s _ (unlocks t stripe fresh here ends) w intact =
      next_of-IsIntact hash_bytes (s.phase t) s.store (w.ready t) intact

  kept_whole :
      (start s : System)
      → Reaches hash_bytes start s
      → IsWhole start
      → IsIntact hash_bytes start.store
      → IsIntact hash_bytes s.store
  kept_whole start _ begins w intact = intact
  kept_whole start s (goes_on {s = before} r step) w intact =
      Step-IsIntact before s step (Reaches-IsWhole start before r w)
        (kept_whole start before r w intact)

  pub idle-IsWhole : (s : System) → ((t : ℕ) → s.phase t ≡ idle) → IsWhole s
  idle-IsWhole s out = record {
    ready = λ t. rw (out t) tt;
    apart = λ t u path a b. let has : none ≡ some path = rw (out t) at a in absurd (cc);
  }

  pub idle-IsOwned : (s : System) → ((t : ℕ) → s.phase t ≡ idle) → IsOwned s
  idle-IsOwned s out t stripe e = let has : none ≡ some stripe = rw (out t) at e in absurd (cc)

  -- Any number of threads put, read and delete, their steps in any order. From a store in use by
  -- none, whose chunk files all match their ids, only stores with this property can be reached, so
  -- that no thread ever finds a chunk half written; and no two threads are in the same stripe at a
  -- time.
  pub Reaches-IsIntact :
      (start s : System)
      → ((t : ℕ) → start.phase t ≡ idle)
      → IsIntact hash_bytes start.store
      → Reaches hash_bytes start s
      → IsIntact hash_bytes s.store
        × ((t u stripe : ℕ)
            → stripe_of (s.phase t) ≡ some stripe
            → stripe_of (s.phase u) ≡ some stripe
            → t ≡ u)
  Reaches-IsIntact start s out intact r = (
    kept_whole start s r (idle-IsWhole start out) intact,
    λ t u stripe a b.
        exclusive s t u stripe (Reaches-IsOwned hash_bytes start s r (idle-IsOwned start out)) a b,
  )
