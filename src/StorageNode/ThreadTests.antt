-- ===== src/StorageNode/ThreadTests.antt =====
-- The theorems about several threads, for one that has come to the `write` of its `Put`.
use microsoft.Base.{ℕ, ◌≡◌, refl, none, some, [], ◌∷◌, arith}
use microsoft.Base.Int.{pos}
use microsoft.StorageNode.LocalDisk.Descriptors.{put_calls, get_calls}
use microsoft.StorageNode.LocalDisk.Descriptors.Balanced.{open_after, calls-open_after}
use microsoft.StorageNode.ChunkStore.{returns, StoreResult}
use microsoft.StorageNode.Files.{lookup, rename, insert, erase}
use microsoft.StorageNode.Files.Update.{total}
use microsoft.StorageNode.LocalDisk.Counters.{IsCounted}
use microsoft.StorageNode.LocalDisk.Threads.Counted.{
  IsPending, Reaches-IsPending, Reaches-IsCounted,
}
use microsoft.StorageNode.LocalDisk.{Store, tmp_path_for, lock_for, grants, put, remove_chunk}
use microsoft.StorageNode.LocalDisk.Reading.{IsIntact}
use microsoft.StorageNode.LocalDisk.Threads.{
  Phase, idle, checking, removing, next_of, stripe_of, System, set, Reaches, begins, goes_on, locks,
  moves, unlocks,
}
use microsoft.StorageNode.LocalDisk.Threads.Interleaved.{Reaches-IsIntact}
use microsoft.StorageNode.LocalDisk.Threads.Alone.{alone, alone_lem}
use microsoft.StorageNode.Sample.{
  content, toy_hash, sample_id, sample_id-IsChunkId, sample_uuid-IsUuid, healthy, empty_store,
  empty_store-IsIntact,
}

abbrev start : System
start = record { store = empty_store; owner = λ _. none; phase = λ _. idle }

abbrev locked : System
locked = record {
  store = empty_store;
  owner = set (λ _. none) (lock_for sample_id) (some 1);
  phase = set (λ _. idle) 1 (checking (healthy 2) sample_id content);
}

abbrev opened : System
opened = record {
  store = (next_of (checking (healthy 2) sample_id content) empty_store).1;
  owner = locked.owner;
  phase = set locked.phase 1 (next_of (checking (healthy 2) sample_id content) empty_store).0;
}

has_locked : Reaches toy_hash start locked
has_locked = goes_on begins (
    locks 1 (lock_for sample_id) (checking (healthy 2) sample_id content) refl
      (sample_id-IsChunkId, sample_uuid-IsUuid, refl) refl refl)

fresh : lookup (tmp_path_for sample_id (healthy 2).uuid) [] ≡ none
unfolding lookup
fresh = refl

same_stripe :
    stripe_of (next_of (checking (healthy 2) sample_id content) empty_store).0
    ≡ some (lock_for sample_id)
unfolding next_of lookup
same_stripe = refl

has_opened : Reaches toy_hash start opened
has_opened = goes_on has_locked (moves 1 fresh same_stripe)

Reaches-IsIntact_example :
    IsIntact toy_hash opened.store
    × ((t u stripe : ℕ)
        → stripe_of (opened.phase t) ≡ some stripe
        → stripe_of (opened.phase u) ≡ some stripe
        → t ≡ u)
Reaches-IsIntact_example =
    Reaches-IsIntact toy_hash start opened (λ _. refl) empty_store-IsIntact has_opened

alone_lem_example :
    ((r : StoreResult (Unit {0})) × (st' : Store) × (put grants toy_hash
          (healthy 2)
          sample_id
          content
          empty_store
        ≡ returns r st')
      × (alone 5 (checking (healthy 2) sample_id content, empty_store) ≡ (idle, st')))
    × (alone 3 (removing (healthy 2) sample_id, empty_store)
        ≡ (idle, (remove_chunk (healthy 2) sample_id empty_store).1))
    × ((p : Phase) (a b c d e' : Store)
        → (next_of (next_of (next_of (next_of (next_of p a).0 b).0 c).0 d).0 e').0 ≡ idle)
alone_lem_example = alone_lem toy_hash (healthy 2) sample_id content empty_store refl

abbrev phase_after : System → Phase
phase_after s = (next_of (s.phase 1) s.store).0

-- The next step of thread 1.
abbrev moved : System → System
moved s = record s {
  store = (next_of (s.phase 1) s.store).1;
  phase = set s.phase 1 (phase_after s);
}

-- After the whole `Put` of thread 1.
abbrev ended : System
ended = record {
  store = (next_of ((moved (moved (moved opened))).phase 1) (moved (moved (moved opened))).store).1;
  owner = set opened.owner (lock_for sample_id) none;
  phase = set (moved (moved (moved opened))).phase 1 idle;
}

has_ended : Reaches toy_hash start ended
unfolding next_of lookup rename insert erase
has_ended =
    goes_on
      (goes_on (goes_on (goes_on has_opened (moves 1 tt refl)) (moves 1 tt refl)) (moves 1 tt refl))
      (unlocks 1 (lock_for sample_id) tt refl refl)

empty_store-IsCounted : IsCounted empty_store
unfolding total
empty_store-IsCounted = record { unique = tt; count = refl; bytes = refl }

Reaches-IsPending_example : (n : ℕ) × IsPending opened n
unfolding has_opened has_locked
Reaches-IsPending_example =
    Reaches-IsPending toy_hash start opened has_opened ((tt, refl), tt) (λ _. refl)
      empty_store-IsCounted

Reaches-IsCounted_example : IsCounted ended.store
unfolding has_ended has_opened has_locked
Reaches-IsCounted_example =
    Reaches-IsCounted toy_hash start ended has_ended ((((((tt, refl), tt), tt), tt), tt), tt)
      (λ _. refl) empty_store-IsCounted (λ t. ground arith)

-- The directory gets the descriptor that the file had.
calls-open_after_example :
    (open_after
        (put_calls (healthy 2) sample_id content (pos 3) (pos 3))
        (pos 0 ∷ pos 1 ∷ pos 2 ∷ [])
      ≡ some (pos 0 ∷ pos 1 ∷ pos 2 ∷ []))
    × (open_after (get_calls (healthy 2) sample_id content (pos 3)) (pos 0 ∷ pos 1 ∷ pos 2 ∷ [])
        ≡ some (pos 0 ∷ pos 1 ∷ pos 2 ∷ []))
calls-open_after_example =
    calls-open_after (healthy 2) sample_id (pos 0 ∷ pos 1 ∷ pos 2 ∷ []) content (pos 3) (pos 3) refl
      refl
