-- ===== src/StorageNode/LocalDisk/Threads/Balanced.antt =====
-- local_disk_chunk_store.cpp: what each step of a thread does to the counters, to the files and to
-- what is pending.
use microsoft.Base.{
  ◌≡◌, refl, ◌∙◌, ap, inl, inr, ◌||◌, some, Bytes, [], arith, Bool-cases, Option-cases,
}
use microsoft.StorageNode.Files.Update.{IsUnique}
use microsoft.StorageNode.LocalDisk.{Store, stat, is_some, lookup_file, write_fails, written_part}
use microsoft.StorageNode.LocalDisk.Put.{written_part_all}
use microsoft.StorageNode.LocalDisk.Threads.Whole.{IsReady}
use microsoft.StorageNode.LocalDisk.Threads.Final.{IsAbsent}
use microsoft.StorageNode.LocalDisk.Threads.{
  Phase, idle, checking, writing, closing, counting, sizing, reading, removing, forgetting,
  shrinking, next_of, IsCall,
}
use microsoft.StorageNode.LocalDisk.Threads.Pending.{
  IsBalanced, none_pending, kept-IsBalanced, removed-IsBalanced, insert_tmp-IsBalanced,
  erase_tmp-IsBalanced, rename_tmp-IsBalanced,
}

module _ (hash_bytes : Bytes → Bytes) where
  pub next_of-IsBalanced :
      (p : Phase) (st : Store)
      → IsReady hash_bytes p st
      → IsAbsent p st
      → IsUnique st.disk
      → IsBalanced p st (next_of p st).0 (next_of p st).1
  unfolding next_of
  next_of-IsBalanced idle st r absent u =
      kept-IsBalanced idle idle st st.disk none_pending none_pending refl refl u
  next_of-IsBalanced (checking env id content) st r absent u =
      elim (Bool-cases
        (is_some (stat env id st) || (env.create_directories_fails || env.open_fails))) [
          | inl stops ↦ simp stops (
              kept-IsBalanced (checking env id content) idle st st.disk none_pending none_pending
                refl refl u)
          | inr goes ↦ simp goes (
              insert_tmp-IsBalanced hash_bytes env id content st r u (checking env id content)
                (writing env id content) [] none_pending none_pending)
        ]
  next_of-IsBalanced (writing env id content) st r absent u =
      insert_tmp-IsBalanced hash_bytes env id content st r.0 u (writing env id content)
        (closing env id content) (written_part env content) none_pending none_pending
  next_of-IsBalanced (closing env id content) st r absent u =
      elim (Bool-cases (write_fails env content || (env.fsync_fails || env.rename_fails))) [
        | inl stops ↦ simp stops (elim (Bool-cases env.remove_fails) [
          | inl stays ↦ simp stays (
              kept-IsBalanced (closing env id content) idle st st.disk none_pending none_pending
                refl refl u)
          | inr goes ↦ simp goes (
              erase_tmp-IsBalanced hash_bytes env id content st r.0 u (closing env id content) idle
                none_pending none_pending)
        ])
        | inr goes ↦
            let whole : written_part env content ≡ content =
              written_part_all env content (ground (arith, goes)) in
            simp goes (
              rename_tmp-IsBalanced hash_bytes env id content st r.0 u (r.1 ∙ ap some whole) absent)
      ]
  next_of-IsBalanced (counting env id content) st r absent u = record {
    count = omega arith;
    bytes = omega arith;
    unique = u;
    bounded = λ b. (omega arith, omega arith);
  }
  next_of-IsBalanced (sizing env id content) st r absent u = record {
    count = omega arith;
    bytes = omega arith;
    unique = u;
    bounded = λ b. (omega arith, omega arith);
  }
  next_of-IsBalanced (reading env id) st r absent u =
      kept-IsBalanced (reading env id) idle st st.disk none_pending none_pending refl refl u
  next_of-IsBalanced (removing env id) st r absent u =
      elim (Option-cases (lookup_file id st.disk)) [
        | inl missing ↦ ground (
          arith,
          missing,
          kept-IsBalanced (removing env id) idle st st.disk none_pending none_pending refl refl u,
        )
        | inr (c, there) ↦ ground (
          arith,
          there,
          kept-IsBalanced (removing env id) idle st st.disk none_pending none_pending refl refl u,
          removed-IsBalanced env id st c r u there,
        )
      ]
  next_of-IsBalanced (forgetting id n) st r absent u = record {
    count = omega arith;
    bytes = omega arith;
    unique = u;
    bounded = λ b. (omega arith, omega arith);
  }
  next_of-IsBalanced (shrinking id n) st r absent u = record {
    count = omega arith;
    bytes = omega arith;
    unique = u;
    bounded = λ b. (omega arith, omega arith);
  }

  pub call-IsBalanced :
      (p : Phase) (st : Store) → IsCall hash_bytes p → IsUnique st.disk → IsBalanced idle st p st
  call-IsBalanced idle st c u = elim c [ ]
  call-IsBalanced (writing _ _ _) st c u = elim c [ ]
  call-IsBalanced (closing _ _ _) st c u = elim c [ ]
  call-IsBalanced (counting _ _ _) st c u = elim c [ ]
  call-IsBalanced (sizing _ _ _) st c u = elim c [ ]
  call-IsBalanced (forgetting _ _) st c u = elim c [ ]
  call-IsBalanced (shrinking _ _) st c u = elim c [ ]
  call-IsBalanced (checking env id content) st c u =
      kept-IsBalanced idle (checking env id content) st st.disk none_pending none_pending refl refl
        u
  call-IsBalanced (reading env id) st c u =
      kept-IsBalanced idle (reading env id) st st.disk none_pending none_pending refl refl u
  call-IsBalanced (removing env id) st c u =
      kept-IsBalanced idle (removing env id) st st.disk none_pending none_pending refl refl u
