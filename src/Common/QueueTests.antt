-- ===== src/Common/QueueTests.antt =====
-- The theorems about the queue at a concrete run of two threads.
use microsoft.Base.{List, ℕ, ◌<◌, ◌≤◌, length, ◌≡◌, refl, true, false, some, [], ◌∷◌, ◌++◌}
use microsoft.Common.BoundedBlockingQueue.{
  BoundedBlockingQueue, create, finish_push, shut, Step, Reaches, begins, goes_on, push_enters,
  pop_sleeps, shuts_down,
}
use microsoft.Common.BoundedBlockingQueue.Steps.{IsSound, Reaches-IsSound, Reaches-order}
use microsoft.Common.BoundedBlockingQueue.Progress.{
  waiting, Resumes, Reaches-progress, Reaches-shutdown,
}

abbrev fresh : BoundedBlockingQueue ℕ
fresh = record {
  items = [];
  capacity = 1;
  shutdown = false;
  not_full_sleepers = 0;
  not_empty_sleepers = 0;
  not_full_woken = 0;
  not_empty_woken = 0;
}

created : create 1 ≡ some fresh
unfolding create
created = refl

-- One thread sleeps for an item, another pushes 5 and wakes it.
abbrev asleep : BoundedBlockingQueue ℕ
asleep = record fresh { not_empty_sleepers = 1 }

run : Reaches fresh (5 ∷ []) [] (finish_push 5 asleep).1
run = goes_on (goes_on begins (pop_sleeps fresh refl)) (push_enters 5 asleep refl)

Reaches-IsSound_example : IsSound (finish_push 5 asleep).1
Reaches-IsSound_example = Reaches-IsSound 1 fresh (finish_push 5 asleep).1 (5 ∷ []) [] created run

Reaches-order_example : [] ++ (finish_push 5 asleep).1.items ≡ 5 ∷ []
Reaches-order_example = Reaches-order 1 fresh (finish_push 5 asleep).1 (5 ∷ []) [] created run

abbrev loaded : BoundedBlockingQueue ℕ
loaded = record fresh { items = 7 ∷ [] }

Reaches-progress_example :
    ((x : ℕ) (xs : List ℕ)
      → (finish_push 5 asleep).1.items ≡ x ∷ xs
      → 0 < (finish_push 5 asleep).1.not_empty_sleepers
      → (q' : BoundedBlockingQueue ℕ) × Step (finish_push 5 asleep).1 [] (x ∷ []) q'
        × (waiting q' < waiting (finish_push 5 asleep).1))
    × ((item : ℕ)
        → length (finish_push 5 asleep).1.items < (finish_push 5 asleep).1.capacity
        → 0 < (finish_push 5 asleep).1.not_full_sleepers
        → (q' : BoundedBlockingQueue ℕ) × Step (finish_push 5 asleep).1 (item ∷ []) [] q'
          × (waiting q' < waiting (finish_push 5 asleep).1))
Reaches-progress_example = Reaches-progress 1 fresh (finish_push 5 asleep).1 (5 ∷ []) [] created run

-- A thread sleeps for an item, and the queue is shut down.
closing : Reaches fresh [] [] (shut asleep)
closing = goes_on (goes_on begins (pop_sleeps fresh refl)) (shuts_down asleep)

shut_down_now : (shut asleep).shutdown ≡ true
unfolding shut
shut_down_now = refl

Reaches-shutdown_example :
    ((shut asleep).not_full_sleepers ≡ 0)
    × ((shut asleep).not_empty_sleepers ≡ 0)
    × ((q' : BoundedBlockingQueue ℕ) (ins' outs' : List ℕ)
        → Step (shut asleep) ins' outs' q'
        → waiting q' ≤ waiting (shut asleep))
    × ((ins' : List ℕ) × (outs' : List ℕ) × (q' : BoundedBlockingQueue ℕ) × Resumes
          (shut asleep)
          ins'
          outs'
          q'
        × (waiting q' ≡ 0))
Reaches-shutdown_example =
    Reaches-shutdown 1 fresh (shut asleep) [] [] 5 created closing shut_down_now
