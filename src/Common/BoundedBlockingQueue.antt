-- ===== src/Common/BoundedBlockingQueue.antt =====
-- bounded_blocking_queue.h: a queue of bounded size for several threads. A thread holds the mutex
-- from the entry of a method to a wait, and from the end of a wait to the return, so each of these
-- is one step. Of the threads in a wait the state has the numbers: those that sleep on a condition
-- variable, and those that were woken and have yet to take the mutex again.
pub mod Steps
pub mod Shutdown
pub mod Progress
use microsoft.Base.{
  ℕ, zero, suc, ◌+◌, ◌≡◌, Bool, true, false, ◌||◌, Option, none, some, List, [], ◌∷◌, ◌++◌, length,
  ltb, ◌==◌, is_empty, if◌then◌else◌,
}
use microsoft.Common.Result.{Result, ok, err}

pub data QueueError : Type 0 where
  shut_down timeout : QueueError

pub record BoundedBlockingQueue (T : Type 0) : Type 0 where
  pub items : List T
  pub capacity : ℕ
  pub shutdown : Bool
  -- Asleep on `not_full_` and `not_empty_`.
  pub not_full_sleepers : ℕ
  pub not_empty_sleepers : ℕ
  -- Woken from them.
  pub not_full_woken : ℕ
  pub not_empty_woken : ℕ

module _ {T : Type 0} where
  -- `none` is the exception for a capacity of zero.
  unfoldable pub create : ℕ → Option (BoundedBlockingQueue T)
  create capacity =
      if capacity == 0
      then none
      else some (record {
        items = [];
        capacity = capacity;
        shutdown = false;
        not_full_sleepers = 0;
        not_empty_sleepers = 0;
        not_full_woken = 0;
        not_empty_woken = 0;
      })

  -- The predicates of the two waits.
  abbrev pub can_push : BoundedBlockingQueue T → Bool
  can_push q = q.shutdown || ltb (length q.items) q.capacity

  abbrev pub can_pop : BoundedBlockingQueue T → Bool
  can_pop q = elim (is_empty q.items) [ true ↦ q.shutdown | false ↦ true ]

  -- `notify_one`: one of the sleepers is woken, if there is one.
  unfoldable pub notify_not_empty : BoundedBlockingQueue T → BoundedBlockingQueue T
  notify_not_empty q = elim q.not_empty_sleepers [
    | zero ↦ q
    | suc n ↦ record q { not_empty_sleepers = n; not_empty_woken = q.not_empty_woken + 1 }
  ]

  unfoldable pub notify_not_full : BoundedBlockingQueue T → BoundedBlockingQueue T
  notify_not_full q = elim q.not_full_sleepers [
    | zero ↦ q
    | suc n ↦ record q { not_full_sleepers = n; not_full_woken = q.not_full_woken + 1 }
  ]

  -- `Push` and `TryPush` once the predicate holds.
  unfoldable pub finish_push :
      T → BoundedBlockingQueue T → Result (Unit {0}) QueueError × BoundedBlockingQueue T
  unfolding notify_not_empty
  finish_push item q =
      if q.shutdown
      then (err shut_down, q)
      else (ok tt, notify_not_empty (record q { items = q.items ++ item ∷ [] }))

  -- `Pop` and `TryPop` once the predicate holds.
  unfoldable pub finish_pop : BoundedBlockingQueue T → Option T × BoundedBlockingQueue T
  unfolding notify_not_full
  finish_pop q = elim q.items [
    | [] ↦ (none, q)
    | item ∷ items ↦ (some item, notify_not_full (record q { items = items }))
  ]

  -- `Shutdown`
  unfoldable pub shut : BoundedBlockingQueue T → BoundedBlockingQueue T
  shut q = record q {
    shutdown = true;
    not_full_sleepers = 0;
    not_full_woken = q.not_full_woken + q.not_full_sleepers;
    not_empty_sleepers = 0;
    not_empty_woken = q.not_empty_woken + q.not_empty_sleepers;
  }

  -- `SizeApprox`
  unfoldable pub size_approx : BoundedBlockingQueue T → ℕ
  size_approx q = length q.items

  -- The items that an operation added and took.
  abbrev pub added : T → BoundedBlockingQueue T → List T
  added item q = if q.shutdown then [] else item ∷ []

  abbrev pub taken : Option T → List T
  taken none = []
  taken (some item) = item ∷ []

-- One step of one thread: the queue before, the items that were added and taken, the queue after.
pub data Step {T : Type 0}
    : BoundedBlockingQueue T → List T → List T → BoundedBlockingQueue T → Type 0 where
  push_enters :
      (item : T) (q : BoundedBlockingQueue T)
      → can_push q ≡ true
      → Step q (added item q) [] (finish_push item q).1
  push_sleeps :
      (q : BoundedBlockingQueue T)
      → can_push q ≡ false
      → Step q [] [] (record q { not_full_sleepers = q.not_full_sleepers + 1 })
  -- Without a notification: spuriously, or because the time of `TryPush` is over.
  push_wakes :
      (q : BoundedBlockingQueue T) (n : ℕ)
      → q.not_full_sleepers ≡ suc n
      → Step q [] [] (record q { not_full_sleepers = n; not_full_woken = q.not_full_woken + 1 })
  push_resumes :
      (item : T) (q : BoundedBlockingQueue T) (n : ℕ)
      → q.not_full_woken ≡ suc n
      → can_push q ≡ true
      → Step q (added item q) [] (finish_push item (record q { not_full_woken = n })).1
  push_sleeps_again :
      (q : BoundedBlockingQueue T) (n : ℕ)
      → q.not_full_woken ≡ suc n
      → can_push q ≡ false
      → Step q [] [] (record q { not_full_woken = n; not_full_sleepers = q.not_full_sleepers + 1 })
  push_times_out :
      (q : BoundedBlockingQueue T) (n : ℕ)
      → q.not_full_woken ≡ suc n
      → can_push q ≡ false
      → Step q [] [] (record q { not_full_woken = n })
  pop_enters :
      (q : BoundedBlockingQueue T)
      → can_pop q ≡ true
      → Step q [] (taken (finish_pop q).0) (finish_pop q).1
  pop_sleeps :
      (q : BoundedBlockingQueue T)
      → can_pop q ≡ false
      → Step q [] [] (record q { not_empty_sleepers = q.not_empty_sleepers + 1 })
  pop_wakes :
      (q : BoundedBlockingQueue T) (n : ℕ)
      → q.not_empty_sleepers ≡ suc n
      → Step q [] [] (record q { not_empty_sleepers = n; not_empty_woken = q.not_empty_woken + 1 })
  pop_resumes :
      (q : BoundedBlockingQueue T) (n : ℕ)
      → q.not_empty_woken ≡ suc n
      → can_pop q ≡ true
      → Step q []
          (taken (finish_pop (record q { not_empty_woken = n })).0)
          (finish_pop (record q { not_empty_woken = n })).1
  pop_sleeps_again :
      (q : BoundedBlockingQueue T) (n : ℕ)
      → q.not_empty_woken ≡ suc n
      → can_pop q ≡ false
      → Step q [] []
          (record q { not_empty_woken = n; not_empty_sleepers = q.not_empty_sleepers + 1 })
  pop_times_out :
      (q : BoundedBlockingQueue T) (n : ℕ)
      → q.not_empty_woken ≡ suc n
      → can_pop q ≡ false
      → Step q [] [] (record q { not_empty_woken = n })
  shuts_down : (q : BoundedBlockingQueue T) → Step q [] [] (shut q)

-- What any number of steps from a new queue can reach, with all items added and all items taken.
pub data Reaches {T : Type 0} (start : BoundedBlockingQueue T)
    : List T → List T → BoundedBlockingQueue T → Type 0 where
  begins : Reaches start [] [] start
  goes_on :
      {ins outs more_ins more_outs : List T} {q q' : BoundedBlockingQueue T}
      → Reaches start ins outs q
      → Step q more_ins more_outs q'
      → Reaches start (ins ++ more_ins) (outs ++ more_outs) q'
