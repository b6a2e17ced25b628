-- ===== src/Common/BoundedBlockingQueue/Shutdown.antt =====
-- bounded_blocking_queue.h: the queue after `Shutdown`.
use microsoft.Base.{
  ℕ, zero, suc, ◌≡◌, refl, ap, true, none, some, List, [], ◌∷◌, ◌++◌, length, arith,
}
use microsoft.Common.Result.{err}
use microsoft.Common.BoundedBlockingQueue.{
  BoundedBlockingQueue, shut_down, can_push, can_pop, finish_push, finish_pop, notify_not_full,
  shut, taken,
}

module _ {T : Type 0} where
  -- The items that so many calls of `Pop` in a row give.
  unfoldable pub drain : ℕ → BoundedBlockingQueue T → List T × BoundedBlockingQueue T
  drain zero q = ([], q)
  drain (suc n) q =
      let (item, q₁) = finish_pop q in let (items, q₂) = drain n q₁ in (taken item ++ items, q₂)

  -- An entry of the queue taken off.
  finish_pop-cons :
      (q : BoundedBlockingQueue T) (x : T) (xs : List T)
      → q.items ≡ x ∷ xs
      → (finish_pop q).0 ≡ some x
  unfolding finish_pop
  finish_pop-cons q x xs e = rw e refl

  finish_pop-rest :
      (q : BoundedBlockingQueue T) (x : T) (xs : List T)
      → q.items ≡ x ∷ xs
      → ((finish_pop q).1.items ≡ xs) × ((finish_pop q).1.shutdown ≡ q.shutdown)
  unfolding finish_pop notify_not_full
  finish_pop-rest q x xs e = rw e (ground arith, ground arith)

  drain_all :
      (xs : List T) (q : BoundedBlockingQueue T)
      → q.items ≡ xs
      → q.shutdown ≡ true
      → ((drain (length xs) q).0 ≡ xs)
        × ((drain (length xs) q).1.items ≡ [])
        × ((drain (length xs) q).1.shutdown ≡ true)
  unfolding drain
  drain_all [] q e down = (refl, e, down)
  drain_all (x ∷ xs) q e down =
      let (rest, flag) = finish_pop-rest q x xs e in
      let (all, none_left, still) = drain_all xs (finish_pop q).1 rest (cc) in
      (rw (finish_pop-cons q x xs e) (ap (λ ys. x ∷ ys) all), none_left, still)

  can_pop-shutdown :
      (q : BoundedBlockingQueue T) → q.items ≡ [] → q.shutdown ≡ true → can_pop q ≡ true
  can_pop-shutdown q e down = rw e down

  finish_pop-nil : (q : BoundedBlockingQueue T) → q.items ≡ [] → (finish_pop q).0 ≡ none
  unfolding finish_pop
  finish_pop-nil q e = rw e refl

  -- After `Shutdown`, `Push` does not wait, changes nothing and reports the shutdown, whatever is
  -- in the queue; `Pop` gives the items that are left, in order, and then, without waiting,
  -- nothing.
  shut_lem :
      (q : BoundedBlockingQueue T) (item : T)
      → let (items, q') = drain (length q.items) (shut q) in
        (can_push (shut q) ≡ true)
        × (finish_push item (shut q) ≡ (err shut_down, shut q))
        × (items ≡ q.items)
        × (can_pop q' ≡ true)
        × ((finish_pop q').0 ≡ none)
  unfolding shut finish_push
  shut_lem q item =
      let q' = (drain (length q.items) (shut q)).1 in
      let (all, none_left, still) = drain_all q.items (shut q) refl refl in
      (refl, refl, all, can_pop-shutdown q' none_left still, finish_pop-nil q' none_left)
