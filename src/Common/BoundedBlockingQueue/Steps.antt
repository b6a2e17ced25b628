-- ===== src/Common/BoundedBlockingQueue/Steps.antt =====
-- bounded_blocking_queue.h: what holds after every step of any number of threads.
use mathlib.Core.List.{append-nil, append_assoc}
use microsoft.Base.{
  List-cases, ℕ, zero, suc, ◌+◌, ◌≤◌, ◌<◌, ◌≡◌, refl, sym, ap, ◌∙◌, true, false, some, List, [],
  ◌∷◌, ◌++◌, length, length-append, ◌==◌, arith, inl, inr,
}
use microsoft.Common.BoundedBlockingQueue.{
  BoundedBlockingQueue, create, can_push, can_pop, notify_not_empty, notify_not_full, finish_push,
  finish_pop, shut, added, taken, Step, push_enters, push_sleeps, push_wakes, push_resumes,
  push_sleeps_again, push_times_out, pop_enters, pop_sleeps, pop_wakes, pop_resumes,
  pop_sleeps_again, pop_times_out, shuts_down, Reaches, begins, goes_on,
}

some-injective : {A : Type 0} {a b : A} → some a ≡ some b → a ≡ b
some-injective e = cc

module _ {T : Type 0} where
  -- Bounded; no sleeper after a shutdown; and no wake-up is lost: while a thread sleeps for an
  -- item, there are as many woken threads as items, and while a thread sleeps for room, there are
  -- as many woken threads as free places.
  pub record IsSound (q : BoundedBlockingQueue T) : Type 0 where
    pub bounded : length q.items ≤ q.capacity
    pub awake : q.shutdown ≡ true → (q.not_full_sleepers ≡ 0) × (q.not_empty_sleepers ≡ 0)
    pub items_met : 0 < q.not_empty_sleepers → length q.items ≤ q.not_empty_woken
    pub places_met : 0 < q.not_full_sleepers → q.capacity ≤ length q.items + q.not_full_woken

  length-snoc : (xs : List T) (x : T) → length (xs ++ x ∷ []) ≡ length xs + 1
  length-snoc xs x = length-append xs (x ∷ [])

  push-IsSound :
      (item : T) (q : BoundedBlockingQueue T) (woken : ℕ)
      → q.not_full_woken ≤ woken + 1
      → woken ≤ q.not_full_woken
      → IsSound q
      → can_push q ≡ true
      → IsSound (finish_push item (record q { not_full_woken = woken })).1
  unfolding finish_push notify_not_empty
  push-IsSound item q woken a b v e = record {
    bounded = ground (arith, length-snoc q.items item, v.bounded, e);
    awake = λ down. ground (arith, down, v.awake);
    items_met = ground (arith, length-snoc q.items item, v.items_met, v.awake);
    places_met = ground (arith, length-snoc q.items item, v.places_met, v.awake, a, b);
  }

  pop-IsSound :
      (q : BoundedBlockingQueue T) (woken : ℕ)
      → q.not_empty_woken ≤ woken + 1
      → woken ≤ q.not_empty_woken
      → IsSound q
      → can_pop q ≡ true
      → IsSound (finish_pop (record q { not_empty_woken = woken })).1
  unfolding finish_pop notify_not_full
  pop-IsSound q woken a b v e = elim (List-cases q.items) [
    | inl empty ↦ rw empty (record {
      bounded = ground (arith, empty, v.bounded);
      awake = v.awake;
      items_met = ground (arith, empty);
      places_met = λ h. ground (arith, empty, v.places_met);
    })
    | inr (x, xs, full) ↦ rw full (record {
      bounded = ground (arith, full, v.bounded);
      awake = λ down. ground (arith, down, v.awake);
      items_met = ground (arith, full, v.items_met, v.awake, a, b);
      places_met = ground (arith, full, v.places_met, v.awake);
    })
  ]

  -- A thread that sleeps for an item, or gives up, has found none.
  unmet :
      (q : BoundedBlockingQueue T) (woken sleepers : ℕ)
      → can_pop q ≡ false
      → IsSound q
      → IsSound (record q { not_empty_woken = woken; not_empty_sleepers = sleepers })
  unmet q woken sleepers e v = elim (List-cases q.items) [
    | inl empty ↦ record {
      bounded = v.bounded;
      awake = λ down. ground (arith, e, empty, down);
      items_met = λ some_sleep. rw empty (omega arith);
      places_met = v.places_met;
    }
    | inr (x, xs, full) ↦ absurd (ground (arith, e, full))
  ]

  shut-IsSound : (q : BoundedBlockingQueue T) → IsSound q → IsSound (shut q)
  unfolding shut
  shut-IsSound q v = record {
    bounded = v.bounded;
    awake = λ down. (refl, refl);
    items_met = λ h. absurd (omega arith);
    places_met = λ h. absurd (omega arith);
  }

  pub Step-IsSound :
      (q q' : BoundedBlockingQueue T) (ins outs : List T)
      → Step q ins outs q'
      → IsSound q
      → IsSound q'
  Step-IsSound q q' ins outs (push_enters item _ e) v =
      push-IsSound item q q.not_full_woken (omega arith) (omega arith) v e
  Step-IsSound q q' ins outs (push_sleeps _ e) v = record {
    bounded = v.bounded;
    awake = λ down. ground (arith, down, e);
    items_met = v.items_met;
    places_met = λ some_sleep. ground (arith, e);
  }
  Step-IsSound q q' ins outs (push_wakes _ n e) v = record {
    bounded = v.bounded;
    awake = λ down. ground (arith, v.awake down, e);
    items_met = v.items_met;
    places_met = λ some_sleep. ground (arith, v.places_met, e);
  }
  Step-IsSound q q' ins outs (push_resumes item _ n woken e) v =
      push-IsSound item q n (omega (arith, woken)) (omega (arith, woken)) v e
  Step-IsSound q q' ins outs (push_sleeps_again _ n woken e) v = record {
    bounded = v.bounded;
    awake = λ down. ground (arith, down, e);
    items_met = v.items_met;
    places_met = λ some_sleep. ground (arith, e);
  }
  Step-IsSound q q' ins outs (push_times_out _ n woken e) v = record {
    bounded = v.bounded;
    awake = v.awake;
    items_met = v.items_met;
    places_met = λ some_sleep. ground (arith, e);
  }
  Step-IsSound q q' ins outs (pop_enters _ e) v =
      pop-IsSound q q.not_empty_woken (omega arith) (omega arith) v e
  Step-IsSound q q' ins outs (pop_sleeps _ e) v =
      unmet q q.not_empty_woken (q.not_empty_sleepers + 1) e v
  Step-IsSound q q' ins outs (pop_wakes _ n e) v = record {
    bounded = v.bounded;
    awake = λ down. ground (arith, v.awake down, e);
    items_met = λ some_sleep. ground (arith, v.items_met, e);
    places_met = v.places_met;
  }
  Step-IsSound q q' ins outs (pop_resumes _ n woken e) v =
      pop-IsSound q n (omega (arith, woken)) (omega (arith, woken)) v e
  Step-IsSound q q' ins outs (pop_sleeps_again _ n woken e) v =
      unmet q n (q.not_empty_sleepers + 1) e v
  Step-IsSound q q' ins outs (pop_times_out _ n woken e) v = unmet q n q.not_empty_sleepers e v
  Step-IsSound q q' ins outs (shuts_down _) v = shut-IsSound q v

  pub create-IsSound :
      (capacity : ℕ) (q : BoundedBlockingQueue T)
      → create capacity ≡ some q
      → IsSound q × (q.items ≡ [])
  unfolding create
  create-IsSound zero q e = cc
  create-IsSound (suc capacity) q e =
      let nonzero : (suc capacity == 0) ≡ false = ground arith in
      let same = some-injective (rw nonzero at e) in
      rw (← same) (
        record {
          bounded = omega arith;
          awake = λ down. (refl, refl);
          items_met = λ h. omega arith;
          places_met = λ h. absurd (omega arith);
        },
        refl,
      )

  -- From a new queue, whatever steps any number of threads take in any order: the queue never holds
  -- more items than its capacity, no thread is left asleep by a shutdown, and no wake-up is lost,
  -- as `IsSound` says.
  pub Reaches-IsSound :
      (capacity : ℕ) (start q : BoundedBlockingQueue T) (ins outs : List T)
      → create capacity ≡ some start
      → Reaches start ins outs q
      → IsSound q
  Reaches-IsSound capacity start q ins outs created begins =
      (create-IsSound capacity start created).0
  Reaches-IsSound capacity start q ins outs created
        (goes_on {ins = i} {outs = o} {more_ins = i'} {more_outs = o'} {q = p} r s) =
      Step-IsSound p q i' o' s (Reaches-IsSound capacity start p i o created r)

  finish_push-order :
      (item : T) (q : BoundedBlockingQueue T) (woken : ℕ)
      → (finish_push item (record q { not_full_woken = woken })).1.items ≡ q.items ++ added item q
  unfolding finish_push notify_not_empty
  finish_push-order item q woken = ground (arith, append-nil q.items)

  finish_pop-order :
      (q : BoundedBlockingQueue T) (woken : ℕ)
      → let (item, q') = finish_pop (record q { not_empty_woken = woken }) in
        taken item ++ q'.items ≡ q.items
  unfolding finish_pop notify_not_full
  finish_pop-order q woken = elim (List-cases q.items) [
    | inl empty ↦ rw empty refl
    | inr (x, xs, full) ↦ rw full (ground arith)
  ]

  Step-order :
      (q q' : BoundedBlockingQueue T) (ins outs : List T)
      → Step q ins outs q'
      → outs ++ q'.items ≡ q.items ++ ins
  unfolding shut
  Step-order q q' ins outs (push_enters item _ e) = finish_push-order item q q.not_full_woken
  Step-order q q' ins outs (push_sleeps _ e) = sym (append-nil q.items)
  Step-order q q' ins outs (push_wakes _ n e) = sym (append-nil q.items)
  Step-order q q' ins outs (push_resumes item _ n woken e) = finish_push-order item q n
  Step-order q q' ins outs (push_sleeps_again _ n woken e) = sym (append-nil q.items)
  Step-order q q' ins outs (push_times_out _ n woken e) = sym (append-nil q.items)
  Step-order q q' ins outs (pop_enters _ e) =
      finish_pop-order q q.not_empty_woken ∙ sym (append-nil q.items)
  Step-order q q' ins outs (pop_sleeps _ e) = sym (append-nil q.items)
  Step-order q q' ins outs (pop_wakes _ n e) = sym (append-nil q.items)
  Step-order q q' ins outs (pop_resumes _ n woken e) =
      finish_pop-order q n ∙ sym (append-nil q.items)
  Step-order q q' ins outs (pop_sleeps_again _ n woken e) = sym (append-nil q.items)
  Step-order q q' ins outs (pop_times_out _ n woken e) = sym (append-nil q.items)
  Step-order q q' ins outs (shuts_down _) = sym (append-nil q.items)

  -- First in, first out, for any number of threads: from a new queue, in whatever order the threads
  -- take their steps, the items taken so far and then the items in the queue are the items added.
  pub Reaches-order :
      (capacity : ℕ) (start q : BoundedBlockingQueue T) (ins outs : List T)
      → create capacity ≡ some start
      → Reaches start ins outs q
      → outs ++ q.items ≡ ins
  Reaches-order capacity start q ins outs created begins = (create-IsSound capacity start created).1
  Reaches-order capacity start q ins outs created
        (goes_on {ins = i} {outs = o} {more_ins = i'} {more_outs = o'} {q = p} r s) =
      append_assoc o o' q.items
      ∙ ap (λ x. o ++ x) (Step-order p q i' o' s)
      ∙ sym (append_assoc o p.items i')
      ∙ ap (λ x. x ++ i') (Reaches-order capacity start p i o created r)
