-- ===== src/Common/BoundedBlockingQueue/Progress.antt =====
-- bounded_blocking_queue.h: no thread waits in vain.
use microsoft.Base.{
  List-cases, ℕ-cases, ℕ, zero, suc, ◌+◌, ◌≤◌, ◌<◌, ◌≡◌, refl, ◌∙◌, inl, inr, true, some, List, [],
  ◌∷◌, ◌++◌, length, arith,
}
use microsoft.Common.BoundedBlockingQueue.{
  BoundedBlockingQueue, create, can_pop, notify_not_empty, notify_not_full, finish_push, finish_pop,
  shut, added, taken, Step, push_enters, push_sleeps, push_wakes, push_sleeps_again, push_times_out,
  pop_enters, pop_sleeps, pop_wakes, pop_sleeps_again, pop_times_out, shuts_down, push_resumes,
  pop_resumes, Reaches,
}
use microsoft.Common.BoundedBlockingQueue.Steps.{IsSound, Reaches-IsSound, Step-IsSound}

-- A step in which a thread that was notified finds its condition met and leaves the wait: neither a
-- wake-up without a notification nor a time-out.
abbrev pub IsResume :
    {T : Type 0} {q q' : BoundedBlockingQueue T} {ins outs : List T} → Step q ins outs q' → Type 0
IsResume (push_resumes _ _ _ _ _) = Unit
IsResume (pop_resumes _ _ _ _) = Unit
IsResume _ = ⊥

-- A run of such steps only.
pub data Resumes {T : Type 0}
    : BoundedBlockingQueue T → List T → List T → BoundedBlockingQueue T → Type 0 where
  ends : {q : BoundedBlockingQueue T} → Resumes q [] [] q
  first_resumes :
      {q q₁ q₂ : BoundedBlockingQueue T} {ins outs more_ins more_outs : List T}
      → (step : Step q ins outs q₁) → IsResume step
      → Resumes q₁ more_ins more_outs q₂
      → Resumes q (ins ++ more_ins) (outs ++ more_outs) q₂

module _ {T : Type 0} where
  can : (q : BoundedBlockingQueue T) → q.shutdown ≡ true → can_pop q ≡ true
  can q down = elim (List-cases q.items) [
    | inl empty ↦ rw empty down
    | inr (x, xs, full) ↦ rw full refl
  ]

  -- The threads inside a wait.
  abbrev pub waiting : BoundedBlockingQueue T → ℕ
  waiting q = q.not_full_sleepers + q.not_empty_sleepers + q.not_full_woken + q.not_empty_woken

  -- Taking off an item: which it is, and one thread less in the waits.
  module _ (q : BoundedBlockingQueue T) (n : ℕ) where
    pop_taken :
        (x : T) (xs : List T)
        → q.items ≡ x ∷ xs
        → taken (finish_pop (record q { not_empty_woken = n })).0 ≡ x ∷ []
    unfolding finish_pop
    pop_taken x xs e = rw e refl

    pop_waiting :
        q.not_empty_woken ≡ suc n
        → suc (waiting (finish_pop (record q { not_empty_woken = n })).1) ≡ waiting q
    unfolding finish_pop notify_not_full
    pop_waiting woken = elim (List-cases q.items) [
      | inl empty ↦ rw empty (omega (arith, woken))
      | inr (x, xs, full) ↦ rw full (ground (arith, woken))
    ]

    push_waiting :
        (item : T)
        → q.not_full_woken ≡ suc n
        → suc (waiting (finish_push item (record q { not_full_woken = n })).1) ≡ waiting q
    unfolding finish_push notify_not_empty
    push_waiting item woken = ground (arith, woken)

    push_shutdown :
        (item : T) → (finish_push item (record q { not_full_woken = n })).1.shutdown ≡ q.shutdown
    unfolding finish_push notify_not_empty
    push_shutdown item = ground arith

    pop_shutdown : (finish_pop (record q { not_empty_woken = n })).1.shutdown ≡ q.shutdown
    unfolding finish_pop notify_not_full
    pop_shutdown = elim (List-cases q.items) [
      | inl empty ↦ rw empty refl
      | inr (x, xs, full) ↦ rw full (ground arith)
    ]

  pop_steps :
      (q : BoundedBlockingQueue T) (x : T) (xs : List T)
      → IsSound q
      → q.items ≡ x ∷ xs
      → 0 < q.not_empty_sleepers
      → (q' : BoundedBlockingQueue T) × Step q [] (x ∷ []) q' × (waiting q' < waiting q)
  pop_steps q x xs v e asleep = elim (ℕ-cases q.not_empty_woken) [
    | inl none_woken ↦ absurd (ground (arith, v.items_met, e, none_woken))
    | inr (n, woken) ↦
        let step = pop_resumes q n woken (rw e refl) in
        let less = pop_waiting q n woken in
        (_, rw (pop_taken q n x xs e) at step, omega (arith, less))
  ]

  push_steps :
      (item : T) (q : BoundedBlockingQueue T)
      → IsSound q
      → length q.items < q.capacity
      → 0 < q.not_full_sleepers
      → (q' : BoundedBlockingQueue T) × Step q (item ∷ []) [] q' × (waiting q' < waiting q)
  push_steps item q v room asleep = elim (ℕ-cases q.not_full_woken) [
    | inl none_woken ↦ absurd (ground (arith, v.places_met, none_woken))
    | inr (n, woken) ↦
        let open_still : added item q ≡ item ∷ [] = ground (arith, v.awake) in
        let step = push_resumes item q n woken (ground (arith, room)) in
        let less = push_waiting q n item woken in (_, rw open_still at step, omega (arith, less))
  ]

  -- No thread waits in vain: from a new queue, whatever steps the threads have taken, while a thread
  -- sleeps for an item and there is one, some thread that was woken can take the first item at once
  -- and be done, and while a thread sleeps for room and there is room, some woken thread can push.
  pub Reaches-progress :
      (capacity : ℕ) (start q : BoundedBlockingQueue T) (ins outs : List T)
      → create capacity ≡ some start
      → Reaches start ins outs q
      → ((x : T) (xs : List T)
          → q.items ≡ x ∷ xs
          → 0 < q.not_empty_sleepers
          → (q' : BoundedBlockingQueue T) × Step q [] (x ∷ []) q' × (waiting q' < waiting q))
        × ((item : T)
            → length q.items < q.capacity
            → 0 < q.not_full_sleepers
            → (q' : BoundedBlockingQueue T) × Step q (item ∷ []) [] q' × (waiting q' < waiting q))
  Reaches-progress capacity start q ins outs created r =
      let v = Reaches-IsSound capacity start q ins outs created r in
      (
        λ x xs e asleep. pop_steps q x xs v e asleep,
        λ item room asleep. push_steps item q v room asleep,
      )

  -- After a shutdown some thread of those in the waits can always leave.
  leaves :
      (item : T) (q : BoundedBlockingQueue T) (n : ℕ)
      → IsSound q
      → q.shutdown ≡ true
      → waiting q ≡ suc n
      → (ins : List T) × (outs : List T) × (q' : BoundedBlockingQueue T) × (step : Step q ins outs
          q')
        × IsResume step
        × (q'.shutdown ≡ true)
        × (waiting q' ≡ n)
  leaves item q n v down some_wait = elim (ℕ-cases q.not_full_woken) [
    | inr (m, woken) ↦ (
      _,
      _,
      _,
      push_resumes item q m woken (ground (arith, down)),
      tt,
      push_shutdown q m item ∙ down,
      (let less = push_waiting q m item woken in omega (arith, less)),
    )
    | inl no_pusher ↦ elim (ℕ-cases q.not_empty_woken) [
      | inl no_popper ↦ absurd (ground (arith, v.awake down, no_pusher, no_popper, some_wait))
      | inr (m, woken) ↦ (
        _,
        _,
        _,
        pop_resumes q m woken (can q down),
        tt,
        pop_shutdown q m ∙ down,
        (let less = pop_waiting q m woken in omega (arith, less)),
      )
    ]
  ]

  all_leave :
      (item : T) (n : ℕ) (q : BoundedBlockingQueue T)
      → IsSound q
      → q.shutdown ≡ true
      → waiting q ≡ n
      → (ins : List T) × (outs : List T) × (q' : BoundedBlockingQueue T) × Resumes q ins outs q'
        × (waiting q' ≡ 0)
  all_leave item zero q v down e = ([], [], q, ends, e)
  all_leave item (suc n) q v down e =
      let (i, o, q₁, step, resumes, down₁, less) = leaves item q n v down e in
      let (i', o', q₂, rest, done) =
        all_leave item n q₁ (Step-IsSound q q₁ i o step v) down₁ less in
      (i ++ i', o ++ o', q₂, first_resumes step resumes rest, done)

  enter_waiting :
      (item : T) (q : BoundedBlockingQueue T) → waiting (finish_push item q).1 ≡ waiting q
  unfolding finish_push notify_not_empty
  enter_waiting item q = ground arith

  enter_pop_waiting : (q : BoundedBlockingQueue T) → waiting (finish_pop q).1 ≡ waiting q
  unfolding finish_pop notify_not_full
  enter_pop_waiting q = elim (List-cases q.items) [
    | inl empty ↦ rw empty refl
    | inr (x, xs, full) ↦ rw full (ground arith)
  ]

  -- After a shutdown no step makes another thread wait.
  Step-waiting :
      (q q' : BoundedBlockingQueue T) (ins outs : List T)
      → Step q ins outs q'
      → q.shutdown ≡ true
      → waiting q' ≤ waiting q
  unfolding shut
  Step-waiting q q' ins outs (push_enters item _ e) down = omega (arith, enter_waiting item q)
  Step-waiting q q' ins outs (push_sleeps _ e) down = absurd (ground (arith, down, e))
  Step-waiting q q' ins outs (push_wakes _ n e) down = omega (arith, e)
  Step-waiting q q' ins outs (push_resumes item _ n woken e) down =
      omega (arith, push_waiting q n item woken)
  Step-waiting q q' ins outs (push_sleeps_again _ n woken e) down = absurd (ground (arith, down, e))
  Step-waiting q q' ins outs (push_times_out _ n woken e) down = omega (arith, woken)
  Step-waiting q q' ins outs (pop_enters _ e) down = omega (arith, enter_pop_waiting q)
  Step-waiting q q' ins outs (pop_sleeps _ e) down = absurd (ground (arith, can q down, e))
  Step-waiting q q' ins outs (pop_wakes _ n e) down = omega (arith, e)
  Step-waiting q q' ins outs (pop_resumes _ n woken e) down = omega (arith, pop_waiting q n woken)
  Step-waiting q q' ins outs (pop_sleeps_again _ n woken e) down =
      absurd (ground (arith, can q down, e))
  Step-waiting q q' ins outs (pop_times_out _ n woken e) down = omega (arith, woken)
  Step-waiting q q' ins outs (shuts_down _) down = omega arith

  -- Once a queue that any steps have led to is shut down, no thread is asleep any more, no step makes
  -- another thread wait, and all threads that are in a wait can leave it, one after the other, as
  -- threads that the notifications have woken: without another notification, a wake-up that nobody
  -- has caused or a time-out. The item given is that of the pushers.
  pub Reaches-shutdown :
      (capacity : ℕ) (start q : BoundedBlockingQueue T) (ins outs : List T) (item : T)
      → create capacity ≡ some start
      → Reaches start ins outs q
      → q.shutdown ≡ true
      → (q.not_full_sleepers ≡ 0)
        × (q.not_empty_sleepers ≡ 0)
        × ((q' : BoundedBlockingQueue T) (ins' outs' : List T)
            → Step q ins' outs' q'
            → waiting q' ≤ waiting q)
        × ((ins' : List T) × (outs' : List T) × (q' : BoundedBlockingQueue T) × Resumes q ins' outs'
              q'
            × (waiting q' ≡ 0))
  Reaches-shutdown capacity start q ins outs item created r down =
      let v = Reaches-IsSound capacity start q ins outs created r in
      (
        ground (arith, v.awake down),
        ground (arith, v.awake down),
        λ q' ins' outs' step. Step-waiting q q' ins' outs' step down,
        all_leave item (waiting q) q v down refl,
      )
