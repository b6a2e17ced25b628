-- ===== src/StorageNode/LocalDisk/Threads/Exclusive.antt =====
-- local_disk_chunk_store.cpp, the lock stripes: one thread at a time.
use mathlib.Core.Option.{some-injective}
use microsoft.StorageNode.LocalDisk.{Store}
use microsoft.Base.{
  ◌⊎◌, ℕ, ◌≡◌, refl, sym, ◌∙◌, none, some, Bytes, ◌==◌, arith, Bool-cases, inl, inr,
}
use microsoft.StorageNode.LocalDisk.Threads.{
  Phase, idle, checking, writing, closing, counting, sizing, reading, removing, forgetting,
  shrinking, next_of, stripe_of, System, Step, locks, moves, unlocks, Reaches, begins, goes_on,
}

-- A thread inside a stripe is its owner.
abbrev pub IsOwned : System → Type 0
IsOwned s = (t stripe : ℕ) → stripe_of (s.phase t) ≡ some stripe → s.owner stripe ≡ some t

pub Step-IsOwned :
    (hash_bytes : Bytes → Bytes) (s s' : System) → Step hash_bytes s s' → IsOwned s → IsOwned s'
Step-IsOwned hash_bytes s _ (locks t stripe call out c here free) owned u other e =
    elim (Bool-cases (u == t)) [
      | inl me ↦
          let at_mine : some stripe ≡ some other = sym here ∙ (rw me at e) in
          ground (arith, me, at_mine)
      | inr another ↦
          let theirs : s.owner other ≡ some u = owned u other (rw another at e) in
          ground (arith, theirs, free)
    ]
Step-IsOwned hash_bytes s _ (moves t fresh same) owned u other e = elim (Bool-cases (u == t)) [
  | inl me ↦
      let it : t ≡ u = ground (arith, me) in owned u other (rw (← it) (sym same ∙ (rw me at e)))
  | inr another ↦ owned u other (rw another at e)
]
Step-IsOwned hash_bytes s _ (unlocks t stripe fresh here ends) owned u other e =
    elim (Bool-cases (u == t)) [
      | inl me ↦ let gone : none ≡ some other = rw me at e in absurd (cc)
      | inr another ↦
          let theirs : s.owner other ≡ some u = owned u other (rw another at e) in
          let mine : s.owner stripe ≡ some t = owned t stripe here in
          ground (arith, theirs, mine, another)
    ]

-- Two threads are never in the same stripe.
pub exclusive :
    (s : System) (t u stripe : ℕ)
    → IsOwned s
    → stripe_of (s.phase t) ≡ some stripe
    → stripe_of (s.phase u) ≡ some stripe
    → t ≡ u
exclusive s t u stripe owned a b = some-injective t u (sym (owned t stripe a) ∙ owned u stripe b)

-- A step keeps the stripe or leaves the store.
next_of-stripe_of :
    (p : Phase) (st : Store)
    → (stripe_of (next_of p st).0 ≡ stripe_of p) ⊎ ((next_of p st).0 ≡ idle)
unfolding next_of
next_of-stripe_of idle st = inl refl
next_of-stripe_of (checking env id content) st = ground arith
next_of-stripe_of (writing env id content) st = inl refl
next_of-stripe_of (closing env id content) st = ground arith
next_of-stripe_of (counting env id content) st = inl refl
next_of-stripe_of (sizing env id content) st = inr refl
next_of-stripe_of (reading env id) st = inr refl
next_of-stripe_of (removing env id) st = ground arith
next_of-stripe_of (forgetting id n) st = inl refl
next_of-stripe_of (shrinking id n) st = inr refl

pub Reaches-IsOwned :
    (hash_bytes : Bytes → Bytes) (start s : System)
    → Reaches hash_bytes start s
    → IsOwned start
    → IsOwned s
Reaches-IsOwned hash_bytes start _ begins owned = owned
Reaches-IsOwned hash_bytes start s (goes_on {s = before} r step) owned =
    Step-IsOwned hash_bytes before s step (Reaches-IsOwned hash_bytes start before r owned)
