-- ===== src/StorageNode/LocalDisk/Threads/Sums.antt =====
-- local_disk_chunk_store.cpp: sums over the threads.
use microsoft.Base.{ℕ, zero, suc, ◌+◌, ◌≤◌, ◌<◌, ◌≡◌, refl, inl, inr, ◌==◌, arith, Bool-cases}
use microsoft.StorageNode.LocalDisk.Threads.{Phase, idle, set}

-- A sum over the threads below a number.
unfoldable pub sum : (Phase → ℕ) → (ℕ → Phase) → ℕ → ℕ
sum weight phase zero = 0
sum weight phase (suc n) = weight (phase n) + sum weight phase n

sum-set_above :
    (weight : Phase → ℕ) (phase : ℕ → Phase) (t n : ℕ) (p : Phase)
    → n ≤ t
    → sum weight (set phase t p) n ≡ sum weight phase n
unfolding sum
sum-set_above weight phase t zero p above = refl
sum-set_above weight phase t (suc n) p above =
    ground (arith, sum-set_above weight phase t n p (omega (arith, above)))

pub sum-set :
    (weight : Phase → ℕ) (phase : ℕ → Phase) (t n : ℕ) (p : Phase)
    → t < n
    → sum weight (set phase t p) n + weight (phase t) ≡ sum weight phase n + weight p
unfolding sum
sum-set weight phase t zero p below = absurd (omega (arith, below))
sum-set weight phase t (suc n) p below = elim (Bool-cases (n == t)) [
  | inl last ↦
      let it : n ≡ t = ground (arith, last) in
      ground (arith, last, it, sum-set_above weight phase t n p (omega (arith, it)))
  | inr other ↦ ground (arith, other, sum-set weight phase t n p (ground (arith, other, below)))
]

pub sum-idle :
    (weight : Phase → ℕ) (phase : ℕ → Phase) (n k : ℕ)
    → weight idle ≡ 0
    → ((t : ℕ) → n ≤ t → phase t ≡ idle)
    → sum weight phase (n + k) ≡ sum weight phase n
unfolding sum
sum-idle weight phase n zero e quiet = let same : n + 0 ≡ n = omega arith in rw same refl
sum-idle weight phase n (suc k) e quiet =
    let next : n + suc k ≡ suc (n + k) = omega arith in
    rw (next, quiet (n + k) (omega arith), e) (omega (arith, sum-idle weight phase n k e quiet))

pub sum_all_idle :
    (weight : Phase → ℕ) (phase : ℕ → Phase) (n : ℕ)
    → weight idle ≡ 0
    → ((t : ℕ) → phase t ≡ idle)
    → sum weight phase n ≡ 0
unfolding sum
sum_all_idle weight phase zero e out = refl
sum_all_idle weight phase (suc n) e out = rw (out n, e, sum_all_idle weight phase n e out) refl
