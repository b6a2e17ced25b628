-- ===== src/StorageNode/ChunkId/Stripe.antt =====
-- chunk_id.cpp, `ChunkId::Hash`: a chunk's hash modulo 256 is the eighth byte of its digest.
use Prim.Native.Nat.{bit_or, digits, bit_or-bitwise, max}
use microsoft.Base.{
  ℕ, zero, suc, ◌+◌, ◌*◌, ◌/◌, ◌%◌, ◌^◌, ◌≤◌, ◌<◌, ◌≡◌, refl, ◌∙◌, [], ◌∷◌, Bytes, AreBytes, arith,
  some, get_elem?, take,
}
use native.Mathlib.Nat.{pow-suc}
use microsoft.StorageNode.ChunkId.{ChunkId, hash, hash_step, hash_bytes_from}

abbrev or_digits : ℕ → ℕ → ℕ → ℕ
or_digits n a b = digits (λ b. b) max n a b

or_digits_fuel : (n m a b : ℕ) → a ≤ n → a ≤ m → or_digits n a b ≡ or_digits m a b
or_digits_fuel zero zero a b p q = refl
or_digits_fuel zero (suc m) zero b p q = refl
or_digits_fuel zero (suc m) (suc a) b p q = absurd (omega arith)
or_digits_fuel (suc n) zero zero b p q = refl
or_digits_fuel (suc n) zero (suc a) b p q = absurd (omega arith)
or_digits_fuel (suc n) (suc m) zero b p q = refl
or_digits_fuel (suc n) (suc m) (suc a) b p q =
    omega (arith, or_digits_fuel n m (suc a / 2) (b / 2) (omega arith) (omega arith))

zero-bit_or : (b : ℕ) → bit_or 0 b ≡ b
zero-bit_or b = bit_or-bitwise 0 b

-- The lowest binary digit of a disjunction.
bit_or_step : (a b : ℕ) → bit_or a b ≡ bit_or (a / 2) (b / 2) * 2 + max (a % 2) (b % 2)
bit_or_step zero b = omega (arith, zero-bit_or b, zero-bit_or (b / 2))
bit_or_step (suc a) b = omega (
  arith,
  bit_or-bitwise (suc a) b,
  bit_or-bitwise (suc a / 2) (b / 2),
  or_digits_fuel a (suc a / 2) (suc a / 2) (b / 2) (omega arith) (omega arith),
)

bit_or-zero_fuel : (n a : ℕ) → a ≤ n → bit_or a 0 ≡ a
bit_or-zero_fuel n zero h = refl
bit_or-zero_fuel zero (suc a) h = absurd (omega arith)
bit_or-zero_fuel (suc n) (suc a) h =
    omega (arith, bit_or_step (suc a) 0, bit_or-zero_fuel n (suc a / 2) (omega arith))

bit_or-double : (a b : ℕ) → bit_or (a * 2) b ≡ bit_or a (b / 2) * 2 + b % 2
bit_or-double a b =
    let half : a * 2 / 2 ≡ a = omega arith in
    let even : a * 2 % 2 ≡ 0 = omega arith in
    bit_or_step (a * 2) b ∙ (rw (half, even) (omega arith))

-- A disjunction with a number below the lowest digit that is set adds it.
bit_or-shift : (n k b : ℕ) → b < 2 ^ n → bit_or (k * 2 ^ n) b ≡ k * 2 ^ n + b
bit_or-shift zero k b h =
    let nought : b ≡ 0 = omega arith in
    let whole : k * 1 ≡ k = omega arith in
    rw (nought, whole) (omega (arith, bit_or-zero_fuel k k (omega arith)))
bit_or-shift (suc n) k b h =
    let double : 2 ^ suc n ≡ 2 ^ n * 2 = pow-suc 2 n in
    let below : b < 2 ^ n * 2 = rw double at h in
    let shift : bit_or (k * 2 ^ n) (b / 2) ≡ k * 2 ^ n + b / 2 =
      bit_or-shift n k (b / 2) (omega arith) in
    let regroup : k * 2 ^ suc n ≡ k * 2 ^ n * 2 = rw double (omega arith) in
    rw (regroup, bit_or-double (k * 2 ^ n) b, shift) (omega arith)

hash_step-mod : (v b : ℕ) → b < 256 → hash_step v b % 256 ≡ b
hash_step-mod v b h =
    let low : (v * 256) % 2 ^ 64 ≡ (v % 2 ^ 56) * 2 ^ 8 = omega arith in
    rw (low, bit_or-shift 8 (v % 2 ^ 56) b h) (omega arith)

hash_bytes_from-mod :
    (n v b : ℕ) (digest : Bytes)
    → AreBytes digest
    → get_elem? digest n ≡ some b
    → hash_bytes_from v (take (suc n) digest) % 256 ≡ b
unfolding hash_bytes_from
hash_bytes_from-mod n v b [] bytes e = cc
hash_bytes_from-mod zero v b (x ∷ digest) bytes e =
    let same : x ≡ b = cc in rw (← same) (hash_step-mod v x bytes.0)
hash_bytes_from-mod (suc n) v b (x ∷ digest) bytes e =
    hash_bytes_from-mod n (hash_step v x) b digest bytes.1 e

-- The lock stripe of a chunk, its hash modulo 256, is the eighth byte of its digest.
hash-mod :
    (id : ChunkId) (b : ℕ) → AreBytes id.digest → get_elem? id.digest 7 ≡ some b → hash id % 256 ≡ b
unfolding hash
hash-mod id b bytes e = hash_bytes_from-mod 7 0 b id.digest bytes e
