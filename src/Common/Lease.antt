-- ===== src/Common/Lease.antt =====
-- lease.h and lease.cpp: a lease that runs out some time after its issue.
pub mod Expiry
use microsoft.Base.{Bool, not, Option, none, some}
use microsoft.Base.Int.{ℤ, ltb_ℤ}
use microsoft.Common.Clock.{add_time}

pub record Lease : Type 0 where
  pub issued_at : ℤ
  pub ttl : ℤ

unfoldable pub issue_now : ℤ → ℤ → Lease
issue_now ttl now = record { issued_at = now; ttl = ttl }

unfoldable pub expires_at : Lease → Option ℤ
expires_at lease = add_time lease.issued_at lease.ttl

unfoldable pub is_expired : ℤ → ℤ → Lease → Option Bool
is_expired now clock_skew_tolerance lease = elim (add_time lease.issued_at lease.ttl) [
  | none ↦ none
  | some expiry ↦ elim (add_time expiry clock_skew_tolerance) [
    | none ↦ none
    | some limit ↦ some (ltb_ℤ limit now)
  ]
]
