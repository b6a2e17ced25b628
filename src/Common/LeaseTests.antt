-- ===== src/Common/LeaseTests.antt =====
-- The theorems about leases, for a lease of ten ticks issued at time 100.
use microsoft.Base.{◌≡◌, refl, true, none, some, false, ◌≢◌, List, [], ◌∷◌}
use microsoft.Base.Int.{ℤ, pos, negsuc, ◌+ℤ◌, ltb_ℤ}
use microsoft.Common.Clock.{FakeClock, fits, add_time, now, advance}
use microsoft.Common.Lease.{Lease, issue_now, is_expired}
use microsoft.Common.Lease.Expiry.{advances, total, advances-is_expired}

abbrev clock : FakeClock
clock = record { current = pos 100 }

abbrev later_clock : FakeClock
later_clock = record { current = pos 113 }

abbrev steps : List ℤ
steps = pos 5 ∷ negsuc 1 ∷ pos 10 ∷ []

advanced : advances steps clock ≡ some later_clock
unfolding advances advance add_time ◌+ℤ◌
advanced = refl

first_fits : fits (now clock +ℤ pos 10) ≡ true
unfolding now ◌+ℤ◌
first_fits = refl

last_fits : fits (now clock +ℤ pos 10 +ℤ pos 2) ≡ true
unfolding now ◌+ℤ◌
last_fits = refl

advances-is_expired_example :
    is_expired (now later_clock) (pos 2) (issue_now (pos 10) (now clock))
    ≡ some (ltb_ℤ (pos 10 +ℤ pos 2) (total steps))
advances-is_expired_example =
    advances-is_expired steps clock later_clock (pos 10) (pos 2) advanced first_fits last_fits

abbrev lease : Lease
lease = record { issued_at = pos 100; ttl = pos 10 }

at_112 : is_expired (pos 112) (pos 2) lease ≡ some false
unfolding is_expired add_time ◌+ℤ◌
at_112 = refl

at_113 : is_expired (pos 113) (pos 2) lease ≡ some true
unfolding is_expired add_time ◌+ℤ◌
at_113 = refl

at_120 : is_expired (pos 120) (pos 1) lease ≢ none
unfolding is_expired add_time ◌+ℤ◌
at_120 e = cc
