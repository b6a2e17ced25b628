-- ===== src/Common/Lease/Expiry.antt =====
-- lease.cpp with clock.cpp: when a lease runs out, on a clock that is advanced.
use microsoft.Base.{
  ◌≡◌, ◌≢◌, refl, ◌∙◌, ap, Bool, true, Option, none, some, List, [], ◌∷◌, Option-cases, inl, inr,
  arith,
}
use microsoft.Base.Int.{ℤ, pos, ◌+ℤ◌, ◌≤ℤ◌, ltb_ℤ, +ℤ_parts, eq_of_parts}
use microsoft.Common.Clock.{FakeClock, fits, add_time, now, advance}
use microsoft.Common.Lease.{Lease, issue_now, is_expired}

unfoldable pub advances : List ℤ → FakeClock → Option FakeClock
advances [] clock = some clock
advances (by ∷ rest) clock = elim (advance by clock) [
  | none ↦ none
  | some clock' ↦ advances rest clock'
]

unfoldable pub total : List ℤ → ℤ
total [] = pos 0
total (by ∷ rest) = by +ℤ total rest

add_time-some : (a b c : ℤ) → add_time a b ≡ some c → c ≡ a +ℤ b
unfolding add_time
add_time-some a b c e = ground arith

+ℤ_assoc : (a b c : ℤ) → (a +ℤ b) +ℤ c ≡ a +ℤ (b +ℤ c)
+ℤ_assoc a b c =
    eq_of_parts _ _
      (omega (arith, +ℤ_parts (a +ℤ b) c, +ℤ_parts a b, +ℤ_parts a (b +ℤ c), +ℤ_parts b c))

+ℤ_zero : (a : ℤ) → a +ℤ pos 0 ≡ a
+ℤ_zero a = eq_of_parts _ _ (omega (arith, +ℤ_parts a (pos 0)))

ltb_ℤ_add : (a b c : ℤ) → ltb_ℤ (a +ℤ b) (a +ℤ c) ≡ ltb_ℤ b c
ltb_ℤ_add a b c = ground (arith, +ℤ_parts a b, +ℤ_parts a c)

advances-now :
    (steps : List ℤ) (clock clock' : FakeClock)
    → advances steps clock ≡ some clock'
    → now clock' ≡ now clock +ℤ total steps
unfolding advances total now advance
advances-now [] clock clock' e = rw (+ℤ_zero (now clock)) cc
advances-now (by ∷ steps) clock clock' e = elim (Option-cases (add_time clock.current by)) [
  | inl over ↦ absurd (ground (arith, over, e))
  | inr (t, sum) ↦
      advances-now steps (record { current = t }) clock' (ground (arith, sum, e))
      ∙ (rw (add_time-some clock.current by t sum) (+ℤ_assoc clock.current by (total steps)))
]

add_time-fits : (a b : ℤ) → fits (a +ℤ b) ≡ true → add_time a b ≡ some (a +ℤ b)
unfolding add_time
add_time-fits a b e = rw e refl

-- The test that `IsExpired` makes.
abbrev is_over : ℤ → ℤ → Lease → Bool
is_over time tolerance lease = ltb_ℤ (lease.issued_at +ℤ lease.ttl +ℤ tolerance) time

is_expired-fits :
    (time tolerance : ℤ) (lease : Lease)
    → fits (lease.issued_at +ℤ lease.ttl) ≡ true
    → fits (lease.issued_at +ℤ lease.ttl +ℤ tolerance) ≡ true
    → is_expired time tolerance lease ≡ some (is_over time tolerance lease)
unfolding is_expired ◌+ℤ◌
is_expired-fits time tolerance lease end_fits limit_fits =
    rw
      (
        is_expired,
        add_time-fits lease.issued_at lease.ttl end_fits,
        add_time-fits (lease.issued_at +ℤ lease.ttl) tolerance limit_fits,
      )
      refl

is_expired-some :
    (time tolerance : ℤ) (lease : Lease) (b : Bool)
    → is_expired time tolerance lease ≡ some b
    → b ≡ is_over time tolerance lease
unfolding is_expired
is_expired-some time tolerance lease b e =
    elim (Option-cases (add_time lease.issued_at lease.ttl)) [
      | inl over ↦ absurd (ground (arith, over, e))
      | inr (expiry, sum) ↦ elim (Option-cases (add_time expiry tolerance)) [
        | inl over ↦ absurd (ground (arith, over, sum, e))
        | inr (limit, sum') ↦
            let at_limit = add_time-some expiry tolerance limit sum' in
            let at_expiry = add_time-some lease.issued_at lease.ttl expiry sum in
            ground (arith, at_limit, at_expiry, sum, sum', e)
      ]
    ]

-- A lease issued by a clock, which is then advanced any number of times, has run out exactly if
-- the durations add up to more than its time to live and the tolerance, whatever the time was; this
-- as long as the end of the lease, with and without the tolerance, is a time of 64 bits.
pub advances-is_expired :
    (steps : List ℤ) (clock clock' : FakeClock) (ttl clock_skew_tolerance : ℤ)
    → advances steps clock ≡ some clock'
    → fits (now clock +ℤ ttl) ≡ true
    → fits (now clock +ℤ ttl +ℤ clock_skew_tolerance) ≡ true
    → is_expired (now clock') clock_skew_tolerance (issue_now ttl (now clock))
      ≡ some (ltb_ℤ (ttl +ℤ clock_skew_tolerance) (total steps))
unfolding issue_now
advances-is_expired steps clock clock' ttl tolerance e end_fits limit_fits =
    let there = advances-now steps clock clock' e in
    rw
      (
        is_expired-fits (now clock') tolerance (issue_now ttl (now clock)) end_fits limit_fits,
        there,
        +ℤ_assoc (now clock) ttl tolerance,
        ltb_ℤ_add (now clock) (ttl +ℤ tolerance) (total steps),
      )
      refl

-- Once a lease has run out it stays so: at every later time, and for every smaller tolerance with
-- which the end is still a time of 64 bits.
is_expired-later :
    (lease : Lease) (then later tolerance smaller : ℤ)
    → is_expired then tolerance lease ≡ some true
    → then ≤ℤ later
    → smaller ≤ℤ tolerance
    → is_expired later smaller lease ≢ none
    → is_expired later smaller lease ≡ some true
is_expired-later lease then later tolerance smaller e h k d =
    elim (Option-cases (is_expired later smaller lease)) [
      | inl over ↦ absurd (d over)
      | inr (b, e') ↦
          let was = is_expired-some then tolerance lease true e in
          let is = is_expired-some later smaller lease b e' in
          let yes : b ≡ true = ground (
            arith,
            was,
            is,
            +ℤ_parts (lease.issued_at +ℤ lease.ttl) tolerance,
            +ℤ_parts (lease.issued_at +ℤ lease.ttl) smaller,
          ) in
          e' ∙ ap some yes
    ]
