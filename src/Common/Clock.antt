-- ===== src/Common/Clock.antt =====
-- clock.h and clock.cpp: times and durations of `std::chrono::system_clock`, which are signed 64-bit
-- numbers of ticks, and the clock of the tests. Arithmetic beyond 64 bits, which C++ leaves undefined,
-- is `none`.
use microsoft.Base.{◌^◌, Bool, Option, none, some, ltb, if◌then◌else◌}
use microsoft.Base.Int.{ℤ, pos, negsuc, ◌+ℤ◌}

abbrev pub fits : ℤ → Bool
fits (pos n) = ltb n (2 ^ 63)
fits (negsuc n) = ltb n (2 ^ 63)

unfoldable pub add_time : ℤ → ℤ → Option ℤ
add_time a b = if fits (a +ℤ b) then some (a +ℤ b) else none

-- `FakeClock`
pub record FakeClock : Type 0 where
  pub current : ℤ

unfoldable pub now : FakeClock → ℤ
now clock = clock.current

unfoldable pub advance : ℤ → FakeClock → Option FakeClock
advance by clock = elim (add_time clock.current by) [
  | none ↦ none
  | some t ↦ some (record { current = t })
]

unfoldable pub set_to : ℤ → FakeClock → FakeClock
set_to when clock = record clock { current = when }
