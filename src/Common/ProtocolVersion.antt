-- ===== src/Common/ProtocolVersion.antt =====
-- protocol_version.h and protocol_version.cpp: the version test that every handler makes.
use microsoft.Base.{ℕ, ◌≤◌, ◌≡◌, ◌↔◌, ◌||◌, ltb, if◌then◌else◌, arith}
use microsoft.Common.Result.{Result, ok, err}

abbrev pub current_protocol_version : ℕ
current_protocol_version = 1

pub data ProtocolVersionError : Type 0 where
  unsupported : ProtocolVersionError

unfoldable pub check_protocol_version : ℕ → ℕ → ℕ → Result (Unit {0}) ProtocolVersionError
check_protocol_version received_version min_supported max_supported =
    if ltb received_version min_supported || ltb max_supported received_version
    then err unsupported
    else ok tt

-- The check passes exactly for the versions of the closed range from the least to the greatest
-- supported one.
check_protocol_version_ok :
    (received lowest highest : ℕ)
    → (check_protocol_version received lowest highest ≡ ok tt)
      ↔ ((lowest ≤ received) × (received ≤ highest))
unfolding check_protocol_version
check_protocol_version_ok received lowest highest = ground arith
