-- ===== src/Common/PathTests.antt =====
-- The theorems about paths at concrete inputs.
use microsoft.Base.{◌≡◌, ◌≤◌, ◌↔◌, Bool, true, false, some, ◌∷◌, Bytes, codes, length, All}
use microsoft.Common.Result.{ok}
use microsoft.Common.PathValidator.{PathValidatorConfig, Verdict, has_null_byte, validate}
use microsoft.Common.PathValidator.Pieces.{pieces, IsComponent, validate_total, accepts_iff}

abbrev any : Bytes → Bool
any w = true

abbrev limits : PathValidatorConfig
limits = record { max_component_length = 255; max_path_length = 4096 }

abbrev sample : Bytes
sample = codes "/a//b"

validate_total_example : (v : Verdict) × (validate any limits sample ≡ some v)
validate_total_example = validate_total any limits sample

accepts_iff_example : (validate any limits sample ≡ some (ok tt)) ↔ (
    (s : Bytes) × (sample ≡ b'/' ∷ s)
    × (length sample ≤ limits.max_path_length)
    × (has_null_byte sample ≡ false)
    × All (IsComponent any limits) (pieces s))
accepts_iff_example = accepts_iff any limits sample
