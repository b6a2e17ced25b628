-- ===== src/Common/PathValidator/Normal.antt =====
-- path_validator.cpp, `NormalizeForDisplay`: what it gives.
use microsoft.Base.{
  ℕ, ◌≡◌, refl, ap, false, ◌&&◌, [], ◌∷◌, Bytes, ◌==◌, if◌then◌else◌, arith, Bool-cases, inl, inr,
}
use microsoft.Common.PathValidator.{normalize_from, normalize_for_display}

-- No slash follows a slash, with `last` in front.
abbrev pub IsNormalAfter : ℕ → Bytes → Type 0
IsNormalAfter last [] = Unit
IsNormalAfter last (c ∷ s) = ((c == b'/' && last == b'/') ≡ false) × IsNormalAfter c s

abbrev pub IsNormal : Bytes → Type 0
IsNormal [] = Unit
IsNormal (c ∷ s) = IsNormalAfter c s

abbrev pub without_slashes : Bytes → Bytes
without_slashes [] = []
without_slashes (c ∷ s) = let rest = without_slashes s in if c == b'/' then rest else c ∷ rest

normalize_from-IsNormalAfter : (last : ℕ) (s : Bytes) → IsNormalAfter last (normalize_from last s)
unfolding normalize_from
normalize_from-IsNormalAfter last [] = tt
normalize_from-IsNormalAfter last (c ∷ s) = elim (Bool-cases (c == b'/' && last == b'/')) [
  | inl skip ↦ rw skip (normalize_from-IsNormalAfter last s)
  | inr keep ↦ rw keep (keep, normalize_from-IsNormalAfter c s)
]

normalize_from_unchanged : (last : ℕ) (s : Bytes) → IsNormalAfter last s → normalize_from last s ≡ s
unfolding normalize_from
normalize_from_unchanged last [] h = refl
normalize_from_unchanged last (c ∷ s) h =
    rw h.0 (ap (λ x. c ∷ x) (normalize_from_unchanged c s h.1))

without_slashes-normalize_from :
    (last : ℕ) (s : Bytes) → without_slashes (normalize_from last s) ≡ without_slashes s
unfolding normalize_from
without_slashes-normalize_from last [] = refl
without_slashes-normalize_from last (c ∷ s) =
    ground (arith, without_slashes-normalize_from last s, without_slashes-normalize_from c s)

-- The normalized path has no two slashes in a row and the characters of the path but for slashes,
-- in order; and a path without two slashes in a row is its own normal form.
normalize_for_display_lem :
    (path : Bytes)
    → IsNormal (normalize_for_display path)
      × (without_slashes (normalize_for_display path) ≡ without_slashes path)
      × (IsNormal path → normalize_for_display path ≡ path)
unfolding normalize_for_display
normalize_for_display_lem [] = (tt, refl, λ h. refl)
normalize_for_display_lem (c ∷ s) = (
  normalize_from-IsNormalAfter c s,
  rw (without_slashes-normalize_from c s) refl,
  λ h. ap (λ x. c ∷ x) (normalize_from_unchanged c s h),
)
