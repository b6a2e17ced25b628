-- ===== src/Common/PathValidator.antt =====
-- path_validator.h and path_validator.cpp: which absolute paths are accepted. Whether the regular
-- expression of the configuration matches a component is a parameter.
pub mod Pieces
pub mod Normal
use microsoft.Base.{
  ℕ, zero, suc, Bool, true, false, not, ◌&&◌, ◌||◌, Option, none, some, List, [], ◌∷◌, Bytes,
  bytes_eq, codes, length, ltb, ◌==◌, if◌then◌else◌,
}
use microsoft.Common.Result.{Result, ok, err}

pub data PathValidationError : Type 0 where
  not_absolute contains_parent_traversal contains_null_byte : PathValidationError
  component_too_long path_too_long invalid_character empty_component : PathValidationError

pub record PathValidatorConfig : Type 0 where
  pub max_component_length : ℕ
  pub max_path_length : ℕ

abbrev pub Verdict : Type 0
Verdict = Result (Unit {0}) PathValidationError

-- The loop that looks for a null byte.
unfoldable pub has_null_byte : Bytes → Bool
has_null_byte [] = false
has_null_byte (c ∷ path) = c == 0 || has_null_byte path

-- The text up to the next slash, and what follows the slash if there is one.
unfoldable pub find_slash : Bytes → Bytes × Option Bytes
find_slash [] = ([], none)
find_slash (c ∷ s) =
    let (component, rest) = find_slash s in
    if c == b'/' then ([], some s) else (c ∷ component, rest)

module _ (matches : Bytes → Bool) (config : PathValidatorConfig) where
  unfoldable pub check_component : Bytes → Verdict
  check_component component =
      if bytes_eq component []
      then err empty_component
      else (if ltb config.max_component_length (length component)
          then err component_too_long
          else (if bytes_eq component (codes "..")
              then err contains_parent_traversal
              else (if not (matches component) then err invalid_character else ok tt)))

  -- The loop over the components, by the text from `start` on; `none` if the fuel is spent.
  unfoldable pub check_components : ℕ → Bytes → Option Verdict
  check_components fuel [] = some (ok tt)
  check_components zero (c ∷ s) = none
  check_components (suc fuel) (c ∷ s) =
      let (component, rest) = find_slash (c ∷ s) in
      elim (check_component component) [
        | err e ↦ some (err e)
        | ok _ ↦ elim rest [ none ↦ some (ok tt) | some s' ↦ check_components fuel s' ]
      ]

  unfoldable pub validate : Bytes → Option Verdict
  validate [] = some (err not_absolute)
  validate (c ∷ s) =
      if not (c == b'/')
      then some (err not_absolute)
      else (if ltb config.max_path_length (length (c ∷ s))
          then some (err path_too_long)
          else (if has_null_byte (c ∷ s)
              then some (err contains_null_byte)
              else (if bytes_eq (c ∷ s) (codes "/")
                  then some (ok tt)
                  else check_components (length s) s)))

-- The loop of `NormalizeForDisplay`, by the last character of the result.
unfoldable pub normalize_from : ℕ → Bytes → Bytes
normalize_from last [] = []
normalize_from last (c ∷ s) =
    let skipped = normalize_from last s in
    let pushed = normalize_from c s in if c == b'/' && last == b'/' then skipped else c ∷ pushed

unfoldable pub normalize_for_display : Bytes → Bytes
unfolding normalize_from
normalize_for_display [] = []
normalize_for_display (c ∷ s) = c ∷ normalize_from c s
