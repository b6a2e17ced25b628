-- ===== src/Common/PathValidator/Pieces.antt =====
-- path_validator.cpp, `Validate`: against the pieces of a path between its slashes.
use microsoft.Base.{
  ℕ, zero, suc, ◌≤◌, ◌<◌, ◌≡◌, refl, ◌↔◌, ap, Bool, true, false, not, Option, none, some, List, [],
  ◌∷◌, Bytes, bytes_eq, bytes_eq_iff, codes, length, ltb, ◌==◌, All, if◌then◌else◌, arith,
  Bool-cases, inl, inr, ◌≢◌, sym, ◌∙◌,
}
use microsoft.Common.Result.{ok, err}
use microsoft.Common.PathValidator.{
  PathValidatorConfig, Verdict, not_absolute, path_too_long, contains_null_byte, has_null_byte,
  find_slash, check_component, check_components, validate,
}

some-injective : {A : Type 0} {a b : A} → some a ≡ some b → a ≡ b
some-injective e = cc

abbrev tail : Bytes → Bytes
tail [] = []
tail (c ∷ s) = s

abbrev head : ℕ → Bytes → ℕ
head default [] = default
head default (c ∷ s) = c

abbrev onto_first : ℕ → List Bytes → List Bytes
onto_first c [] = (c ∷ []) ∷ []
onto_first c (w ∷ ws) = (c ∷ w) ∷ ws

-- The pieces between the slashes, without an empty last one.
abbrev pub pieces : Bytes → List Bytes
pieces [] = []
pieces (c ∷ s) = if c == b'/' then [] ∷ pieces s else onto_first c (pieces s)

abbrev pieces_after : Option Bytes → List Bytes
pieces_after none = []
pieces_after (some s) = pieces s

pieces-find_slash :
    (c : ℕ) (s : Bytes)
    → pieces (c ∷ s) ≡ (find_slash (c ∷ s)).0 ∷ pieces_after (find_slash (c ∷ s)).1
unfolding find_slash
pieces-find_slash c [] = ground arith
pieces-find_slash c (c' ∷ s) = elim (Bool-cases (c == b'/')) [
  | inl slash ↦ rw slash refl
  | inr other ↦ rw (other, pieces-find_slash c' s) refl
]

find_slash_shorter : (s rest : Bytes) → (find_slash s).1 ≡ some rest → length rest < length s
unfolding find_slash
find_slash_shorter [] rest e = cc
find_slash_shorter (c ∷ s) rest e = elim (Bool-cases (c == b'/')) [
  | inl slash ↦ let same : s ≡ rest = ground (arith, e, slash) in rw (← same) (omega arith)
  | inr other ↦
      let shorter = find_slash_shorter s rest (ground (arith, e, other)) in omega (arith, shorter)
]

module _ (matches : Bytes → Bool) (config : PathValidatorConfig) where
  -- The first error among the pieces.
  abbrev check_all : List Bytes → Verdict
  check_all [] = ok tt
  check_all (w ∷ ws) = elim (check_component matches config w) [
    | err e ↦ err e
    | ok _ ↦ check_all ws
  ]

  check_rest :
      (fuel : ℕ) (v : Verdict) (rest : Option Bytes)
      → ((s : Bytes)
          → rest ≡ some s
          → check_components matches config fuel s ≡ some (check_all (pieces s)))
      → ◌≡◌ {A = Option Verdict}
          (elim v [
            | err e ↦ some (err e)
            | ok _ ↦ elim rest [
              | none ↦ some (ok tt)
              | some s ↦ check_components matches config fuel s
            ]
          ])
          (some (elim v [ err e ↦ err e | ok _ ↦ check_all (pieces_after rest) ]))
  check_rest fuel (err e) rest ih = refl
  check_rest fuel (ok _) none ih = refl
  check_rest fuel (ok _) (some s) ih = ih s refl

  check_components-pieces :
      (fuel : ℕ) (s : Bytes)
      → length s ≤ fuel
      → check_components matches config fuel s ≡ some (check_all (pieces s))
  unfolding check_components
  check_components-pieces fuel [] h = refl
  check_components-pieces zero (c ∷ s) h = absurd (omega arith)
  check_components-pieces (suc fuel) (c ∷ s) h = rw (pieces-find_slash c s) (
      check_rest fuel (check_component matches config (find_slash (c ∷ s)).0) (find_slash (c ∷ s)).1
        λ rest e.
          check_components-pieces fuel rest
            (let below = find_slash_shorter (c ∷ s) rest e in omega (arith, below)))

  -- What a component must be.
  pub record IsComponent (w : Bytes) : Type 0 where
    pub named : w ≢ []
    pub short : length w ≤ config.max_component_length
    pub no_parent : w ≢ codes ".."
    pub allowed : matches w ≡ true

  check_component-IsComponent :
      (w : Bytes) → check_component matches config w ≡ ok tt → IsComponent w
  unfolding check_component
  check_component-IsComponent w e = record {
    named = λ empty. ground (arith, e, (bytes_eq_iff w []).1 empty);
    short = ground (arith, e);
    no_parent = λ parent. ground (arith, e, (bytes_eq_iff w (codes "..")).1 parent);
    allowed = ground (arith, e);
  }

  IsComponent-check_component :
      (w : Bytes) → IsComponent w → check_component matches config w ≡ ok tt
  unfolding check_component
  IsComponent-check_component w h = elim (Bool-cases (bytes_eq w [])) [
    | inl empty ↦ absurd (h.named ((bytes_eq_iff w []).0 empty))
    | inr named ↦ elim (Bool-cases (bytes_eq w (codes ".."))) [
      | inl parent ↦ absurd (h.no_parent ((bytes_eq_iff w (codes "..")).0 parent))
      | inr other ↦ ground (arith, named, other, h.short, h.allowed)
    ]
  ]

  check_all_to :
      (w : Bytes) (ws : List Bytes) (v : Verdict)
      → check_component matches config w ≡ v
      → (check_all ws ≡ ok tt → All IsComponent ws)
      → (elim v [ err e ↦ err e | ok _ ↦ check_all ws ]) ≡ ok tt
      → IsComponent w × All IsComponent ws
  check_all_to w ws (err x) known ih e = cc
  check_all_to w ws (ok _) known ih e = (check_component-IsComponent w known, ih e)

  check_all-ok : (ws : List Bytes) → (check_all ws ≡ ok tt) ↔ All IsComponent ws
  check_all-ok [] = (λ e. tt, λ h. refl)
  check_all-ok (w ∷ ws) = (
    check_all_to w ws (check_component matches config w) refl (check_all-ok ws).0,
    λ h. rw (check_all, IsComponent-check_component w h.0) ((check_all-ok ws).1 h.1),
  )

  validate-pieces :
      (c : ℕ) (s : Bytes)
      → validate matches config (c ∷ s)
        ≡ some (
            if not (c == b'/')
            then err not_absolute
            else (if ltb config.max_path_length (suc (length s))
                then err path_too_long
                else (if has_null_byte (c ∷ s)
                    then err contains_null_byte
                    else check_all (pieces s))))
  unfolding validate
  validate-pieces c [] = ground arith
  validate-pieces c (d ∷ s) =
      ground (arith, check_components-pieces (length (d ∷ s)) (d ∷ s) (omega arith))

  -- `Validate` comes to a verdict for every path: the loop over the components ends.
  pub validate_total : (path : Bytes) → (v : Verdict) × (validate matches config path ≡ some v)
  unfolding validate
  validate_total [] = (err not_absolute, refl)
  validate_total (c ∷ s) = (_, validate-pieces c s)

  verdict_ok :
      (c : ℕ) (s : Bytes)
      → (if not (c == b'/')
          then err not_absolute
          else (if ltb config.max_path_length (suc (length s))
              then err path_too_long
              else (if has_null_byte (c ∷ s)
                  then err contains_null_byte
                  else check_all (pieces s))))
        ≡ ok tt
      → (c ≡ b'/')
        × (suc (length s) ≤ config.max_path_length)
        × (has_null_byte (c ∷ s) ≡ false)
        × (check_all (pieces s) ≡ ok tt)
  verdict_ok c s e = elim (Bool-cases (has_null_byte (c ∷ s))) [
    | inl null ↦ absurd (ground (arith, e, null))
    | inr clean ↦ (ground (arith, e), ground (arith, e), clean, ground (arith, e, clean))
  ]

  -- A path is accepted exactly if it starts with a slash, is not longer than the limit and has no
  -- null byte, and each piece between its slashes, but for an empty one at the end, is a component:
  -- not empty, not longer than the limit, not two dots, and matched by the allowed pattern.
  pub accepts_iff :
      (path : Bytes)
      → (validate matches config path ≡ some (ok tt)) ↔ (
          (s : Bytes) × (path ≡ b'/' ∷ s)
          × (length path ≤ config.max_path_length)
          × (has_null_byte path ≡ false)
          × All IsComponent (pieces s))
  unfolding validate
  accepts_iff [] = (λ e. cc, λ h. cc)
  accepts_iff (c ∷ s) = (
    λ e.
        let h = verdict_ok c s (some-injective (sym (validate-pieces c s) ∙ e)) in
        (s, ap (λ x. x ∷ s) h.0, h.1, h.2, (check_all-ok (pieces s)).0 h.3),
    λ h.
        let same : s ≡ h.0 = ap tail h.1 in
        let slash : c ≡ b'/' = ap (head 0) h.1 in
        let good : check_all (pieces s) ≡ ok tt = rw same ((check_all-ok (pieces h.0)).1 h.4) in
        validate-pieces c s ∙ ground (arith, slash, good, h.2, h.3),
  )
