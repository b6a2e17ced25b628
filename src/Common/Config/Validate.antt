-- ===== src/Common/Config/Validate.antt =====
-- config.cpp, `Validate`: against a description of the fields that a schema allows, and what it
-- gives to the getters.
use microsoft.Base.{
  ◌≡◌, refl, ◌↔◌, ◌⊎◌, inl, inr, Bool, true, false, ◌||◌, some, List, [], ◌∷◌, ◌++◌, Bytes,
  bytes_eq, bytes_eq_iff, All, arith, Bool-cases,
}
use microsoft.Base.Int.{ℤ}
use microsoft.Common.Result.{ok}
use microsoft.Common.ConfigSchema.{
  ConfigFieldType, ConfigSection, cluster_invariant, node_local, ConfigFieldSpec, Specs,
  ConfigSchema, find,
}
use microsoft.Common.Config.{
  Json, Process, is_some, report, get_env_override, is_present, field, has_type, validate_field,
  validate_section, validate, get_string, get_int64, get_double, get_bool, get_string_or,
  get_int64_or, get_double_or, get_bool_or, or_default,
}

report-ok : (errors : List Bytes) → report errors ≡ ok tt → errors ≡ []
report-ok [] e = refl
report-ok (x ∷ xs) e = cc

append-eq-nil : {A : Type 0} (xs ys : List A) → (xs ++ ys ≡ []) ↔ ((xs ≡ []) × (ys ≡ []))
append-eq-nil [] ys = (λ e. (refl, e), λ p. p.1)
append-eq-nil (x ∷ xs) ys = (λ e. cc, λ p. cc)

module _ {J D : Type 0} (json : Json J D) (process : Process D) (document : J) where
  -- A field is in order: overridden, or absent and not required, or present with the right type.
  abbrev pub IsSatisfied : ConfigSection → Bytes → ConfigFieldSpec → Type 0
  IsSatisfied section key spec =
      (is_some (get_env_override process section key) ≡ true)
      ⊎ (((is_present json document section key ≡ false) × (spec.required ≡ false))
          ⊎ ((is_present json document section key ≡ true)
              × (has_type json (field json document section key) spec.type ≡ true)))

  validate_field_to :
      (section : ConfigSection) (key : Bytes) (spec : ConfigFieldSpec)
      → validate_field json process document section key spec ≡ []
      → IsSatisfied section key spec
  unfolding validate_field
  validate_field_to section key spec e =
      elim (Bool-cases (is_some (get_env_override process section key))) [
        | inl env ↦ inl env
        | inr none_env ↦ elim (Bool-cases (is_present json document section key)) [
          | inr absent ↦ elim (Bool-cases spec.required) [
            | inr optional ↦ inr (inl (absent, optional))
            | inl needed ↦ absurd (ground (arith, e))
          ]
          | inl present ↦
              elim (Bool-cases (has_type json (field json document section key) spec.type)) [
                | inl typed ↦ inr (inr (present, typed))
                | inr wrong ↦ absurd (ground (arith, e))
              ]
        ]
      ]

  validate_field_from :
      (section : ConfigSection) (key : Bytes) (spec : ConfigFieldSpec)
      → IsSatisfied section key spec
      → validate_field json process document section key spec ≡ []
  unfolding validate_field
  validate_field_from section key spec (inl env) = ground (arith, env)
  validate_field_from section key spec (inr (inl h)) = ground (arith, h.0, h.1)
  validate_field_from section key spec (inr (inr h)) = ground (arith, h.0, h.1)

  abbrev pub AreSatisfied : ConfigSection → Specs → Type 0
  AreSatisfied section = All (λ e. IsSatisfied section e.0 e.1)

  validate_section_to :
      (section : ConfigSection) (specs : Specs)
      → validate_section json process document section specs ≡ []
      → AreSatisfied section specs
  unfolding validate_section
  validate_section_to section [] e = tt
  validate_section_to section ((key, spec) ∷ specs) e =
      let (first, rest) = (append-eq-nil _ _).0 e in
      (validate_field_to section key spec first, validate_section_to section specs rest)

  validate_section_from :
      (section : ConfigSection) (specs : Specs)
      → AreSatisfied section specs
      → validate_section json process document section specs ≡ []
  unfolding validate_section
  validate_section_from section [] h = refl
  validate_section_from section ((key, spec) ∷ specs) h =
      (append-eq-nil _ _).1
        (validate_field_from section key spec h.0, validate_section_from section specs h.1)

  -- `Validate` succeeds exactly if every field of both sections of the schema is in order: it is
  -- overridden by the environment, or it is absent and not required, or it has the right type.
  pub validate_iff :
      (schema : ConfigSchema)
      → (validate json process document schema ≡ ok tt) ↔ (
          AreSatisfied cluster_invariant schema.cluster_invariant_specs
          × AreSatisfied node_local schema.node_local_specs)
  unfolding validate
  validate_iff schema = (
    λ e.
        let (c, n) = (append-eq-nil _ _).0 (report-ok _ e) in
        (
          validate_section_to cluster_invariant schema.cluster_invariant_specs c,
          validate_section_to node_local schema.node_local_specs n,
        ),
    λ h.
        rw
          ((append-eq-nil _ _).1 (
            validate_section_from cluster_invariant schema.cluster_invariant_specs h.0,
            validate_section_from node_local schema.node_local_specs h.1,
          ))
          refl,
  )

  All-find :
      (section : ConfigSection) (specs : Specs) (key : Bytes) (spec : ConfigFieldSpec)
      → AreSatisfied section specs
      → find key specs ≡ some spec
      → IsSatisfied section key spec
  unfolding find
  All-find section [] key spec h e = cc
  All-find section ((k, s) ∷ specs) key spec h e = elim (Bool-cases (bytes_eq key k)) [
    | inl same ↦
        let eq : key ≡ k = (bytes_eq_iff key k).0 same in
        let eq_spec : s ≡ spec = ground (arith, e, same) in rw (eq, ← eq_spec) h.0
    | inr other ↦ All-find section specs key spec h.1 (ground (arith, e, other))
  ]

  -- The getter of a type has a value for the key of the cluster's section.
  abbrev pub IsReadable : ConfigFieldType → Bytes → Type 0
  IsReadable ConfigFieldType.string key =
      (v : Bytes) × (get_string json process document cluster_invariant key ≡ ok v)
      × ((default_value : Bytes)
          → get_string_or json process document cluster_invariant key default_value ≡ v)
  IsReadable ConfigFieldType.int64 key =
      (v : ℤ) × (get_int64 json process document cluster_invariant key ≡ ok v)
      × ((default_value : ℤ)
          → get_int64_or json process document cluster_invariant key default_value ≡ v)
  IsReadable ConfigFieldType.double key =
      (v : D) × (get_double json process document cluster_invariant key ≡ ok v)
      × ((default_value : D)
          → get_double_or json process document cluster_invariant key default_value ≡ v)
  IsReadable ConfigFieldType.bool key =
      (v : Bool) × (get_bool json process document cluster_invariant key ≡ ok v)
      × ((default_value : Bool)
          → get_bool_or json process document cluster_invariant key default_value ≡ v)

  readable :
      ((j : J)
        → (json.is_number_float j || json.is_number_integer j) ≡ true
        → json.is_number j ≡ true)
      → (key : Bytes) (type : ConfigFieldType)
      → is_present json document cluster_invariant key ≡ true
      → has_type json (field json document cluster_invariant key) type ≡ true
      → IsReadable type key
  unfolding get_string get_int64 get_double get_bool get_env_override get_string_or get_int64_or
      get_double_or get_bool_or or_default
  readable numbers key ConfigFieldType.string present typed = (
    json.get_string (field json document cluster_invariant key),
    rw (present, typed) refl,
    λ default_value. rw (get_string_or, present, typed) refl,
  )
  readable numbers key ConfigFieldType.int64 present typed = (
    json.get_int64 (field json document cluster_invariant key),
    rw (present, typed) refl,
    λ default_value. rw (get_int64_or, present, typed) refl,
  )
  readable numbers key ConfigFieldType.double present typed = (
    json.get_double (field json document cluster_invariant key),
    rw (present, numbers (field json document cluster_invariant key) typed) refl,
    λ default_value.
        rw (get_double_or, present, numbers (field json document cluster_invariant key) typed) refl,
  )
  readable numbers key ConfigFieldType.bool present typed = (
    json.get_bool (field json document cluster_invariant key),
    rw (present, typed) refl,
    λ default_value. rw (get_bool_or, present, typed) refl,
  )

  -- After a successful `Validate`, where every integer or floating-point number is a number, the
  -- getter of the declared type has a value for every required key of the cluster's section, and its
  -- overload with a default value gives this value, whatever the default.
  pub validate-get :
      (schema : ConfigSchema) (key : Bytes) (type : ConfigFieldType)
      → ((j : J)
          → (json.is_number_float j || json.is_number_integer j) ≡ true
          → json.is_number j ≡ true)
      → validate json process document schema ≡ ok tt
      → find key schema.cluster_invariant_specs ≡ some (record { type = type; required = true })
      → IsReadable type key
  unfolding get_env_override
  validate-get schema key type numbers valid found =
      elim (All-find cluster_invariant schema.cluster_invariant_specs key _
        ((validate_iff schema).0 valid).0 found) [
          | inl env ↦ absurd (ground arith)
          | inr (inl h) ↦ absurd (ground arith)
          | inr (inr h) ↦ readable numbers key type h.0 h.1
        ]
