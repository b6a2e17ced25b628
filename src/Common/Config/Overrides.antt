-- ===== src/Common/Config/Overrides.antt =====
-- config.cpp, `LoadFromFile` and the environment: what it can and cannot change.
use microsoft.Base.{
  ◌≡◌, refl, ◌↔◌, true, false, Option, none, some, List, [], ◌∷◌, Bytes, codes, All, arith,
  Bool-cases, inl, inr, ◌++◌,
}
use microsoft.Common.Result.{ok, err}
use microsoft.Common.ConfigSchema.{ConfigFieldType, cluster_invariant, node_local}
use microsoft.Common.Config.{
  Json, Process, ConfigErrorCode, failure, cluster_prefix, starts_with,
  has_cluster_invariant_env_overrides, get_env_override, load_from_file, validate_field,
  validate_section, validate, get_string, get_int64, get_double, get_bool,
}

no_overrides :
    (environ : List Bytes)
    → (has_cluster_invariant_env_overrides environ ≡ false)
      ↔ All (λ v. starts_with cluster_prefix v ≡ false) environ
unfolding has_cluster_invariant_env_overrides
no_overrides [] = (λ e. tt, λ h. refl)
no_overrides (v ∷ environ) =
    let (to, from) = no_overrides environ in
    elim (Bool-cases (starts_with cluster_prefix v)) [
      | inl bad ↦ (λ e. absurd (ground (arith, e, bad)), λ h. absurd (ground (arith, h.0, bad)))
      | inr good ↦ (λ e. (good, to (ground (arith, e, good))), λ h. rw good (from h.1))
    ]

module _ {J D : Type 0} (json : Json J D) where
  -- Loading succeeds exactly if no environment variable has the prefix of the cluster's section,
  -- the file can be opened, and its text parses; the document is then what the parser gave.
  pub load_from_file_ok :
      (process : Process D) (path : Bytes) (file : Option Bytes) (document : J)
      → (load_from_file json process path file ≡ ok document) ↔ (
          All (λ v. starts_with cluster_prefix v ≡ false) process.environ
          × ((text : Bytes) × (file ≡ some text) × (json.parse_text text ≡ ok document)))
  unfolding load_from_file
  load_from_file_ok process path file document =
      elim (Bool-cases (has_cluster_invariant_env_overrides process.environ)) [
        | inl bad ↦ (
          λ e. absurd (ground (arith, e, bad)),
          λ h. absurd (ground (arith, bad, (no_overrides process.environ).1 h.0)),
        )
        | inr good ↦ (
          λ e. ((no_overrides process.environ).0 good, opened file (ground (arith, e, good))),
          λ h. rw (good, h.1.1, h.1.2) refl,
        )
      ]
    where
      opened :
          (f : Option Bytes)
          → (elim f [
            | none ↦
                failure ConfigErrorCode.file_not_found
                  (codes "Configuration file not found: " ++ path)
            | some text ↦ elim (json.parse_text text) [
              | ok value ↦ ok value
              | err what ↦ failure ConfigErrorCode.malformed_json (codes "Malformed JSON: " ++ what)
            ]
          ])
            ≡ ok document
          → (text : Bytes) × (f ≡ some text) × (json.parse_text text ≡ ok document)
      opened none e = cc
      opened (some text) e = (text, refl, ground (arith, e))

  -- No environment changes what the getters give for the cluster's section.
  cluster_unaffected :
      (process process' : Process D) (document : J) (key : Bytes)
      → (get_string json process document cluster_invariant key
          ≡ get_string json process' document cluster_invariant key)
        × (get_int64 json process document cluster_invariant key
            ≡ get_int64 json process' document cluster_invariant key)
        × (get_double json process document cluster_invariant key
            ≡ get_double json process' document cluster_invariant key)
        × (get_bool json process document cluster_invariant key
            ≡ get_bool json process' document cluster_invariant key)
  unfolding get_string get_int64 get_double get_bool get_env_override
  cluster_unaffected process process' document key = (refl, refl, refl, refl)

  -- A required integer of the node's section whose environment variable is no integer passes
  -- `Validate`, and `GetInt64` fails for it, whatever the document has for the key.
  validate_bad_override :
      (process : Process D) (document : J) (key env_val : Bytes)
      → get_env_override process node_local key ≡ some env_val
      → process.stoll env_val ≡ none
      → (validate json process document (record {
        cluster_invariant_specs = [];
        node_local_specs = (key, record { type = ConfigFieldType.int64; required = true }) ∷ [];
      })
          ≡ ok tt)
        × (get_int64 json process document node_local key
            ≡ failure ConfigErrorCode.type_mismatch (codes "Env var could not be parsed as int64"))
  unfolding validate validate_section validate_field get_int64
  validate_bad_override process document key env_val e bad =
      (ground (arith, e), ground (arith, e, bad))
