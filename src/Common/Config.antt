-- ===== src/Common/Config.antt =====
-- config.h and config.cpp: a JSON document with two sections of flat keys; a key of the node's own
-- section can be overridden by an environment variable.
pub mod Validate
pub mod Overrides
use microsoft.Base.{
  ℕ, ◌+◌, ◌-◌, Bool, true, false, not, ◌&&◌, ◌||◌, Option, none, some, List, [], ◌∷◌, ◌++◌, String,
  Bytes, bytes_eq, codes, leb, length, take, ◌==◌, map, if◌then◌else◌,
}
use microsoft.Base.Int.{ℤ}
use microsoft.Common.Result.{Result, ok, err}
use microsoft.Common.ConfigSchema.{
  ConfigFieldType, ConfigSection, cluster_invariant, node_local, ConfigFieldSpec, Specs,
  ConfigSchema,
}

-- What the code calls of nlohmann::json, on the values `J`, with the floating-point numbers `D`.
pub record Json (J D : Type 0) : Type 0 where
  pub parse_text : Bytes → Result J Bytes
  pub contains : J → Bytes → Bool
  pub at : J → Bytes → J
  pub is_string : J → Bool
  pub is_number_integer : J → Bool
  pub is_number_float : J → Bool
  pub is_number : J → Bool
  pub is_boolean : J → Bool
  pub get_string : J → Bytes
  pub get_int64 : J → ℤ
  pub get_double : J → D
  pub get_bool : J → Bool

-- The process: `getenv`, `environ`, and `std::stoll` and `std::stod`, which may throw.
pub record Process (D : Type 0) : Type 0 where
  pub getenv : Bytes → Option Bytes
  pub environ : List Bytes
  pub stoll : Bytes → Option ℤ
  pub stod : Bytes → Option D

pub data ConfigErrorCode : Type 0 where
  file_not_found malformed_json schema_validation_failed : ConfigErrorCode
  cluster_invariant_env_override_attempted key_not_found type_mismatch : ConfigErrorCode

pub record ConfigError : Type 0 where
  pub code : ConfigErrorCode
  pub message : Bytes
  pub validation_errors : List Bytes

abbrev pub failure : {A : Type 0} → ConfigErrorCode → Bytes → Result A ConfigError
failure code message = err (record { code = code; message = message; validation_errors = [] })

abbrev pub cluster_prefix : Bytes
cluster_prefix = codes "NIMBUS_CLUSTER_"

-- `env_var.find(prefix) == 0`
abbrev pub starts_with : Bytes → Bytes → Bool
starts_with prefix s = bytes_eq (take (length prefix) s) prefix

unfoldable pub has_cluster_invariant_env_overrides : List Bytes → Bool
has_cluster_invariant_env_overrides [] = false
has_cluster_invariant_env_overrides (env_var ∷ environ) =
    starts_with cluster_prefix env_var || has_cluster_invariant_env_overrides environ

-- `std::toupper` in the C locale, after dots have become underscores.
abbrev pub to_upper : ℕ → ℕ
to_upper c = if leb b'a' c && leb c b'z' then c - 32 else c

abbrev pub to_lower : ℕ → ℕ
to_lower c = if leb b'A' c && leb c b'Z' then c + 32 else c

unfoldable pub to_upper_and_underscore : Bytes → Bytes
to_upper_and_underscore [] = []
to_upper_and_underscore (c ∷ input) =
    to_upper (if c == b'.' then b'_' else c) ∷ to_upper_and_underscore input

abbrev pub section_name : ConfigSection → Bytes
section_name cluster_invariant = codes "cluster_invariant"
section_name node_local = codes "node_local"

abbrev pub is_some : {A : Type 0} → Option A → Bool
is_some none = false
is_some (some _) = true

unfoldable pub get_env_override : {D : Type 0} → Process D → ConfigSection → Bytes → Option Bytes
unfolding to_upper_and_underscore
get_env_override process cluster_invariant path = none
get_env_override process node_local path =
    process.getenv (codes "NIMBUS_NODE_" ++ to_upper_and_underscore path)

module _ {J D : Type 0} (json : Json J D) where
  abbrev pub is_present : J → ConfigSection → Bytes → Bool
  is_present document section key =
      json.contains document (section_name section)
      && json.contains (json.at document (section_name section)) key

  abbrev pub field : J → ConfigSection → Bytes → J
  field document section key = json.at (json.at document (section_name section)) key

  -- The test of the type.
  abbrev pub has_type : J → ConfigFieldType → Bool
  has_type jval ConfigFieldType.string = json.is_string jval
  has_type jval ConfigFieldType.int64 = json.is_number_integer jval
  has_type jval ConfigFieldType.double = json.is_number_float jval || json.is_number_integer jval
  has_type jval ConfigFieldType.bool = json.is_boolean jval

-- The word that the error uses for the type.
abbrev pub type_word : ConfigFieldType → Bytes
type_word ConfigFieldType.string = codes "string"
type_word ConfigFieldType.int64 = codes "int64"
type_word ConfigFieldType.double = codes "double"
type_word ConfigFieldType.bool = codes "boolean"

abbrev pub full_key : ConfigSection → Bytes → Bytes
full_key section key = section_name section ++ (codes "." ++ key)

-- The end of `Validate`, by the errors that were found.
abbrev pub report : List Bytes → Result (Unit {0}) ConfigError
report [] = ok tt
report (e ∷ es) = err (record {
  code = ConfigErrorCode.schema_validation_failed;
  message = codes "Schema validation failed";
  validation_errors = e ∷ es;
})

abbrev pub from_env : {A : Type 0} → Bytes → Option A → Result A ConfigError
from_env word none =
    failure ConfigErrorCode.type_mismatch (codes "Env var could not be parsed as " ++ word)
from_env word (some a) = ok a

abbrev pub parse_bool : Bytes → Option Bool
parse_bool env_val =
    let lower = map to_lower env_val in
    if bytes_eq lower (codes "true") || bytes_eq lower (codes "1")
    then some true
    else (if bytes_eq lower (codes "false") || bytes_eq lower (codes "0") then some false else none)

-- The end of the overloads with a default value.
unfoldable pub or_default : {A : Type 0} → Result A ConfigError → A → A
or_default (ok v) default_value = v
or_default (err _) default_value = default_value

module _ {J D : Type 0} (json : Json J D) (process : Process D) where
  -- `file` is the content of the file at `path`, if it can be opened.
  unfoldable pub load_from_file : Bytes → Option Bytes → Result J ConfigError
  load_from_file path file =
      if has_cluster_invariant_env_overrides process.environ
      then failure ConfigErrorCode.cluster_invariant_env_override_attempted (
          codes "Attempted to override a cluster invariant configuration via environment variables")
      else elim file [
        | none ↦
            failure ConfigErrorCode.file_not_found (codes "Configuration file not found: " ++ path)
        | some text ↦ elim (json.parse_text text) [
          | ok value ↦ ok value
          | err what ↦ failure ConfigErrorCode.malformed_json (codes "Malformed JSON: " ++ what)
        ]
      ]

  module _ (document : J) where
    -- One round of the loop of `validate_section`: the errors that it adds.
    unfoldable pub validate_field : ConfigSection → Bytes → ConfigFieldSpec → List Bytes
    validate_field section key spec =
        if is_some (get_env_override process section key)
        then []
        else (if not (is_present json document section key)
            then (if spec.required
                then (codes "Missing required key: " ++ full_key section key) ∷ []
                else [])
            else (if has_type json (field json document section key) spec.type
                then []
                else (codes "Type mismatch for "
                    ++ (full_key section key ++ (codes ": expected " ++ type_word spec.type)))
                  ∷ []))

    unfoldable pub validate_section : ConfigSection → Specs → List Bytes
    validate_section section [] = []
    validate_section section ((key, spec) ∷ specs) =
        validate_field section key spec ++ validate_section section specs

    unfoldable pub validate : ConfigSchema → Result (Unit {0}) ConfigError
    validate schema = report (
        validate_section cluster_invariant schema.cluster_invariant_specs
        ++ validate_section node_local schema.node_local_specs)

    -- The common end of the four getters, below the environment.
    abbrev read_field :
        {A : Type 0} → (J → Bool) → (J → A) → Bytes → ConfigSection → Bytes → Result A ConfigError
    read_field is get word section path =
        if not (is_present json document section path)
        then failure ConfigErrorCode.key_not_found (codes "Key not found: " ++ path)
        else (if not (is (field json document section path))
            then failure ConfigErrorCode.type_mismatch (codes "Type mismatch, expected " ++ word)
            else ok (get (field json document section path)))

    unfoldable pub get_string : ConfigSection → Bytes → Result Bytes ConfigError
    get_string section path = elim (get_env_override process section path) [
      | some env_val ↦ ok env_val
      | none ↦ read_field json.is_string json.get_string (codes "string") section path
    ]

    unfoldable pub get_int64 : ConfigSection → Bytes → Result ℤ ConfigError
    get_int64 section path = elim (get_env_override process section path) [
      | some env_val ↦ from_env (codes "int64") (process.stoll env_val)
      | none ↦ read_field json.is_number_integer json.get_int64 (codes "int64") section path
    ]

    unfoldable pub get_double : ConfigSection → Bytes → Result D ConfigError
    get_double section path = elim (get_env_override process section path) [
      | some env_val ↦ from_env (codes "double") (process.stod env_val)
      | none ↦ read_field json.is_number json.get_double (codes "double") section path
    ]

    unfoldable pub get_bool : ConfigSection → Bytes → Result Bool ConfigError
    get_bool section path = elim (get_env_override process section path) [
      | some env_val ↦ from_env (codes "bool") (parse_bool env_val)
      | none ↦ read_field json.is_boolean json.get_bool (codes "bool") section path
    ]

    unfoldable pub get_string_or : ConfigSection → Bytes → Bytes → Bytes
    unfolding or_default
    get_string_or section path default_value = or_default (get_string section path) default_value

    unfoldable pub get_int64_or : ConfigSection → Bytes → ℤ → ℤ
    unfolding or_default
    get_int64_or section path default_value = or_default (get_int64 section path) default_value

    unfoldable pub get_double_or : ConfigSection → Bytes → D → D
    unfolding or_default
    get_double_or section path default_value = or_default (get_double section path) default_value

    unfoldable pub get_bool_or : ConfigSection → Bytes → Bool → Bool
    unfolding or_default
    get_bool_or section path default_value = or_default (get_bool section path) default_value
