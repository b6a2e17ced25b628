-- ===== src/Common/ConfigTests.antt =====
-- The theorems about the configuration at concrete inputs.
use microsoft.Base.{
  ℕ, ◌≡◌, refl, ◌↔◌, inl, inr, Bool, true, false, ◌||◌, none, some, [], ◌∷◌, Bytes, bytes_eq, codes,
  All, if◌then◌else◌,
}
use microsoft.Base.Int.{ℤ, pos}
use microsoft.Common.Result.{ok}
use microsoft.Common.ConfigSchema.{
  ConfigFieldType, cluster_invariant, node_local, ConfigSchema, find,
}
use microsoft.Common.Config.{
  Json, Process, cluster_prefix, starts_with, get_env_override, load_from_file, validate, get_int64,
  get_int64_or,
}
use microsoft.Common.Config.Validate.{AreSatisfied, validate_iff, validate-get}
use microsoft.Common.Config.Overrides.{load_from_file_ok}

-- A toy document: an integer, nothing, or an object.
data Value : Type 0 where
  number : ℤ → Value
  nothing : Value
  object : (Bytes → Value) → Value

abbrev is_something : Value → Bool
is_something nothing = false
is_something _ = true

abbrev member : Value → Bytes → Value
member (object f) key = f key
member _ key = nothing

abbrev is_integer : Value → Bool
is_integer (number _) = true
is_integer _ = false

abbrev integer : Value → ℤ
integer (number i) = i
integer _ = pos 0

abbrev limit : Bytes
limit = codes "max_chunk_bytes"

abbrev sample : Value
sample = object λ section.
    if bytes_eq section (codes "cluster_invariant")
    then object (λ key. if bytes_eq key limit then number (pos 7) else nothing)
    else nothing

abbrev toy_json : Json Value ℕ
toy_json = record {
  parse_text = λ text. ok sample;
  contains = λ j key. is_something (member j key);
  at = member;
  is_string = λ j. false;
  is_number_integer = is_integer;
  is_number_float = λ j. false;
  is_number = is_integer;
  is_boolean = λ j. false;
  get_string = λ j. [];
  get_int64 = integer;
  get_double = λ j. 0;
  get_bool = λ j. false;
}

abbrev quiet : Process ℕ
quiet = record {
  getenv = λ name. none;
  environ = codes "HOME=/" ∷ [];
  stoll = λ s. none;
  stod = λ s. none;
}

-- Every variable that is asked for is set to a text that is no number.
abbrev noisy : Process ℕ
noisy = record {
  getenv = λ name. some (codes "x");
  environ = [];
  stoll = λ s. none;
  stod = λ s. none;
}

abbrev schema : ConfigSchema
schema = record {
  cluster_invariant_specs = (limit, record { type = ConfigFieldType.int64; required = true }) ∷ [];
  node_local_specs =
      (codes "root", record { type = ConfigFieldType.string; required = false }) ∷ [];
}

validate_iff_example : (validate toy_json quiet sample schema ≡ ok tt) ↔ (
    AreSatisfied toy_json quiet sample cluster_invariant schema.cluster_invariant_specs
    × AreSatisfied toy_json quiet sample node_local schema.node_local_specs)
validate_iff_example = validate_iff toy_json quiet sample schema

valid : validate toy_json quiet sample schema ≡ ok tt
unfolding get_env_override
valid =
    (validate_iff toy_json quiet sample schema).1
      ((inr (inr (refl, refl)), tt), (inr (inl (refl, refl)), tt))

numbers :
    (j : Value)
    → (toy_json.is_number_float j || toy_json.is_number_integer j) ≡ true
    → toy_json.is_number j ≡ true
numbers j e = e

found :
    find limit schema.cluster_invariant_specs
    ≡ some (record { type = ConfigFieldType.int64; required = true })
unfolding find
found = refl

validate-get_example :
    (v : ℤ) × (get_int64 toy_json quiet sample cluster_invariant limit ≡ ok v)
    × ((default_value : ℤ)
        → get_int64_or toy_json quiet sample cluster_invariant limit default_value ≡ v)
validate-get_example =
    validate-get toy_json quiet sample schema limit ConfigFieldType.int64 numbers valid found

load_from_file_ok_example : (load_from_file toy_json quiet [] (some []) ≡ ok sample) ↔ (
    All (λ v. starts_with cluster_prefix v ≡ false) quiet.environ
    × ((text : Bytes) × (some [] ≡ some text) × (toy_json.parse_text text ≡ ok sample)))
load_from_file_ok_example = load_from_file_ok toy_json quiet [] (some []) sample

overridden : get_env_override noisy node_local limit ≡ some (codes "x")
unfolding get_env_override
overridden = refl
