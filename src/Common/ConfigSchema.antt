-- ===== src/Common/ConfigSchema.antt =====
-- config_schema.h and config_schema.cpp: which keys a configuration has in its two sections. A
-- `std::map` is the list of its entries in the order of the keys.
use microsoft.Base.{
  ◌≡◌, refl, Bool, true, false, ◌&&◌, ◌||◌, Option, none, some, List, [], ◌∷◌, Bytes, bytes_eq,
  bytes_eq_iff, ltb, ◌==◌, if◌then◌else◌, arith,
}

pub data ConfigFieldType : Type 0 where
  string int64 double bool : ConfigFieldType

pub data ConfigSection : Type 0 where
  cluster_invariant node_local : ConfigSection

pub record ConfigFieldSpec : Type 0 where
  pub type : ConfigFieldType
  pub required : Bool

abbrev pub Specs : Type 0
Specs = List (Bytes × ConfigFieldSpec)

-- The order of `std::string`.
abbrev pub less : Bytes → Bytes → Bool
less [] [] = false
less [] (y ∷ ys) = true
less (x ∷ xs) [] = false
less (x ∷ xs) (y ∷ ys) = ltb x y || (x == y && less xs ys)

-- `specs[key] = spec`
unfoldable pub set : Bytes → ConfigFieldSpec → Specs → Specs
set key spec [] = (key, spec) ∷ []
set key spec ((k, s) ∷ specs) =
    let rest = set key spec specs in
    if bytes_eq key k
    then (key, spec) ∷ specs
    else (if less key k then (key, spec) ∷ ((k, s) ∷ specs) else (k, s) ∷ rest)

unfoldable pub find : Bytes → Specs → Option ConfigFieldSpec
find key [] = none
find key ((k, s) ∷ specs) = if bytes_eq key k then some s else find key specs

pub record ConfigSchema : Type 0 where
  pub cluster_invariant_specs : Specs
  pub node_local_specs : Specs

unfoldable pub require_cluster_invariant : Bytes → ConfigFieldType → ConfigSchema → ConfigSchema
require_cluster_invariant key type schema = record schema {
  cluster_invariant_specs =
      set key (record { type = type; required = true }) schema.cluster_invariant_specs;
}

unfoldable pub require_node_local : Bytes → ConfigFieldType → ConfigSchema → ConfigSchema
require_node_local key type schema = record schema {
  node_local_specs = set key (record { type = type; required = true }) schema.node_local_specs;
}

unfoldable pub optional_cluster_invariant : Bytes → ConfigFieldType → ConfigSchema → ConfigSchema
optional_cluster_invariant key type schema = record schema {
  cluster_invariant_specs =
      set key (record { type = type; required = false }) schema.cluster_invariant_specs;
}

unfoldable pub optional_node_local : Bytes → ConfigFieldType → ConfigSchema → ConfigSchema
optional_node_local key type schema = record schema {
  node_local_specs = set key (record { type = type; required = false }) schema.node_local_specs;
}

find-set :
    (key k : Bytes) (spec : ConfigFieldSpec) (specs : Specs)
    → find k (set key spec specs) ≡ (if bytes_eq k key then some spec else find k specs)
unfolding find set
find-set key k spec [] = refl
find-set key k spec ((k', s) ∷ specs) =
    ground
      (arith, bytes_eq_iff key k', bytes_eq_iff k k', bytes_eq_iff k key, find-set key k spec specs)

-- A field that is declared, required or not, in one of the sections has the type and the
-- requirement of its last declaration; the other fields and the other section stay as they were.
require_lem :
    (key k : Bytes) (type : ConfigFieldType) (schema : ConfigSchema)
    → (find k (require_cluster_invariant key type schema).cluster_invariant_specs ≡ (
        if bytes_eq k key
        then some (record { type = type; required = true })
        else find k schema.cluster_invariant_specs))
      × ((require_cluster_invariant key type schema).node_local_specs ≡ schema.node_local_specs)
      × (find k (require_node_local key type schema).node_local_specs ≡ (
          if bytes_eq k key
          then some (record { type = type; required = true })
          else find k schema.node_local_specs))
      × ((require_node_local key type schema).cluster_invariant_specs
          ≡ schema.cluster_invariant_specs)
      × (find k (optional_cluster_invariant key type schema).cluster_invariant_specs ≡ (
          if bytes_eq k key
          then some (record { type = type; required = false })
          else find k schema.cluster_invariant_specs))
      × ((optional_cluster_invariant key type schema).node_local_specs ≡ schema.node_local_specs)
      × (find k (optional_node_local key type schema).node_local_specs ≡ (
          if bytes_eq k key
          then some (record { type = type; required = false })
          else find k schema.node_local_specs))
      × ((optional_node_local key type schema).cluster_invariant_specs
          ≡ schema.cluster_invariant_specs)
unfolding require_cluster_invariant require_node_local optional_cluster_invariant
    optional_node_local
require_lem key k type schema = (
  find-set key k _ schema.cluster_invariant_specs,
  refl,
  find-set key k _ schema.node_local_specs,
  refl,
  find-set key k _ schema.cluster_invariant_specs,
  refl,
  find-set key k _ schema.node_local_specs,
  refl,
)
