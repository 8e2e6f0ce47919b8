-- ===== src/Startup/Indexes.antt =====
-- db/index_sync.py: the indexes that the files of a directory describe, each recorded in the
-- collection `_index_config`.
pub mod Loop
pub mod Targets
pub mod Dropped
pub mod Sync
mod Tests
use Prim.Native.String.{◌++◌ as ◌<>◌}
use eve_build.Prelude.{
  Bool, true, false, ◌&&◌, Option, none, some, List, [], ◌∷◌, ◌++◌, String, map, if◌then◌else◌, Eq,
  ◌==◌, string_eq, contains, get_or, ◌↔◌, arith,
}
use eve_build.Prelude.Dict.{Dict, lookup, insert}
use eve_build.Prelude.Equality.{option_eq, list_eq, pair_eq}
use eve_build.Prelude.Int.{ℤ, int_eq}
use eve_build.Prelude.Exc.{Exc, value_error, Result, ok, err, ◌>>=◌, ◌>>◌, fold_m}
use eve_build.External.Docs.{Docs}
use eve_build.External.Indexes.{Indexes}

-- An entry of `indexes` in a file. The options of `_ALLOWED_OPTIONS` are numbers or Booleans, which
-- Python compares as numbers.
pub record Spec : Type 0 where
  pub name : Option String
  pub keys : Option (List (String × ℤ))
  pub unique : Option ℤ
  pub sparse : Option ℤ
  pub expire_after_seconds : Option ℤ

-- `existing_record["spec"] == spec`
abbrev pub spec_beq : Spec → Spec → Bool
spec_beq a b =
    a.name == b.name
    && (a.keys == b.keys
        && (a.unique == b.unique
            && (a.sparse == b.sparse && a.expire_after_seconds == b.expire_after_seconds)))

-- A file, in the order of the paths.
pub record ConfigFile : Type 0 where
  pub collection : String
  pub indexes : List Spec

-- `not name or not keys`
abbrev pub is_incomplete : Option String → Option (List (String × ℤ)) → Bool
is_incomplete (some name) (some (key ∷ keys)) = name == ""
is_incomplete (some name) (some []) = true
is_incomplete (some name) none = true
is_incomplete none keys = true

abbrev pub spec_name : Spec → String
spec_name spec = get_or spec.name ""

-- The loop over the specs of a file, with `seen_names`.
unfoldable pub check_specs : List String → List Spec → Result (Unit {0})
check_specs seen_names [] = ok tt
check_specs seen_names (spec ∷ specs) =
    let rest = check_specs (spec_name spec ∷ seen_names) specs in
    if is_incomplete spec.name spec.keys
    then err (value_error "index spec is missing required 'name' or 'keys'")
    else if contains (spec_name spec) seen_names
    then err (value_error "duplicate index name")
    else rest

-- `configs.setdefault(collection, []).extend(indexes)`
abbrev pub extend_config : ConfigFile → Dict String (List Spec) → Dict String (List Spec)
extend_config file configs =
    insert file.collection (get_or (lookup file.collection configs) [] ++ file.indexes) configs

abbrev pub load_file : Dict String (List Spec) → ConfigFile → Result (Dict String (List Spec))
load_file configs file = check_specs [] file.indexes >>= λ _. ok (extend_config file configs)

unfoldable pub load_index_configs : List ConfigFile → Result (Dict String (List Spec))
load_index_configs files = fold_m load_file [] files

-- What `create_index` is given beside the name, with `_index_options`.
pub record Definition : Type 0 where
  pub keys : List (String × ℤ)
  pub unique : Option ℤ
  pub sparse : Option ℤ
  pub expire_after_seconds : Option ℤ

abbrev pub definition : Spec → Definition
definition spec = record {
  keys = get_or spec.keys [];
  unique = spec.unique;
  sparse = spec.sparse;
  expire_after_seconds = spec.expire_after_seconds;
}

-- A document of `_index_config`.
pub record ConfigDoc : Type 0 where
  pub id : String
  pub collection : String
  pub name : String
  pub spec : Spec

abbrev pub doc_id : ConfigDoc → String
doc_id doc = doc.id

-- A spec with its collection.
abbrev pub Target : Type 0
Target = String × Spec

abbrev pub targets_of : String → List Spec → List Target
targets_of collection [] = []
targets_of collection (spec ∷ specs) = (collection, spec) ∷ targets_of collection specs

-- The order of the two loops over `desired.items()`.
abbrev pub targets : Dict String (List Spec) → List Target
targets [] = []
targets ((collection, specs) ∷ desired) = targets_of collection specs ++ targets desired

-- `f"{collection}.{name}"`
abbrev pub record_id : Target → String
record_id (collection, spec) = collection <> ("." <> spec_name spec)

abbrev pub config_doc : Target → ConfigDoc
config_doc (collection, spec) = record {
  id = record_id (collection, spec);
  collection = collection;
  name = spec_name spec;
  spec = spec;
}

-- The test of the record that is found.
abbrev pub is_current : Spec → Option ConfigDoc → Bool
is_current spec none = false
is_current spec (some existing_record) = spec_beq existing_record.spec spec

module _ (configs : Docs String ConfigDoc doc_id) (indexes : Indexes Definition) where
  open indexes use {drop_index, create_index}

  pub record State : Type 0 where
    pub records : Docs.Store configs
    pub built : Indexes.Store indexes

  -- The exception of an index that is not there is suppressed.
  unfoldable pub drop_index_if_exists :
      String → String → Indexes.Store indexes → Indexes.Store indexes
  drop_index_if_exists collection name built = get_or (drop_index collection name built) built

  unfoldable pub sync_one : Target → State → State × Result (Unit {0})
  sync_one (collection, spec) s =
      if is_current spec (Docs.get configs (record_id (collection, spec)) s.records)
      then (s, ok tt)
      else (let dropped = drop_index_if_exists collection (spec_name spec) s.built in
          elim (create_index collection (spec_name spec) (definition spec) dropped) [
            | err exc ↦ (record s { built = dropped }, err exc)
            | ok built ↦ (
              record {
                records = Docs.replace_one configs (config_doc (collection, spec)) s.records;
                built = built;
              },
              ok tt,
            )
          ])

  unfoldable pub sync_each : List Target → State → State × Result (Unit {0})
  sync_each [] s = (s, ok tt)
  sync_each (target ∷ rest) s =
      let (s', outcome) = sync_one target s in
      elim outcome [ err exc ↦ (s', err exc) | ok _ ↦ sync_each rest s' ]

  -- The loop over the records that are no longer in the files.
  unfoldable pub drop_unmanaged : List String → List ConfigDoc → State → State
  drop_unmanaged desired_ids [] s = s
  drop_unmanaged desired_ids (doc ∷ docs) s = drop_unmanaged desired_ids docs (
      if contains doc.id desired_ids then s else record {
        records = Docs.delete_one configs doc.id s.records;
        built = drop_index_if_exists doc.collection doc.name s.built;
      })

  unfoldable pub sync_indexes : List ConfigFile → State → State × Result (Unit {0})
  sync_indexes files s = elim (load_index_configs files) [
    | err exc ↦ (s, err exc)
    | ok desired ↦
        let (s', outcome) = sync_each (targets desired) s in
        elim outcome [
          | err exc ↦ (s', err exc)
          | ok _ ↦ (
            drop_unmanaged (map record_id (targets desired)) (Docs.find_all configs s'.records) s',
            ok tt,
          )
        ]
  ]
