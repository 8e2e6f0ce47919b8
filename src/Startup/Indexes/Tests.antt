-- ===== src/Startup/Indexes/Tests.antt =====
-- The files change between two starts: one index is kept, one gets another option, one goes away.
use eve_build.Prelude.{
  ◌≡◌, refl, sym, ap, ◌∙◌, ◌==◌, false, Option, none, some, List, [], ◌∷◌, map, String, contains,
  All, string_eq, arith,
}
use eve_build.Prelude.Dict.{Dict, beq_self}
use eve_build.Prelude.Int.{ℤ, pos}
use eve_build.Prelude.Exc.{Result, ok, err, value_error}
use eve_build.External.Docs.{memory_docs}
use eve_build.External.Indexes.{memory_indexes}
use eve_build.Startup.Indexes.{
  ConfigDoc, Spec, ConfigFile, Definition, definition, doc_id, State, targets, record_id,
  check_specs, load_index_configs, drop_index_if_exists, sync_one, sync_each, drop_unmanaged,
  sync_indexes,
}
use eve_build.Startup.Indexes.Loop.{Agrees, IsDone}
use eve_build.Startup.Indexes.Targets.{IsConsistent}
use eve_build.Startup.Indexes.Sync.{sync_indexes-IsSynced}

abbrev spec : String → Option ℤ → Spec
spec name unique = record {
  name = some name;
  keys = some ((name, pos 1) ∷ []);
  unique = unique;
  sparse = none;
  expire_after_seconds = none;
}

abbrev file : String → List Spec → ConfigFile
file collection indexes = record { collection = collection; indexes = indexes }

abbrev Db : Type 0
Db = State (memory_docs doc_id) (memory_indexes Definition)

abbrev empty : Db
empty = record { records = ([], λ id. none); built = λ c n. none }

abbrev before : List ConfigFile
before =
    file "plans" (spec "character_id" none ∷ spec "updated_at" none ∷ [])
    ∷ file "types" (spec "name" none ∷ [])
    ∷ []

abbrev after : List ConfigFile
after = file "plans" (spec "character_id" none ∷ spec "updated_at" (some (pos 1)) ∷ []) ∷ []

abbrev synced : List ConfigFile → Db → Db × Result (Unit {0})
synced files s = sync_indexes (memory_docs doc_id) (memory_indexes Definition) files s

abbrev first : Db
first = (synced before empty).0

abbrev second : Db
second = (synced after first).0

abbrev desired : List ConfigFile → Dict String (List Spec)
desired files = elim (load_index_configs files) [ ok found ↦ found | err exc ↦ [] ]

first_ran : synced before empty ≡ (first, ok tt)
unfolding sync_indexes sync_each sync_one drop_index_if_exists drop_unmanaged load_index_configs
    check_specs
first_ran = refl

second_ran : synced after first ≡ (second, ok tt)
unfolding sync_indexes sync_each sync_one drop_index_if_exists drop_unmanaged load_index_configs
    check_specs
second_ran = refl

second_built :
    (second.built "plans" "updated_at" ≡ some (definition (spec "updated_at" (some (pos 1)))))
    × (second.built "types" "name" ≡ none)
unfolding sync_indexes sync_each sync_one drop_index_if_exists drop_unmanaged load_index_configs
    check_specs
second_built = (refl, refl)

load_index_configs-twice :
    load_index_configs (file "plans" (spec "a" none ∷ spec "a" none ∷ []) ∷ [])
    ≡ err (value_error "duplicate index name")
unfolding load_index_configs check_specs
load_index_configs-twice = refl

-- What is within a file is not looked for across files.
load_index_configs-across :
    (load_index_configs
      (file "plans" (spec "a" none ∷ []) ∷ file "plans" (spec "a" none ∷ []) ∷ []))
    ≡ ok (("plans", spec "a" none ∷ spec "a" none ∷ []) ∷ [])
unfolding load_index_configs check_specs
load_index_configs-across = refl

apart : (a b : String) → (a == b) ≡ false → a ≡ b → ⊥
apart a b other e = ground (arith, sym (beq_self a) ∙ ap (λ x. a == x) e ∙ other)

before_loaded : load_index_configs before ≡ ok (desired before)
unfolding load_index_configs check_specs
before_loaded = refl

after_loaded : load_index_configs after ≡ ok (desired after)
unfolding load_index_configs check_specs
after_loaded = refl

before-IsConsistent : IsConsistent (targets (desired before))
unfolding load_index_configs check_specs
before-IsConsistent = (
  ((λ e. absurd (apart _ _ refl e)), ((λ e. absurd (apart _ _ refl e)), tt)),
  (((λ e. absurd (apart _ _ refl e)), tt), (tt, tt)),
)

after-IsConsistent : IsConsistent (targets (desired after))
unfolding load_index_configs check_specs
after-IsConsistent = (((λ e. absurd (apart _ _ refl e)), tt), (tt, tt))

empty-Agrees : Agrees (memory_docs doc_id) (memory_indexes Definition) empty
empty-Agrees id doc found = absurd (ground (arith, found))

first-Agrees : Agrees (memory_docs doc_id) (memory_indexes Definition) first
first-Agrees =
    (sync_indexes-IsSynced (memory_docs doc_id) (memory_indexes Definition) before (desired before)
      empty first before_loaded before-IsConsistent empty-Agrees first_ran).1.2

sync_indexes-IsSynced_example :
    All
      (λ u. IsDone (memory_docs doc_id) (memory_indexes Definition) u second)
      (targets (desired after))
    × (((id : String)
          → contains id (map record_id (targets (desired after))) ≡ false
          → (memory_docs doc_id).get id second.records ≡ none)
        × ((id : String) (doc : ConfigDoc)
            → contains id (map record_id (targets (desired after))) ≡ false
            → (memory_docs doc_id).get id first.records ≡ some doc
            → second.built doc.collection doc.name ≡ none)
        × Agrees (memory_docs doc_id) (memory_indexes Definition) second)
sync_indexes-IsSynced_example =
    sync_indexes-IsSynced (memory_docs doc_id) (memory_indexes Definition) after (desired after)
      first second after_loaded after-IsConsistent first-Agrees second_ran
