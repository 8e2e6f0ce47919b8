-- ===== src/Cache/Documents.antt =====
-- `cached_docs_by_id` of services/sde.py.
pub mod Coherence
pub mod Transparent
use eve_build.Prelude.{
  ℕ, Bool, true, false, not, Option, none, some, List, [], ◌∷◌, map, String, filter, nat_eq,
  string_eq, is_some,
}
use eve_build.Prelude.Dict.{Dict, lookup, insert}
use eve_build.Prelude.Text.{cache_key}
use eve_build.External.Mongo.{Collection}
use eve_build.External.Find.{Finds}
use eve_build.External.Redis.{Redis}
use eve_build.Cache.{get_many_cached, set_many_cached}

-- `{id: cached[key] for id, key in cache_keys.items() if key in cached}`
abbrev pub read_cached : {V : Type 0} → String → Dict String V → List ℕ → Dict ℕ V
read_cached prefix cached [] = []
read_cached prefix cached (id ∷ ids) =
    let rest = read_cached prefix cached ids in
    elim (lookup (cache_key prefix id) cached) [ none ↦ rest | some value ↦ (id, value) ∷ rest ]

-- `for doc in docs: found[doc["_id"]] = doc`
abbrev pub add_docs : {Doc : Type 0} → (Doc → ℕ) → List Doc → Dict ℕ Doc → Dict ℕ Doc
add_docs id_of [] found = found
add_docs id_of (doc ∷ docs) found = add_docs id_of docs (insert (id_of doc) doc found)

-- `{cache_keys[doc["_id"]]: doc for doc in docs}`
abbrev pub keyed_docs : {Doc : Type 0} → String → (Doc → ℕ) → List Doc → Dict String Doc
keyed_docs prefix id_of docs = map (λ doc. (cache_key prefix (id_of doc), doc)) docs

-- `ids - found.keys()`
abbrev pub missing_ids : {V : Type 0} → List ℕ → Dict ℕ V → List ℕ
missing_ids ids found = filter (λ id. not (is_some (lookup id found))) ids

module _ {Doc : Type 0} {id_of : Doc → ℕ} (collection : Collection ℕ Doc id_of)
    (finds : Finds collection) (redis : Redis Doc) where
  -- The documents found, and the cache after. The keys of `ids` stand in the order in which the set is
  -- traversed.
  unfoldable pub cached_docs_by_id :
      Collection.Store collection
      → String
      → ℕ
      → List ℕ
      → Option (Redis.Cache redis)
      → Dict ℕ Doc × Option (Redis.Cache redis)
  cached_docs_by_id s key_prefix ttl ids cache =
      let cached = get_many_cached redis cache (map (cache_key key_prefix) ids) in
      let found = read_cached key_prefix cached ids in
      elim (missing_ids ids found) [
        | [] ↦ (found, cache)
        | id ∷ rest ↦
            let docs = Finds.find_in finds (id ∷ rest) (λ doc. true) s in
            (
              add_docs id_of docs found,
              set_many_cached redis (keyed_docs key_prefix id_of docs) ttl cache,
            )
      ]

  -- The collections `sde_types`, `sde_blueprints` and `sde_categories`, each under its own prefix.
  unfoldable pub type_docs :
      Collection.Store collection
      → ℕ
      → List ℕ
      → Option (Redis.Cache redis)
      → Dict ℕ Doc × Option (Redis.Cache redis)
  type_docs s = cached_docs_by_id s "sde_type"

  unfoldable pub blueprint_docs :
      Collection.Store collection
      → ℕ
      → List ℕ
      → Option (Redis.Cache redis)
      → Dict ℕ Doc × Option (Redis.Cache redis)
  blueprint_docs s = cached_docs_by_id s "sde_blueprint"

  unfoldable pub category_docs :
      Collection.Store collection
      → ℕ
      → List ℕ
      → Option (Redis.Cache redis)
      → Dict ℕ Doc × Option (Redis.Cache redis)
  category_docs s = cached_docs_by_id s "sde_category"
