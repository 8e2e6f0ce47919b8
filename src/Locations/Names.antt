-- ===== src/Locations/Names.antt =====
-- The names and security statuses of services/locations.py: read from the cache, then from MongoDB,
-- then from ESI one by one. `fetch` is the call of ESI, `none` where it fails. The field `cached_at`,
-- which is not read, is left out.
pub mod Truth
pub mod Keys
pub mod Absent
mod Tests
use eve_build.Prelude.{
  ℕ, Bool, true, Option, none, some, List, [], ◌∷◌, map, String, nat_eq, string_eq,
}
use eve_build.Prelude.Dict.{Dict, insert}
use eve_build.Prelude.Text.{cache_key}
use eve_build.External.Mongo.{Collection}
use eve_build.External.Find.{Finds}
use eve_build.External.Upsert.{Sets}
use eve_build.External.Redis.{Redis}
use eve_build.Cache.{get_many_cached, set_many_cached}
use eve_build.Cache.Documents.{read_cached, missing_ids}

-- A document of `system_security`, `planet_names` or `system_names`.
pub record Entry (V : Type 0) : Type 0 where
  pub id : ℕ
  pub value : V

abbrev pub entry_id : {V : Type 0} → Entry V → ℕ
entry_id entry = entry.id

abbrev pub some_values : {V : Type 0} → Dict ℕ V → Dict ℕ (Option V)
some_values [] = []
some_values ((id, value) ∷ d) = (id, some value) ∷ some_values d

-- `resolved.update(newly_resolved)`
abbrev pub add_entries : {V : Type 0} → List (Entry V) → Dict ℕ (Option V) → Dict ℕ (Option V)
add_entries [] resolved = resolved
add_entries (entry ∷ entries) resolved =
    add_entries entries (insert entry.id (some entry.value) resolved)

abbrev pub keyed_entries : {V : Type 0} → String → List (Entry V) → Dict String V
keyed_entries prefix = map (λ entry. (cache_key prefix entry.id, entry.value))

module _ {V : Type 0} (names : Collection ℕ (Entry V) entry_id) (finds : Finds names)
    (sets : Sets names) (redis : Redis V) (fetch : ℕ → Option V) (prefix : String) (ttl : ℕ) where
  -- What the coroutine has resolved, MongoDB and Redis.
  pub record Names : Type 0 where
    pub resolved : Dict ℕ (Option V)
    pub stored : Collection.Store names
    pub cache : Option (Redis.Cache redis)

  unfoldable pub resolve_cached :
      List ℕ → Collection.Store names → Option (Redis.Cache redis) → Names
  resolve_cached ids s cache = record {
    resolved =
        some_values
          (read_cached prefix (get_many_cached redis cache (map (cache_key prefix) ids)) ids);
    stored = s;
    cache = cache;
  }

  unfoldable pub resolve_stored : List ℕ → Names → Names
  resolve_stored ids n = elim (missing_ids ids n.resolved) [
    | [] ↦ n
    | id ∷ rest ↦
        let docs = Finds.find_in finds (id ∷ rest) (λ doc. true) n.stored in
        record n {
          resolved = add_entries docs n.resolved;
          cache = set_many_cached redis (keyed_entries prefix docs) ttl n.cache;
        }
  ]

  -- A name is kept only if ESI gave one.
  unfoldable pub fetch_one : ℕ → Names → Names
  fetch_one id n = elim (fetch id) [
    | none ↦ record n { resolved = insert id none n.resolved }
    | some value ↦ record {
      resolved = insert id (some value) n.resolved;
      stored = Sets.set_one sets (record { id = id; value = value }) n.stored;
      cache = set_many_cached redis ((cache_key prefix id, value) ∷ []) ttl n.cache;
    }
  ]

  unfoldable pub fetch_each : List ℕ → Names → Names
  fetch_each [] n = n
  fetch_each (id ∷ ids) n = fetch_each ids (fetch_one id n)

  unfoldable pub resolve_names :
      List ℕ → Collection.Store names → Option (Redis.Cache redis) → Names
  resolve_names ids s cache =
      let n = resolve_stored ids (resolve_cached ids s cache) in
      fetch_each (missing_ids ids n.resolved) n

-- The three coroutines, each with its own collection and prefix.
module _ {V : Type 0} (names : Collection ℕ (Entry V) entry_id) (finds : Finds names)
    (sets : Sets names) (redis : Redis V) (fetch : ℕ → Option V) (ttl : ℕ) where
  unfoldable pub resolve_system_security_statuses :
      List ℕ
      → Collection.Store names
      → Option (Redis.Cache redis)
      → Names names finds sets redis fetch "system_security" ttl
  resolve_system_security_statuses =
      resolve_names names finds sets redis fetch "system_security" ttl

  unfoldable pub resolve_planet_names :
      List ℕ
      → Collection.Store names
      → Option (Redis.Cache redis)
      → Names names finds sets redis fetch "planet_name" ttl
  resolve_planet_names = resolve_names names finds sets redis fetch "planet_name" ttl

  unfoldable pub resolve_system_names :
      List ℕ
      → Collection.Store names
      → Option (Redis.Cache redis)
      → Names names finds sets redis fetch "system_name" ttl
  resolve_system_names = resolve_names names finds sets redis fetch "system_name" ttl
