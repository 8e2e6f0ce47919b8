-- ===== src/Locations/Info.antt =====
-- The details of locations in services/locations.py: `_resolve_location_system_ids`, and
-- `resolve_location_info` over it. `fetch` is `get_location_details`, and `fetch_status`
-- `get_system_security_status`, `none` where it fails. The field `cached_at`, which is not read, is
-- left out.
pub mod Truth
pub mod Keys
pub mod Whole
mod Tests
use eve_build.Prelude.{
  ℕ, Bool, Option, none, some, List, [], ◌∷◌, map, String, if◌then◌else◌, nat_eq, string_eq,
  contains, is_some,
}
use eve_build.Prelude.Dict.{Dict, lookup, insert}
use eve_build.Prelude.Exc.{Result, ok, err}
use eve_build.Prelude.Text.{cache_key}
use eve_build.External.Mongo.{Collection}
use eve_build.External.Find.{Finds}
use eve_build.External.Upsert.{Sets}
use eve_build.External.Redis.{Redis}
use eve_build.Cache.{get_many_cached, set_many_cached}
use eve_build.Cache.Documents.{read_cached, missing_ids}
use eve_build.Locations.Names.{Entry, entry_id, Names, resolve_system_security_statuses}

-- services/esi.py; in the coroutine also a tuple, and what Redis holds.
pub record LocationDetails : Type 0 where
  pub name : Option String
  pub system_id : Option ℕ
  pub type_id : Option ℕ

-- A document of `location_names`.
pub record LocationDoc : Type 0 where
  pub id : ℕ
  pub details : LocationDetails

abbrev pub location_id : LocationDoc → ℕ
location_id doc = doc.id

-- `{"name": {"$ne": None}}`
abbrev pub is_named : LocationDoc → Bool
is_named doc = is_some doc.details.name

abbrev pub add_locations : List LocationDoc → Dict ℕ LocationDetails → Dict ℕ LocationDetails
add_locations [] resolved = resolved
add_locations (doc ∷ docs) resolved = add_locations docs (insert doc.id doc.details resolved)

abbrev pub keyed_locations : List LocationDoc → Dict String LocationDetails
keyed_locations = map (λ doc. (cache_key "location_details" doc.id, doc.details))

module _ (locations : Collection ℕ LocationDoc location_id) (finds : Finds locations)
    (sets : Sets locations) (redis : Redis LocationDetails) (fetch : ℕ → Result LocationDetails)
    (ttl : ℕ) where
  -- What the coroutine has resolved, MongoDB and Redis.
  pub record Details : Type 0 where
    pub resolved : Dict ℕ LocationDetails
    pub stored : Collection.Store locations
    pub cache : Option (Redis.Cache redis)

  unfoldable pub cached_details :
      List ℕ → Collection.Store locations → Option (Redis.Cache redis) → Details
  cached_details ids s cache = record {
    resolved =
        read_cached "location_details"
          (get_many_cached redis cache (map (cache_key "location_details") ids)) ids;
    stored = s;
    cache = cache;
  }

  unfoldable pub stored_details : List ℕ → Details → Details
  stored_details ids n = elim (missing_ids ids n.resolved) [
    | [] ↦ n
    | id ∷ rest ↦
        let docs = Finds.find_in finds (id ∷ rest) is_named n.stored in
        record n {
          resolved = add_locations docs n.resolved;
          cache = set_many_cached redis (keyed_locations docs) ttl n.cache;
        }
  ]

  -- Details without a name are returned, but neither stored nor cached.
  unfoldable pub keep_details : ℕ → LocationDetails → Details → Details
  keep_details id details n =
      if is_some details.name
      then record {
        resolved = insert id details n.resolved;
        stored = Sets.set_one sets (record { id = id; details = details }) n.stored;
        cache = set_many_cached redis ((cache_key "location_details" id, details) ∷ []) ttl n.cache;
      }
      else record n { resolved = insert id details n.resolved }

  -- What ESI raises, other than an HTTP status, ends the loop.
  unfoldable pub fetch_details : List ℕ → Details → Details × Result (Unit {0})
  fetch_details [] n = (n, ok tt)
  fetch_details (id ∷ ids) n = elim (fetch id) [
    | err raised ↦ (n, err raised)
    | ok details ↦ fetch_details ids (keep_details id details n)
  ]

  unfoldable pub resolve_location_system_ids :
      List ℕ → Collection.Store locations → Option (Redis.Cache redis) → Details × Result (Unit {0})
  resolve_location_system_ids ids s cache =
      let n = stored_details ids (cached_details ids s cache) in
      fetch_details (missing_ids ids n.resolved) n

-- The set of the systems.
abbrev pub system_ids_of : Dict ℕ LocationDetails → List ℕ
system_ids_of [] = []
system_ids_of ((id, details) ∷ d) =
    let rest = system_ids_of d in
    elim details.system_id [
      | none ↦ rest
      | some system_id ↦ if contains system_id rest then rest else system_id ∷ rest
    ]

pub record LocationInfo (Float : Type 0) : Type 0 where
  pub name : Option String
  pub security_status : Option Float
  pub type_id : Option ℕ

module _ {Float : Type 0} where
  abbrev pub joined : Option (Option Float) → Option Float
  joined none = none
  joined (some status) = status

  -- `security_by_system.get(system_id) if system_id is not None else None`
  abbrev pub status_of : Dict ℕ (Option Float) → Option ℕ → Option Float
  status_of security_by_system none = none
  status_of security_by_system (some system_id) = joined (lookup system_id security_by_system)

  abbrev pub location_info : Dict ℕ (Option Float) → LocationDetails → LocationInfo Float
  location_info security_by_system details = record {
    name = details.name;
    security_status = status_of security_by_system details.system_id;
    type_id = details.type_id;
  }

  abbrev pub location_infos :
      Dict ℕ (Option Float) → Dict ℕ LocationDetails → Dict ℕ (LocationInfo Float)
  location_infos security_by_system [] = []
  location_infos security_by_system ((id, details) ∷ d) =
      (id, location_info security_by_system details) ∷ location_infos security_by_system d

module _ (locations : Collection ℕ LocationDoc location_id) (finds : Finds locations)
    (sets : Sets locations) (redis : Redis LocationDetails) (fetch : ℕ → Result LocationDetails)
    {Float : Type 0} (security : Collection ℕ (Entry Float) entry_id)
    (security_finds : Finds security) (security_sets : Sets security) (statuses : Redis Float)
    (fetch_status : ℕ → Option Float) (ttl : ℕ) where
  abbrev pub Statuses : Type 0
  Statuses = Names security security_finds security_sets statuses fetch_status "system_security" ttl

  -- The details with their stores, and unless ESI raised the statuses with theirs and the result.
  unfoldable pub resolve_location_info :
      List ℕ
      → Collection.Store locations
      → Option (Redis.Cache redis)
      → Collection.Store security
      → Option (Redis.Cache statuses)
      → Details locations finds sets redis fetch ttl
        × Result (Statuses × Dict ℕ (LocationInfo Float))
  resolve_location_info ids s cache security_s security_cache =
      let (n, finished) =
        resolve_location_system_ids locations finds sets redis fetch ttl ids s cache in
      elim finished [
        | err raised ↦ (n, err raised)
        | ok _ ↦
            let by_system =
              resolve_system_security_statuses security security_finds security_sets statuses
                fetch_status ttl (system_ids_of n.resolved) security_s security_cache in
            (n, ok (by_system, location_infos by_system.resolved n.resolved))
      ]
