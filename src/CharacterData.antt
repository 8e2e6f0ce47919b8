-- ===== src/CharacterData.antt =====
-- services/character_data.py: the lists that the program keeps for a character and for its
-- corporation, each from the cache or from ESI. What ESI gives is a parameter of each call. A
-- character that connected its corporation has one, since the login writes both.
pub mod Cleared
pub mod Merged
mod Tests
use eve_build.Prelude.{
  ℕ, ◌*◌, Bool, true, false, ◌||◌, Option, none, some, List, [], ◌∷◌, ◌++◌, String, if◌then◌else◌,
  ◌==◌, nat_eq, is_some,
}
use eve_build.Prelude.Exc.{Exc, http_status, http_error, Result, ok, err, ◌>>=◌}
use eve_build.External.Json.{Builtins, Value}
use eve_build.External.Mongo.{Collection}
use eve_build.External.Redis.{Redis}
use eve_build.External.Rows.{Rows}
use eve_build.Cache.EntryLists.{State, cached_list, invalidate_list}
use eve_build.Esi.Entries.{
  Schema, Entry, asset_entry, blueprint_entry, industry_job_entry, colony_record,
}
use eve_build.Esi.Rows.{asdict, entry_type}
use eve_build.Tokens.{CharacterDocument, document_id}

pub data Source : Type 0 where
  assets blueprints industry_jobs colonies : Source
  corp_assets corp_blueprints corp_industry_jobs : Source

abbrev pub source_eq : Source → Source → Bool
source_eq assets assets = true
source_eq blueprints blueprints = true
source_eq industry_jobs industry_jobs = true
source_eq colonies colonies = true
source_eq corp_assets corp_assets = true
source_eq corp_blueprints corp_blueprints = true
source_eq corp_industry_jobs corp_industry_jobs = true
source_eq a b = false

abbrev pub personal_sources : List Source
personal_sources = assets ∷ blueprints ∷ industry_jobs ∷ colonies ∷ []

abbrev pub corp_sources : List Source
corp_sources = corp_assets ∷ corp_blueprints ∷ corp_industry_jobs ∷ []

abbrev pub cache_key_prefix : Source → String
cache_key_prefix assets = "character_assets"
cache_key_prefix blueprints = "character_blueprints"
cache_key_prefix industry_jobs = "character_industry_jobs"
cache_key_prefix colonies = "character_colonies"
cache_key_prefix corp_assets = "corporation_assets"
cache_key_prefix corp_blueprints = "corporation_blueprints"
cache_key_prefix corp_industry_jobs = "corporation_industry_jobs"

abbrev pub cache_ttl_seconds : Source → ℕ
cache_ttl_seconds colonies = 60 * 15
cache_ttl_seconds assets = 60 * 60
cache_ttl_seconds blueprints = 60 * 60
cache_ttl_seconds industry_jobs = 60 * 60
cache_ttl_seconds corp_assets = 60 * 60
cache_ttl_seconds corp_blueprints = 60 * 60
cache_ttl_seconds corp_industry_jobs = 60 * 60

abbrev pub schema_of : Source → Schema
schema_of assets = asset_entry
schema_of blueprints = blueprint_entry
schema_of industry_jobs = industry_job_entry
schema_of colonies = colony_record
schema_of corp_assets = asset_entry
schema_of corp_blueprints = blueprint_entry
schema_of corp_industry_jobs = industry_job_entry

abbrev pub corp_data_connected : CharacterDocument → Bool
corp_data_connected character = is_some character.corp_refresh_token

-- `_fetch_colony_records`: a planet whose details cannot be had is left out.
abbrev pub is_http_error : Exc → Bool
is_http_error (http_status code) = true
is_http_error http_error = true
is_http_error exc = false

-- `get_detail` is what the request for the colony of a summary gives or raises. A record has the fields of
-- both.
module _ (python : Builtins) (get_detail : Entry python → Result (Entry python)) where
  unfoldable pub colony_records : List (Entry python) → Result (List (Entry python))
  colony_records [] = ok []
  colony_records (summary ∷ summaries) =
      let rest = colony_records summaries in
      elim (get_detail summary) [
        | ok detail ↦ rest >>= λ records. ok ((summary ++ detail) ∷ records)
        | err exc ↦ if is_http_error exc then rest else err exc
      ]

  unfoldable pub fetch_colony_records : Result (List (Entry python)) → Result (List (Entry python))
  fetch_colony_records fetched = fetched >>= colony_records

module _ (python : Builtins) (collection : Rows (Value python))
    (redis : Redis (List (Value python))) where
  -- The rows of each source, and Redis.
  pub record Data : Type 0 where
    pub stored : Source → Rows.Store collection
    pub cache : Option (Redis.Cache redis)

  abbrev pub ListState : Source → Type 0
  ListState source =
      State (asdict python (schema_of source)) (entry_type python (schema_of source)) collection
        redis

  abbrev pub at_source : (source : Source) → Data → ListState source
  at_source source d = record { stored = d.stored source; cache = d.cache }

  abbrev pub with_source : (source : Source) → ListState source → Data → Data
  with_source source st d = record {
    stored = λ s. if source_eq source s then st.stored else d.stored s;
    cache = st.cache;
  }

  abbrev pub Read : Type 0
  Read = Data × Result (List (Entry python))

  unfoldable pub read_source : Source → ℕ → Result (List (Entry python)) → Data → Read
  read_source source owner fetch d =
      let (st, result) =
        cached_list (asdict python (schema_of source)) (entry_type python (schema_of source))
          collection redis (cache_key_prefix source) owner (cache_ttl_seconds source) fetch
          (at_source source d) in
      (with_source source st d, result)

  abbrev pub get_character_assets : ℕ → Result (List (Entry python)) → Data → Read
  get_character_assets = read_source assets

  abbrev pub get_character_blueprints : ℕ → Result (List (Entry python)) → Data → Read
  get_character_blueprints = read_source blueprints

  abbrev pub get_character_industry_jobs : ℕ → Result (List (Entry python)) → Data → Read
  get_character_industry_jobs = read_source industry_jobs

  abbrev pub get_character_colonies : ℕ → Result (List (Entry python)) → Data → Read
  get_character_colonies = read_source colonies

  -- `none` is a character that cannot use the endpoint.
  abbrev pub or_forbidden : Result (List (Entry python)) → Result (Option (List (Entry python)))
  or_forbidden (ok entries) = ok (some entries)
  or_forbidden (err (http_status code)) =
      if code == 401 || code == 403 then ok none else err (http_status code)
  or_forbidden (err exc) = err exc

  abbrev pub CorpRead : Type 0
  CorpRead = Data × Result (Option (List (Entry python)))

  unfoldable pub corp_list_or_none : Source → ℕ → Result (List (Entry python)) → Data → CorpRead
  corp_list_or_none source corporation_id fetch d =
      let (d', result) = read_source source corporation_id fetch d in (d', or_forbidden result)

  abbrev pub get_corporation_assets : ℕ → Result (List (Entry python)) → Data → CorpRead
  get_corporation_assets = corp_list_or_none corp_assets

  abbrev pub get_corporation_blueprints : ℕ → Result (List (Entry python)) → Data → CorpRead
  get_corporation_blueprints = corp_list_or_none corp_blueprints

  abbrev pub get_corporation_industry_jobs : ℕ → Result (List (Entry python)) → Data → CorpRead
  get_corporation_industry_jobs = corp_list_or_none corp_industry_jobs

  -- The corporation of a character that is connected.
  abbrev pub connected_corporation : CharacterDocument → Option ℕ
  connected_corporation character =
      if corp_data_connected character then character.corporation_id else none

  abbrev pub Merged : Type 0
  Merged = List (Entry python) × Bool

  abbrev pub merge_with :
      List (Entry python) → Result (Option (List (Entry python))) → Result Merged
  merge_with personal (ok none) = ok (personal, false)
  merge_with personal (ok (some corp_entries)) = ok (personal ++ corp_entries, true)
  merge_with personal (err exc) = err exc

  unfoldable pub merge_corp :
      Option ℕ → List (Entry python) → (ℕ → Data → CorpRead) → Data → Data × Result Merged
  merge_corp corporation personal fetch_corp d = elim corporation [
    | none ↦ (d, ok (personal, false))
    | some corporation_id ↦
        let (d', result) = fetch_corp corporation_id d in (d', merge_with personal result)
  ]

  -- The personal list is read before that of the corporation.
  unfoldable pub get_merged :
      Source
      → Source
      → Result (List (Entry python))
      → Result (List (Entry python))
      → CharacterDocument
      → Data
      → Data × Result Merged
  get_merged source corp_source fetch fetch_corp character d =
      let (d', result) = read_source source character.character_id fetch d in
      elim result [
        | err exc ↦ (d', err exc)
        | ok personal ↦
            merge_corp (connected_corporation character) personal
              (λ corporation_id. corp_list_or_none corp_source corporation_id fetch_corp) d'
      ]

  abbrev pub MergedRead : Type 0
  MergedRead =
      Result (List (Entry python))
      → Result (List (Entry python))
      → CharacterDocument
      → Data
      → Data × Result Merged

  abbrev pub get_merged_assets : MergedRead
  get_merged_assets = get_merged assets corp_assets

  abbrev pub get_merged_blueprints : MergedRead
  get_merged_blueprints = get_merged blueprints corp_blueprints

  abbrev pub get_merged_industry_jobs : MergedRead
  get_merged_industry_jobs = get_merged industry_jobs corp_industry_jobs

  unfoldable pub invalidate_source : Source → ℕ → Data → Data
  invalidate_source source owner d =
      with_source source
        (invalidate_list (asdict python (schema_of source)) (entry_type python (schema_of source))
          collection redis (cache_key_prefix source) owner (at_source source d))
        d

  -- The loop over the sources.
  unfoldable pub invalidate_sources : List Source → ℕ → Data → Data
  invalidate_sources [] owner d = d
  invalidate_sources (source ∷ sources) owner d =
      invalidate_sources sources owner (invalidate_source source owner d)

  unfoldable pub refresh_character_data : CharacterDocument → Data → Data
  refresh_character_data character d =
      let personal = invalidate_sources personal_sources character.character_id d in
      elim (connected_corporation character) [
        | none ↦ personal
        | some corporation_id ↦ invalidate_sources corp_sources corporation_id personal
      ]

  module _ (characters : Collection ℕ CharacterDocument document_id) where
    unfoldable pub clear_character_data :
        CharacterDocument → Data × Collection.Store characters → Data × Collection.Store characters
    clear_character_data character (d, s) = (
      invalidate_sources personal_sources character.character_id d,
      (characters.delete_one character.character_id (λ doc. true) s).0,
    )
