-- ===== src/CharacterData/Tests.antt =====
-- A character that connected its corporation, with ESI answering, and refusing the corporation.
use eve_build.Prelude.{
  ℕ, ◌≡◌, ◌⊎◌, refl, true, false, Option, none, some, List, [], ◌∷◌, if◌then◌else◌, ◌==◌, nat_eq,
  Bool, ◌||◌, ◌&&◌, length, string_eq,
}
use eve_build.Prelude.Text.{cache_key}
use eve_build.Prelude.Int.{pos}
use eve_build.Prelude.Exc.{Result, ok, err, http_status, http_error}
use eve_build.External.Json.{Builtins, whole_numbers, Value, integer}
use eve_build.External.Memory.{memory}
use eve_build.External.Redis.{table_cache}
use eve_build.External.Rows.{memory_rows}
use eve_build.Esi.Entries.{Entry}
use eve_build.Cache.{get_many_cached, set_many_cached}
use eve_build.Cache.Documents.Coherence.{Holds}
use eve_build.Cache.EntryLists.{cached_list}
use eve_build.Tokens.{CharacterDocument, document_id}
use eve_build.CharacterData.{
  assets, corp_assets, Data, colony_records, read_source, get_merged, merge_corp, corp_list_or_none,
  clear_character_data, personal_sources,
}
use eve_build.CharacterData.Cleared.{among, clear_character_data_lem}
use eve_build.CharacterData.Merged.{HasCorp, HasNoCorp, get_merged_cases}

abbrev python : Builtins
python = whole_numbers

abbrev character : CharacterDocument
character = record {
  character_id = 7;
  character_name = "Ada";
  owner_hash = "h";
  scopes = [];
  access_token = "a";
  refresh_token = "r";
  access_token_expires_at = 300;
  created_at = 0;
  updated_at = 0;
  corporation_id = some 98;
  corp_scopes = some [];
  corp_access_token = some "c";
  corp_refresh_token = some "d";
  corp_access_token_expires_at = some 300;
  home_corporation_id = some 98;
  home_alliance_id = none;
}

abbrev numbers : ℕ → List (Entry python)
numbers n = (integer (pos n) ∷ []) ∷ []

-- Both characters 7 and 8 have a row in each collection, and Redis is not used.
abbrev data_before : Data python (memory_rows (Value python)) (table_cache (List (Value python)))
data_before = record {
  stored = λ source owner. if owner == 7 || owner == 8 then integer (pos owner) ∷ [] else [];
  cache = none;
}

abbrev run :
    Result (List (Entry python))
    → Data python (memory_rows (Value python)) (table_cache (List (Value python)))
      × Result (List (Entry python) × Bool)
run fetch_corp =
    get_merged python (memory_rows (Value python)) (table_cache (List (Value python))) assets
      corp_assets (ok (numbers 1)) fetch_corp character data_before

merged_both :
    (run (ok (numbers 2))).1 ≡ ok ((integer (pos 1) ∷ []) ∷ (integer (pos 2) ∷ []) ∷ [], true)
unfolding get_merged merge_corp corp_list_or_none read_source cached_list get_many_cached
    set_many_cached
merged_both = refl

merged_refused : (run (err (http_status 403))).1 ≡ ok (numbers 1, false)
unfolding get_merged merge_corp corp_list_or_none read_source cached_list get_many_cached
    set_many_cached
merged_refused = refl

-- The second of three planets cannot be reached.
colony_records_two :
    colony_records python
      (λ summary. if length summary == 2 then err http_error else ok (integer (pos 0) ∷ []))
      ((integer (pos 1) ∷ []) ∷ (integer (pos 2) ∷ integer (pos 2) ∷ []) ∷ [])
    ≡ ok ((integer (pos 1) ∷ integer (pos 0) ∷ []) ∷ [])
unfolding colony_records
colony_records_two = refl

get_merged_cases_example :
    (personal : List (Entry python)) × ((read_source python
        (memory_rows (Value python))
        (table_cache (List (Value python)))
        assets
        7
        (ok (numbers 1))
        data_before).1
      ≡ ok personal)
    × (HasCorp python
          (memory_rows (Value python))
          (table_cache (List (Value python)))
          assets
          corp_assets
          (ok (numbers 1))
          (err (http_status 403))
          character
          data_before
          personal
          (numbers 1)
          false
        ⊎ HasNoCorp python
            (memory_rows (Value python))
            (table_cache (List (Value python)))
            assets
            corp_assets
            (ok (numbers 1))
            (err (http_status 403))
            character
            data_before
            personal
            (numbers 1)
            false)
get_merged_cases_example =
    get_merged_cases python (memory_rows (Value python)) (table_cache (List (Value python))) assets
      corp_assets (ok (numbers 1)) (err (http_status 403)) character data_before (numbers 1) false
      merged_refused

abbrev one_character : ℕ → Option CharacterDocument
one_character id = if id == 7 then some character else none

abbrev cleared :
    Data python (memory_rows (Value python)) (table_cache (List (Value python)))
    × (ℕ → Option CharacterDocument)
cleared =
    clear_character_data python (memory_rows (Value python)) (table_cache (List (Value python)))
      (memory document_id) character (data_before, one_character)

-- An empty list of assets was cached.
abbrev warm : Data python (memory_rows (Value python)) (table_cache (List (Value python)))
warm = record data_before {
  cache = some (λ key. if key == cache_key "character_assets" 7 then some [] else none);
}

clear_character_data_lem_example :
    let after =
      clear_character_data python
        (memory_rows (Value python))
        (table_cache (List (Value python)))
        (memory document_id)
        character
        (warm, one_character) in
    let cleared = among assets personal_sources && ◌==◌ {K = ℕ} 7 7 in
    (after.0.stored assets 7 ≡ (if cleared then [] else warm.stored assets 7))
    × (after.1 7 ≡ none)
    × ((v : List (Value python))
        → Holds (table_cache (List (Value python))) (cache_key "character_assets" 7) v after.0.cache
        → Holds (table_cache (List (Value python))) (cache_key "character_assets" 7) v warm.cache
          × (cleared ≡ false))
    × ((fetch : Result (List (Entry python)))
        → cleared ≡ true
        → (read_source python
            (memory_rows (Value python))
            (table_cache (List (Value python)))
            assets
            7
            fetch
            after.0).1
          ≡ fetch)
clear_character_data_lem_example =
    clear_character_data_lem python (memory_rows (Value python)) (table_cache (List (Value python)))
      (memory document_id) character warm one_character assets 7 (λ keys c. refl)
