-- ===== src/Esi/Entries.antt =====
-- services/esi.py: the lists of entries that ESI's JSON is read into. An entry of a dataclass is the list
-- of the values of its fields, which the code does not look at; a schema is the fields of a
-- dataclass, and whether the code lets ESI leave a field out.
use eve_build.Prelude.{ℕ, Bool, true, false, Option, List, [], ◌∷◌, String, if◌then◌else◌, get_or}
use eve_build.Prelude.Exc.{Result, ok, err, type_error, ◌>>=◌, map_m}
use eve_build.External.Json.{Builtins, Value, null, object, Fields, get_field, get_item}
use eve_build.Esi.{Response, timed_get, get_all_pages}

abbrev pub Schema : Type 0
Schema = List (String × Bool)

abbrev required : List String → Schema
required [] = []
required (name ∷ names) = (name, false) ∷ required names

abbrev pub blueprint_entry : Schema
blueprint_entry = required (
    "item_id" ∷ "type_id" ∷ "location_id" ∷ "location_flag" ∷ "quantity" ∷ "runs"
    ∷ "material_efficiency" ∷ "time_efficiency" ∷ [])

abbrev pub asset_entry : Schema
asset_entry = required (
    "item_id" ∷ "type_id" ∷ "location_id" ∷ "location_flag" ∷ "location_type" ∷ "quantity"
    ∷ "is_singleton" ∷ [])

abbrev pub industry_job_entry : Schema
industry_job_entry =
    ("job_id", false)
    ∷ ("activity_id", false)
    ∷ ("blueprint_id", false)
    ∷ ("blueprint_type_id", false)
    ∷ ("product_type_id", true)
    ∷ ("facility_id", false)
    ∷ ("runs", false)
    ∷ ("status", false)
    ∷ ("start_date", false)
    ∷ ("end_date", false)
    ∷ []

abbrev pub colony_entry : Schema
colony_entry = required (
    "planet_id" ∷ "solar_system_id" ∷ "planet_type" ∷ "owner_id" ∷ "last_update" ∷ "upgrade_level"
    ∷ "num_pins" ∷ [])

abbrev pub colony_detail_entry : Schema
colony_detail_entry = required ("pins" ∷ "links" ∷ "routes" ∷ [])

abbrev append_schema : Schema → Schema → Schema
append_schema [] b = b
append_schema (f ∷ a) b = f ∷ append_schema a b

-- `ColonyRecord` has the fields of both.
abbrev pub colony_record : Schema
colony_record = append_schema colony_entry colony_detail_entry

abbrev pub market_price_entry : Schema
market_price_entry = ("type_id", false) ∷ ("adjusted_price", true) ∷ ("average_price", true) ∷ []

module _ (python : Builtins) where
  abbrev pub Entry : Type 0
  Entry = List (Value python)

  -- `entry[name]`, or `entry.get(name)`
  abbrev pub read_field : Bool → String → Fields python → Result (Value python)
  read_field optional name fields =
      if optional
      then ok (get_or (get_field python name fields) null)
      else get_item python name fields

  unfoldable pub read_fields : Schema → Fields python → Result Entry
  read_fields [] fields = ok []
  read_fields ((name, optional) ∷ schema) fields = do
    value ← read_field optional name fields
    values ← read_fields schema fields
    ok (value ∷ values)

  -- What is no object has no fields, and indexing it by a name raises.
  abbrev pub read_entry : Schema → Value python → Result Entry
  read_entry schema (object fields) = read_fields schema fields
  read_entry schema value = err type_error

  abbrev pub Answers : Type 0
  Answers = ℕ → Option (Response (Value python))

  -- `answer page` is the answer to the request for the page.
  unfoldable pub read_pages : Schema → Answers → Result (List Entry)
  read_pages schema answer = do
    raw_entries ← get_all_pages answer
    map_m (read_entry schema) raw_entries

  -- A list that comes in one answer.
  unfoldable pub read_response : Schema → Option (Response (Value python)) → Result (List Entry)
  read_response schema answer = do
    response ← timed_get answer
    map_m (read_entry schema) response.items

  abbrev pub get_character_blueprints : Answers → Result (List Entry)
  get_character_blueprints = read_pages blueprint_entry

  abbrev pub get_corporation_blueprints : Answers → Result (List Entry)
  get_corporation_blueprints = read_pages blueprint_entry

  abbrev pub get_character_assets : Answers → Result (List Entry)
  get_character_assets = read_pages asset_entry

  abbrev pub get_corporation_assets : Answers → Result (List Entry)
  get_corporation_assets = read_pages asset_entry

  abbrev pub get_corporation_industry_jobs : Answers → Result (List Entry)
  get_corporation_industry_jobs = read_pages industry_job_entry

  abbrev pub get_character_industry_jobs : Option (Response (Value python)) → Result (List Entry)
  get_character_industry_jobs = read_response industry_job_entry

  abbrev pub get_character_colonies : Option (Response (Value python)) → Result (List Entry)
  get_character_colonies = read_response colony_entry

  abbrev pub get_market_prices : Option (Response (Value python)) → Result (List Entry)
  get_market_prices = read_response market_price_entry
