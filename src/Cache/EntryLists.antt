-- ===== src/Cache/EntryLists.antt =====
-- services/esi_cache.py: the list of one kind that belongs to a character or to a corporation, kept
-- in Redis and, as a copy, in MongoDB. `asdict` and `entry_type` make a JSON row of an entry and an
-- entry of a row; `none` is the `TypeError` of a row with other fields. `fetch` is what the call of
-- ESI gives or raises. The field `cached_at` is left out.
pub mod Branches
mod Tests
use eve_build.Prelude.{ℕ, Bool, Option, none, some, List, [], ◌∷◌, map, String, string_eq}
use eve_build.Prelude.Dict.{lookup}
use eve_build.Prelude.Exc.{Result, ok, err}
use eve_build.Prelude.Text.{cache_key}
use eve_build.External.Redis.{Redis}
use eve_build.External.Rows.{Rows}
use eve_build.Cache.{get_many_cached, set_many_cached, delete_cached}

-- `[entry_type(**entry) for entry in cached[cache_key]]`
abbrev pub load_entries :
    {Entry Row : Type 0} → (Row → Option Entry) → List Row → Option (List Entry)
load_entries entry_type [] = some []
load_entries entry_type (row ∷ rows) =
    let rest = load_entries entry_type rows in
    elim (entry_type row) [
      | none ↦ none
      | some entry ↦ elim rest [ none ↦ none | some entries ↦ some (entry ∷ entries) ]
    ]

abbrev pub load_cached :
    {Entry Row : Type 0} → (Row → Option Entry) → Option (List Row) → Option (List Entry)
load_cached entry_type none = none
load_cached entry_type (some rows) = load_entries entry_type rows

module _ {Entry Row : Type 0} (asdict : Entry → Row) (entry_type : Row → Option Entry)
    (collection : Rows Row) (redis : Redis (List Row)) where
  -- MongoDB and Redis.
  pub record State : Type 0 where
    pub stored : Rows.Store collection
    pub cache : Option (Redis.Cache redis)

  -- The old rows are deleted, and the new ones inserted if there are any.
  abbrev pub replace_rows : ℕ → List Row → Rows.Store collection → Rows.Store collection
  replace_rows owner [] s = Rows.delete_many collection owner s
  replace_rows owner (row ∷ rows) s =
      Rows.insert_many collection owner (row ∷ rows) (Rows.delete_many collection owner s)

  abbrev pub store_entries : String → ℕ → ℕ → List Entry → State → State
  store_entries key owner ttl entries st = record {
    stored = replace_rows owner (map asdict entries) st.stored;
    cache = set_many_cached redis ((key, map asdict entries) ∷ []) ttl st.cache;
  }

  unfoldable pub cached_list :
      String → ℕ → ℕ → Result (List Entry) → State → State × Result (List Entry)
  cached_list prefix owner ttl fetch st =
      let key = cache_key prefix owner in
      elim (load_cached entry_type (lookup key (get_many_cached redis st.cache (key ∷ [])))) [
        | some entries ↦ (st, ok entries)
        | none ↦ elim fetch [
          | err raised ↦ (st, err raised)
          | ok entries ↦ (store_entries key owner ttl entries st, ok entries)
        ]
      ]

  unfoldable pub invalidate_list : String → ℕ → State → State
  invalidate_list prefix owner st = record {
    stored = Rows.delete_many collection owner st.stored;
    cache = delete_cached redis (cache_key prefix owner ∷ []) st.cache;
  }

  -- The owner is a character, or a corporation, whose lists are shared by its characters.
  abbrev pub cached_character_list :
      String → ℕ → ℕ → Result (List Entry) → State → State × Result (List Entry)
  cached_character_list = cached_list

  abbrev pub cached_corporation_list :
      String → ℕ → ℕ → Result (List Entry) → State → State × Result (List Entry)
  cached_corporation_list = cached_list

  abbrev pub invalidate_character_list : String → ℕ → State → State
  invalidate_character_list = invalidate_list

  abbrev pub invalidate_corporation_list : String → ℕ → State → State
  invalidate_corporation_list = invalidate_list
