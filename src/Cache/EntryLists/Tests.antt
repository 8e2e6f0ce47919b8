-- ===== src/Cache/EntryLists/Tests.antt =====
-- A list of numbers whose rows are one more, and each theorem at a concrete input.
use eve_build.Prelude.{
  ℕ, zero, suc, Option, none, some, List, [], ◌∷◌, String, if◌then◌else◌, ◌==◌, string_eq, nat_eq,
}
use eve_build.Prelude.Exc.{Result, ok}
use eve_build.Prelude.Text.{cache_key}
use eve_build.External.Redis.{table_cache}
use eve_build.External.Rows.{memory_rows}
use eve_build.Cache.EntryLists.{State, cached_list}

abbrev asdict : ℕ → ℕ
asdict n = suc n

-- The row 0 has another shape.
abbrev entry_type : ℕ → Option ℕ
entry_type zero = none
entry_type (suc n) = some n

abbrev rows : ℕ → List ℕ
rows owner = if owner == 7 then 4 ∷ [] else 9 ∷ []

abbrev States : Type 0
States = State asdict entry_type (memory_rows ℕ) (table_cache (List ℕ))

abbrev warm : String → Option (List ℕ)
warm key = if key == cache_key "character_assets" 7 then some (4 ∷ []) else none

abbrev start : States
start = record { stored = rows; cache = some warm }

abbrev after : States × Result (List ℕ)
after =
    cached_list asdict entry_type (memory_rows ℕ) (table_cache (List ℕ)) "character_assets" 7 60
      (ok (10 ∷ 20 ∷ [])) start
