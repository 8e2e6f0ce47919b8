-- ===== src/Cache.antt =====
-- services/cache.py, and what is read through it: the documents of services/sde.py, the lists of
-- services/esi_cache.py and the names of services/locations.py. `none` in place of a cache is
-- `redis=None`. The counters are left out.
pub mod Documents
pub mod EntryLists
mod Tests
use eve_build.Prelude.{ℕ, Bool, true, false, Option, none, some, List, [], ◌∷◌, String, string_eq}
use eve_build.Prelude.Dict.{Dict, insert}
use eve_build.Prelude.Exc.{Result, ok, err}
use eve_build.External.Redis.{Redis}

-- `zip(keys, raw_values)`, less the pairs without a value.
abbrev pub present : {V : Type 0} → List String → List (Option V) → Dict String V → Dict String V
present (key ∷ keys) (some value ∷ values) found = present keys values (insert key value found)
present (key ∷ keys) (none ∷ values) found = present keys values found
present _ _ found = found

module _ {V : Type 0} (redis : Redis V) where
  open redis use {Cache, mget, execute, delete}

  unfoldable pub get_many_cached : Option Cache → List String → Dict String V
  get_many_cached none keys = []
  get_many_cached (some cache) [] = []
  get_many_cached (some cache) (key ∷ keys) = elim (mget (key ∷ keys) cache) [
    | err raised ↦ []
    | ok raw_values ↦ present (key ∷ keys) raw_values []
  ]

  unfoldable pub set_many_cached : Dict String V → ℕ → Option Cache → Option Cache
  set_many_cached items ttl none = none
  set_many_cached [] ttl (some cache) = some cache
  set_many_cached (item ∷ items) ttl (some cache) = some (execute (item ∷ items) ttl cache)

  unfoldable pub delete_cached : List String → Option Cache → Option Cache
  delete_cached keys none = none
  delete_cached [] (some cache) = some cache
  delete_cached (key ∷ keys) (some cache) = some (delete (key ∷ keys) cache).0
