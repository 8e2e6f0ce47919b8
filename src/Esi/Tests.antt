-- ===== src/Esi/Tests.antt =====
-- Requests on concrete answers.
use eve_build.Prelude.{
  ℕ, suc, ◌-◌, ◌==◌, ◌≡◌, refl, Option, none, some, List, [], ◌∷◌, get_or, if◌then◌else◌, nat_eq,
}
use eve_build.Prelude.Exc.{http_status, Result, ok, err}
use eve_build.Esi.{Response, timed_get, more_pages, get_all_pages, get_with_retry, retry}
use eve_build.Prelude.{map}
use eve_build.Prelude.Int.{pos}
use eve_build.External.Json.{
  Builtins, whole_numbers, Value, null, integer, object, field, end, get_field,
}
use eve_build.Cache.EntryLists.{load_entries}
use eve_build.Esi.Entries.{Entry, Answers, market_price_entry, read_fields, read_pages}
use eve_build.Esi.Rows.{asdict, entry_type, are_known, arguments}
use eve_build.Esi.Rows.Values.{AreRows, load_entries-read_pages}
use eve_build.Esi.Retries.{EndsAt, get_with_retry-EndsAt}
use eve_build.Esi.Pages.{ArePages, get_all_pages-ArePages}

abbrev response : ℕ → Option ℕ → List ℕ → Response ℕ
response code pages list = record { status_code = code; x_pages = pages; items = list }

-- The gateway fails twice, then answers.
abbrev gateway : ℕ → Option (Response ℕ)
gateway n =
    if n == 1
    then some (response 502 none [])
    else if n == 2
    then some (response 420 none [])
    else some (response 200 none (7 ∷ []))

abbrev two_pages : ℕ → Option (Response ℕ)
two_pages n =
    if n == 1
    then some (response 200 (some 2) (34 ∷ 35 ∷ []))
    else if n == 2
    then some (response 200 (some 2) (36 ∷ []))
    else none

get_with_retry_third : get_with_retry gateway 5 ≡ some (3, ok (response 200 none (7 ∷ [])))
unfolding get_with_retry retry timed_get
get_with_retry_third = refl

get_with_retry_limit : get_with_retry gateway 2 ≡ some (2, err (http_status 420))
unfolding get_with_retry retry timed_get
get_with_retry_limit = refl

get_all_pages_two : get_all_pages two_pages ≡ ok (34 ∷ 35 ∷ 36 ∷ [])
unfolding get_all_pages more_pages timed_get
get_all_pages_two = refl

get_with_retry-EndsAt_example :
    (n : ℕ) × (outcome : Result (Response ℕ)) × (get_with_retry gateway 5 ≡ some (n, outcome))
    × EndsAt gateway 5 0 n outcome
get_with_retry-EndsAt_example = get_with_retry-EndsAt gateway 5

get_all_pages-ArePages_example :
    (first : Response ℕ) × (timed_get (two_pages 1) ≡ ok first)
    × ArePages two_pages 1 (suc (get_or first.x_pages 1 - 1)) (34 ∷ 35 ∷ 36 ∷ [])
get_all_pages-ArePages_example =
    get_all_pages-ArePages two_pages (34 ∷ 35 ∷ 36 ∷ []) get_all_pages_two

abbrev python : Builtins
python = whole_numbers

-- A price whose average ESI leaves out, beside a field that is not read.
abbrev price : Value python
price = object (
    field "extra" null
      (field "adjusted_price" (integer (pos 5)) (field "type_id" (integer (pos 34)) end)))

abbrev one_price : Answers python
one_price page = some (record { status_code = 200; x_pages = none; items = price ∷ [] })

abbrev price_entries : List (Entry python)
price_entries = (integer (pos 34) ∷ integer (pos 5) ∷ null ∷ []) ∷ []

read_pages_price : read_pages python market_price_entry one_price ≡ ok price_entries
unfolding read_pages read_fields get_field get_all_pages more_pages timed_get
read_pages_price = refl

entry_type_missing : entry_type python market_price_entry (object end) ≡ none
unfolding entry_type are_known arguments get_field
entry_type_missing = refl

load_entries-read_pages_example :
    (raw : List (Value python)) × (get_all_pages one_price ≡ ok raw)
    × AreRows python market_price_entry raw price_entries
    × (load_entries
          (entry_type python market_price_entry)
          (map (asdict python market_price_entry) price_entries)
        ≡ some price_entries)
load_entries-read_pages_example =
    load_entries-read_pages python market_price_entry one_price price_entries
      (refl, (refl, (refl, tt))) read_pages_price
