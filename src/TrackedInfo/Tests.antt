-- ===== src/TrackedInfo/Tests.antt =====
-- Two members of one corporation and a character without one, and each theorem at a concrete input.
use eve_build.Prelude.{
  ℕ, ◌≡◌, ◌⊎◌, refl, false, Option, none, some, List, [], ◌∷◌, String, if◌then◌else◌, ◌==◌, nat_eq,
  string_eq, length, is_some,
}
use eve_build.Prelude.Exc.{Exc, ok, err, http_status}
use eve_build.Prelude.Equality.{option_eq}
use eve_build.External.Json.{Builtins, whole_numbers, Value}
use eve_build.External.Memory.{memory}
use eve_build.External.Redis.{table_cache}
use eve_build.External.Rows.{memory_rows}
use eve_build.Cache.{get_many_cached, set_many_cached}
use eve_build.Cache.EntryLists.{cached_list}
use eve_build.Tokens.{
  CharacterDocument, document_id, Clock, ensure_fresh_tokens, personal_update, corp_update, persist,
  refresh_access_token,
}
use eve_build.CharacterData.{Source, cache_key_prefix, Data, read_source, corp_list_or_none}
use eve_build.TrackedInfo.{
  TrackedInfoRefreshJobMessage, publish_each, with_delegate, dispatch_characters,
  dispatch_corporations, enqueue_all_refresh_jobs, run_handler, run_refresh_job, Outcome,
}
use eve_build.TrackedInfo.Jobs.{jobs_of}
use eve_build.TrackedInfo.Dispatch.{enqueue_all_refresh_jobs_lem}
use eve_build.TrackedInfo.Refresh.{IsOfTokens, is_http_status, run_refresh_job_lem}

abbrev member : ℕ → Option ℕ → Option String → CharacterDocument
member id corporation_id token = record {
  character_id = id;
  character_name = "pilot";
  owner_hash = "hash";
  scopes = [];
  access_token = "a";
  refresh_token = "r";
  access_token_expires_at = 300;
  created_at = 0;
  updated_at = 0;
  corporation_id = corporation_id;
  corp_scopes = none;
  corp_access_token = token;
  corp_refresh_token = token;
  corp_access_token_expires_at = if is_some token then some 300 else none;
  home_corporation_id = none;
  home_alliance_id = none;
}

abbrev characters : List CharacterDocument
characters = member 5 none none ∷ member 7 (some 98) (some "c") ∷ member 8 (some 98) (some "d") ∷ []

-- Four jobs for each character, and three for the corporation.
enqueued : (enqueue_all_refresh_jobs characters).count ≡ 15
unfolding enqueue_all_refresh_jobs dispatch_characters dispatch_corporations publish_each
    with_delegate
enqueued = refl

enqueue_all_refresh_jobs_lem_example :
    (jobs_of "corporation_assets" 7 none (enqueue_all_refresh_jobs characters).jobs ≡ 0)
    × (jobs_of "corporation_assets" 7 (some 98) (enqueue_all_refresh_jobs characters).jobs ≡ 1)
    × ((enqueue_all_refresh_jobs characters).count
        ≡ length (enqueue_all_refresh_jobs characters).jobs)
enqueue_all_refresh_jobs_lem_example =
    enqueue_all_refresh_jobs_lem characters "corporation_assets" 7 98

abbrev python : Builtins
python = whole_numbers

abbrev stored : ℕ → Option CharacterDocument
stored id = if id == 7 then some (member 7 (some 98) (some "c")) else none

abbrev clock : ℕ → Clock
clock now = record {
  at_check = now;
  at_token = now;
  at_corp_check = now;
  at_corp_token = now;
  at_update = now;
}

abbrev data_before : Data python (memory_rows (Value python)) (table_cache (List (Value python)))
data_before = record { stored = λ source owner. []; cache = none }

abbrev job : TrackedInfoRefreshJobMessage
job = record { kind = "corporation_assets"; character_id = 7; corporation_id = some 98 }

-- ESI answers every list with the same status, and EVE SSO fails.
abbrev run :
    ℕ
    → ℕ
    → Outcome python
        (memory_rows (Value python))
        (table_cache (List (Value python)))
        (λ token. err (http_status 502))
        (memory document_id)
run now status =
    run_refresh_job python (memory_rows (Value python)) (table_cache (List (Value python)))
      (λ token. err (http_status 502)) (memory document_id) (clock now)
      (λ source. err (http_status status)) job (data_before, stored)

-- A failure of ESI is swallowed, and one of EVE SSO is not.
run_swallows : (run 200 502).1 ≡ ok tt
unfolding run_refresh_job run_handler read_source corp_list_or_none cached_list get_many_cached
    set_many_cached ensure_fresh_tokens personal_update corp_update persist refresh_access_token
run_swallows = refl

run_fails : (run 400 502).1 ≡ err (http_status 502)
unfolding run_refresh_job run_handler read_source corp_list_or_none cached_list get_many_cached
    set_many_cached ensure_fresh_tokens personal_update corp_update persist refresh_access_token
run_fails = refl

run_refresh_job_lem_example :
    ((source : Source)
      → (job.kind == cache_key_prefix source) ≡ false
      → (run 400 502).0.0.stored source ≡ data_before.stored source)
    × ((exc : Exc)
        → (run 400 502).1 ≡ err exc
        → IsOfTokens python
            (memory_rows (Value python))
            (table_cache (List (Value python)))
            (λ source. err (http_status 502))
            job
            (λ token. err (http_status 502))
            (memory document_id)
            (clock 400)
            data_before
            stored
            exc
          ⊎ (is_http_status exc ≡ false))
run_refresh_job_lem_example =
    run_refresh_job_lem python (memory_rows (Value python)) (table_cache (List (Value python)))
      (λ source. err (http_status 502)) job (λ token. err (http_status 502)) (memory document_id)
      (clock 400) data_before stored
