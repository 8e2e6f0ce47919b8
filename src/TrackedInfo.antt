-- ===== src/TrackedInfo.antt =====
-- services/tracked_info.py: the jobs that keep the lists of every character and corporation fresh. The
-- messages of app/db/rabbitmq.py are given as what they hold.
pub mod Jobs
pub mod Delegates
pub mod Dispatch
pub mod Refresh
mod Tests
use eve_build.Prelude.{
  ℕ, ◌+◌, Bool, true, false, ◌&&◌, ◌||◌, Option, none, some, List, [], ◌∷◌, ◌++◌, String,
  if◌then◌else◌, ◌==◌, nat_eq, string_eq, is_some,
}
use eve_build.Prelude.Dict.{Dict, lookup, set_default}
use eve_build.Prelude.Exc.{Exc, http_status, Result, ok, err}
use eve_build.External.Json.{Builtins, Value}
use eve_build.External.Mongo.{Collection}
use eve_build.External.Redis.{Redis}
use eve_build.External.Rows.{Rows}
use eve_build.Esi.Entries.{Entry}
use eve_build.Tokens.{CharacterDocument, document_id, Clock, Response, ensure_fresh_tokens}
use eve_build.CharacterData.{
  Source, assets, blueprints, industry_jobs, colonies, corp_assets, corp_blueprints,
  corp_industry_jobs, corp_data_connected, Data, read_source, corp_list_or_none,
}

pub record TrackedInfoRefreshJobMessage : Type 0 where
  pub kind : String
  pub character_id : ℕ
  pub corporation_id : Option ℕ

-- `_PERSONAL_HANDLERS` and `_CORP_HANDLERS`; a handler is the getter of its source.
abbrev pub personal_handlers : Dict String Source
personal_handlers =
    ("character_assets", assets)
    ∷ ("character_blueprints", blueprints)
    ∷ ("character_industry_jobs", industry_jobs)
    ∷ ("character_colonies", colonies)
    ∷ []

abbrev pub corp_handlers : Dict String Source
corp_handlers =
    ("corporation_assets", corp_assets)
    ∷ ("corporation_blueprints", corp_blueprints)
    ∷ ("corporation_industry_jobs", corp_industry_jobs)
    ∷ []

-- What was published, `delegate_by_corp` and `count`.
pub record Dispatched : Type 0 where
  pub jobs : List TrackedInfoRefreshJobMessage
  pub delegate_by_corp : Dict ℕ ℕ
  pub count : ℕ

-- `for kind in handlers`: a job of each kind is published and counted.
unfoldable pub publish_each : Dict String Source → ℕ → Option ℕ → Dispatched → Dispatched
publish_each [] character_id corporation_id d = d
publish_each ((kind, source) ∷ handlers) character_id corporation_id d =
    publish_each handlers character_id corporation_id (record d {
      jobs =
          d.jobs
          ++ record { kind = kind; character_id = character_id; corporation_id = corporation_id }
            ∷ [];
      count = d.count + 1;
    })

-- The first connected character of a corporation becomes its delegate.
unfoldable pub with_delegate : CharacterDocument → Dict ℕ ℕ → Dict ℕ ℕ
with_delegate character delegates = elim (character.corporation_id) [
  | none ↦ delegates
  | some corporation_id ↦
      if corp_data_connected character
      then set_default corporation_id character.character_id delegates
      else delegates
]

-- `async for raw_doc in db.characters.find({})`
unfoldable pub dispatch_characters : List CharacterDocument → Dispatched → Dispatched
dispatch_characters [] d = d
dispatch_characters (character ∷ characters) d =
    let published = publish_each personal_handlers character.character_id none d in
    dispatch_characters characters
      (record published { delegate_by_corp = with_delegate character published.delegate_by_corp })

-- `for corporation_id, delegate_character_id in delegate_by_corp.items()`
unfoldable pub dispatch_corporations : Dict ℕ ℕ → Dispatched → Dispatched
dispatch_corporations [] d = d
dispatch_corporations ((corporation_id, delegate) ∷ delegates) d =
    dispatch_corporations delegates (publish_each corp_handlers delegate (some corporation_id) d)

-- The characters are in the order in which the collection gives them.
unfoldable pub enqueue_all_refresh_jobs : List CharacterDocument → Dispatched
enqueue_all_refresh_jobs characters =
    let d =
      dispatch_characters characters (record { jobs = []; delegate_by_corp = []; count = 0 }) in
    dispatch_corporations d.delegate_by_corp d

-- `except httpx.HTTPStatusError`, in which both branches only log.
abbrev pub swallow : {A : Type 0} → Result A → Result (Unit {0})
swallow (ok a) = ok tt
swallow (err (http_status code)) = ok tt
swallow (err exc) = err exc

abbrev pub swallowed : {S A : Type 0} → S × Result A → S × Result (Unit {0})
swallowed (s, result) = (s, swallow result)

module _ (python : Builtins) (collection : Rows (Value python))
    (redis : Redis (List (Value python))) where
  -- The `try` statement. `fetch` is what ESI answers to the getter of a source.
  unfoldable pub run_handler :
      (Source → Result (List (Entry python)))
      → TrackedInfoRefreshJobMessage
      → CharacterDocument
      → Data python collection redis
      → Data python collection redis × Result (Unit {0})
  run_handler fetch job character d = elim (job.corporation_id) [
    | none ↦ elim (lookup job.kind personal_handlers) [
      | none ↦ (d, ok tt)
      | some source ↦
          swallowed
            (read_source python collection redis source character.character_id (fetch source) d)
    ]
    | some corporation_id ↦ elim (lookup job.kind corp_handlers) [
      | none ↦ (d, ok tt)
      | some source ↦
          if is_some character.corp_access_token
          then swallowed
              (corp_list_or_none python collection redis source corporation_id (fetch source) d)
          else (d, ok tt)
    ]
  ]

  module _ (post : String → Result Response)
      (characters : Collection ℕ CharacterDocument document_id) where
    abbrev pub Outcome : Type 0
    Outcome = (Data python collection redis × Collection.Store characters) × Result (Unit {0})

    unfoldable pub run_refresh_job :
        Clock
        → (Source → Result (List (Entry python)))
        → TrackedInfoRefreshJobMessage
        → Data python collection redis × Collection.Store characters
        → Outcome
    run_refresh_job clock fetch job (d, s) =
        elim (characters.find_one job.character_id (λ doc. true) s) [
          | none ↦ ((d, s), ok tt)
          | some character ↦
              let (s', refreshed) = ensure_fresh_tokens post characters clock character s in
              elim refreshed [
                | err exc ↦ ((d, s'), err exc)
                | ok found ↦ elim found [
                  | none ↦ ((d, s'), ok tt)
                  | some fresh ↦
                      let (d', result) = run_handler fetch job fresh d in ((d', s'), result)
                ]
              ]
        ]
