-- ===== src/TrackedInfo/Refresh.antt =====
-- What `run_refresh_job` of services/tracked_info.py changes, and which exceptions leave it.
use eve_build.Prelude.{
  ℕ, ◌≡◌, ◌⊎◌, refl, Bool, true, false, none, some, List, String, ◌==◌, nat_eq, string_eq, is_some,
  arith, Bool-cases, Option-cases, inl, inr, ap, ◌∙◌,
}
use eve_build.Prelude.Dict.{Dict, lookup, AllEntries, AllEntries-lookup, beq_self}
use eve_build.Prelude.Exc.{Exc, http_status, Result, ok, err, Result-cases, err-injective}
use eve_build.External.Json.{Builtins, Value}
use eve_build.External.Mongo.{Collection}
use eve_build.External.Redis.{Redis}
use eve_build.External.Rows.{Rows}
use eve_build.Esi.Entries.{Entry}
use eve_build.Tokens.{CharacterDocument, document_id, Clock, Response, ensure_fresh_tokens}
use eve_build.CharacterData.{
  Source, source_eq, cache_key_prefix, Data, read_source, corp_list_or_none,
}
use eve_build.CharacterData.Cleared.{source_eq-eq}
use eve_build.TrackedInfo.{
  TrackedInfoRefreshJobMessage, personal_handlers, corp_handlers, swallow, run_handler,
  run_refresh_job,
}

other_source :
    (handlers : Dict String Source) (kind : String) (s source : Source)
    → AllEntries (λ name named. name ≡ cache_key_prefix named) handlers
    → lookup kind handlers ≡ some s
    → (kind == cache_key_prefix source) ≡ false
    → source_eq s source ≡ false
other_source handlers kind s source named found other = elim (Bool-cases (source_eq s source)) [
  | inl same ↦
      let under = AllEntries-lookup _ kind s handlers named found in
      let e = source_eq-eq s source same in
      let own : kind ≡ cache_key_prefix source = under ∙ ap cache_key_prefix e in
      absurd (ground (arith, rw own at other, beq_self (cache_key_prefix source)))
  | inr apart ↦ apart
]

abbrev pub is_http_status : Exc → Bool
is_http_status (http_status code) = true
is_http_status exc = false

swallow_lem :
    {A : Type 0} (r : Result A) (exc : Exc) → swallow r ≡ err exc → is_http_status exc ≡ false
swallow_lem (ok a) exc e = absurd (ground (arith, e))
swallow_lem (err (http_status code)) exc e = absurd (ground (arith, e))
swallow_lem (err raised) exc e = ground (arith, e)

module _ (python : Builtins) (collection : Rows (Value python))
    (redis : Redis (List (Value python))) (fetch : Source → Result (List (Entry python)))
    (job : TrackedInfoRefreshJobMessage) where
  -- The rows of a source that the job does not name stay, and no HTTP status leaves.
  abbrev IsConfined :
      Data python collection redis → Data python collection redis × Result (Unit {0}) → Type 0
  IsConfined d (d', result) =
      ((source : Source)
        → (job.kind == cache_key_prefix source) ≡ false
        → d'.stored source ≡ d.stored source)
      × ((exc : Exc) → result ≡ err exc → is_http_status exc ≡ false)

  unchanged : (d : Data python collection redis) → IsConfined d (d, ok tt)
  unchanged d = (λ source other. refl, λ exc e. absurd (ground (arith, e)))

  read_source-IsConfined :
      (handlers : Dict String Source) (source : Source) (owner : ℕ)
      (d : Data python collection redis)
      → AllEntries (λ name named. name ≡ cache_key_prefix named) handlers
      → lookup job.kind handlers ≡ some source
      → (s : Source) → (job.kind == cache_key_prefix s) ≡ false
      → (read_source python collection redis source owner (fetch source) d).0.stored s ≡ d.stored s
  unfolding read_source
  read_source-IsConfined handlers source owner d named found s other =
      rw (other_source handlers job.kind source s named found other) refl

  run_handler-IsConfined :
      (character : CharacterDocument) (d : Data python collection redis)
      → IsConfined d (run_handler python collection redis fetch job character d)
  unfolding run_handler
  run_handler-IsConfined character d = elim (Option-cases job.corporation_id) [
    | inl personal ↦ (elim (Option-cases (lookup job.kind personal_handlers)) [
      | inl unknown ↦ rw (personal, unknown, run_handler) (unchanged d)
      | inr (source, found) ↦
          rw (personal, found, run_handler)
            (
              read_source-IsConfined personal_handlers source character.character_id d
                  (refl, (refl, (refl, (refl, tt)))) found,
              swallow_lem _,
            )
    ])
    | inr (corporation_id, corp) ↦ (elim (Option-cases (lookup job.kind corp_handlers)) [
      | inl unknown ↦ rw (corp, unknown, run_handler) (unchanged d)
      | inr (source, found) ↦ elim (Bool-cases (is_some character.corp_access_token)) [
        | inl token ↦
            rw (corp, found, token, run_handler)
              (
                unfold corp_list_or_none in
                    read_source-IsConfined corp_handlers source corporation_id d
                      (refl, (refl, (refl, tt))) found,
                swallow_lem _,
              )
        | inr no_token ↦ rw (corp, found, no_token, run_handler) (unchanged d)
      ]
    ])
  ]

  module _ (post : String → Result Response)
      (characters : Collection ℕ CharacterDocument document_id) (clock : Clock)
      (d : Data python collection redis) (s : Collection.Store characters) where
    -- The exception is one of the refresh of the tokens, for the character of the job.
    abbrev pub IsOfTokens : Exc → Type 0
    IsOfTokens exc =
        (character : CharacterDocument) × (characters.find_one job.character_id (λ doc. true) s
          ≡ some character)
        × ((ensure_fresh_tokens post characters clock character s).1 ≡ err exc)

    abbrev after : (Data python collection redis × Collection.Store characters) × Result (Unit {0})
    after = run_refresh_job python collection redis post characters clock fetch job (d, s)

    -- A job changes no rows but those of the source that it names, and an exception that leaves it is
    -- one of the refresh of the tokens, or is not an HTTP status.
    pub run_refresh_job_lem :
        ((source : Source)
          → (job.kind == cache_key_prefix source) ≡ false
          → after.0.0.stored source ≡ d.stored source)
        × ((exc : Exc) → after.1 ≡ err exc → IsOfTokens exc ⊎ (is_http_status exc ≡ false))
    unfolding run_refresh_job
    run_refresh_job_lem =
        elim (Option-cases (characters.find_one job.character_id (λ doc. true) s)) [
          | inl gone ↦
              rw (gone, run_refresh_job) (λ source other. refl, λ exc e. absurd (ground (arith, e)))
          | inr (character, found) ↦
              elim (Result-cases (ensure_fresh_tokens post characters clock character s).1) [
                | inl (raised, failed) ↦
                    rw (found, failed, run_refresh_job)
                      (
                        λ source other. refl,
                        λ exc e. inl (character, refl, failed ∙ ap err (err-injective e)),
                      )
                | inr (none, revoked) ↦
                    rw (found, revoked, run_refresh_job)
                      (λ source other. refl, λ exc e. absurd (ground (arith, e)))
                | inr (some fresh, renewed) ↦
                    let handled = run_handler-IsConfined fresh d in
                    rw (found, renewed, run_refresh_job) (handled.0, λ exc e. inr (handled.1 exc e))
              ]
        ]
