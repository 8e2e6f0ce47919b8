-- ===== src/Auth/Tests.antt =====
-- Logins on concrete sessions.
use eve_build.Prelude.{
  ℕ, ◌≡◌, ◌⊎◌, refl, none, some, [], ◌∷◌, String, ◌==◌, nat_eq, string_eq, if◌then◌else◌, arith,
}
use eve_build.Prelude.Exc.{Result, ok, err, http_status}
use eve_build.Tokens.{TokenResponse}
use eve_build.Auth.{
  Session, Whitelist, CharacterClaims, PublicInfo, Answer, redirect, http_exception, login,
  connect_corp, callback, fails, is_character_allowed, complete_login, complete_corp_connection,
}
use eve_build.Auth.Callback.{IsError, Fails, LogsIn, Connects, callback_cases}
use eve_build.Auth.Replay.{callback-callback}

abbrev exchange : String → String → Result TokenResponse
exchange code code_verifier =
    if code_verifier == "v"
    then ok (record { access_token = code; refresh_token = "r"; expires_in = 1200 })
    else err (http_status 400)

abbrev validate : String → Result CharacterClaims
validate token =
    ok (record { character_id = 7; character_name = "Ada"; owner_hash = "h"; scopes = [] })

abbrev public_info : ℕ → Result PublicInfo
public_info id = ok (record { corporation_id = 98; alliance_id = some 99 })

-- One alliance is let in.
abbrev alliance_only : Whitelist
alliance_only = record { character_ids = []; corporation_ids = []; alliance_ids = 99 ∷ [] }

abbrev nobody : Whitelist
nobody = record { character_ids = 8 ∷ []; corporation_ids = []; alliance_ids = [] }

abbrev visitor : Session
visitor = record {
  character_id = none;
  pkce_verifier = none;
  pkce_state = none;
  corp_pkce_verifier = none;
  corp_pkce_state = none;
}

abbrev started : Session
started = login "s" "v" visitor

abbrev answer : Answer
answer = callback exchange validate public_info alliance_only 100 "c" "s" started

callback-alliance_only : (answer.outcome ≡ redirect "/") × (answer.session.character_id ≡ some 7)
unfolding callback complete_login is_character_allowed
callback-alliance_only = (refl, refl)

callback-nobody :
    callback exchange validate public_info nobody 100 "c" "s" started
    ≡ fails started (http_exception 403)
unfolding callback complete_login is_character_allowed
callback-nobody = refl

callback-connect_corp :
    (callback exchange validate public_info alliance_only 100 "c" "t"
      (connect_corp "t" "v" answer.session)).outcome
    ≡ redirect "/settings"
unfolding callback complete_login complete_corp_connection is_character_allowed
callback-connect_corp = refl

callback_cases_example :
    Fails started answer
    ⊎ (LogsIn exchange validate public_info alliance_only 100 "c" "s" started answer
        ⊎ Connects exchange validate public_info alliance_only 100 "c" "s" started answer)
callback_cases_example =
    callback_cases exchange validate public_info alliance_only 100 "c" "s" started

started-distinct : started.pkce_state ≡ some "s" → started.corp_pkce_state ≡ some "s" → ⊥
started-distinct h none_pending = ground (arith, none_pending)

answer-succeeds : IsError answer.outcome → ⊥
unfolding callback complete_login is_character_allowed
answer-succeeds failed = failed

callback-callback_example :
    callback exchange validate public_info alliance_only 101 "c2" "s" answer.session
    ≡ fails answer.session (http_exception 400)
callback-callback_example =
    callback-callback exchange validate public_info alliance_only 100 "c" "s" started
      started-distinct answer-succeeds 101 "c2"
