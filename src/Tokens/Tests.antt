-- ===== src/Tokens/Tests.antt =====
-- A character whose tokens are expired, with a service that renews them or fails for the
-- corporation's, and each theorem at a concrete input.
use eve_build.Prelude.{
  ℕ, ◌<◌, ◌≡◌, refl, Option, none, some, [], String, if◌then◌else◌, ◌==◌, string_eq, nat_eq, arith,
}
use eve_build.Prelude.Exc.{Result, ok, err, http_status}
use eve_build.External.Memory.{memory}
use eve_build.Tokens.{
  CharacterDocument, document_id, Response, Clock, refresh_access_token, personal_update,
  corp_update, persist, ensure_fresh_tokens,
}
use eve_build.Tokens.Persist.{
  GrantsTime, ensure_fresh_tokens-get, ensure_fresh_tokens_failing, ensure_fresh_tokens-fresh,
}

abbrev character : CharacterDocument
character = record {
  character_id = 7;
  character_name = "pilot";
  owner_hash = "hash";
  scopes = [];
  access_token = "old";
  refresh_token = "r1";
  access_token_expires_at = 100;
  created_at = 0;
  updated_at = 0;
  corporation_id = some 3;
  corp_scopes = some [];
  corp_access_token = some "old corp";
  corp_refresh_token = some "c1";
  corp_access_token_expires_at = some 100;
  home_corporation_id = none;
  home_alliance_id = none;
}

abbrev clock : Clock
clock = record {
  at_check = 200;
  at_token = 201;
  at_corp_check = 201;
  at_corp_token = 202;
  at_update = 202;
}

abbrev response : ℕ → Response
response status = record {
  status_code = status;
  access_token = some "new";
  refresh_token = some "r2";
  expires_in = some 1200;
}

-- The token `c1` is answered with a status of its own.
abbrev service : ℕ → String → Result Response
service corp_status token = ok (response (if token == "c1" then corp_status else 200))

abbrev stored : ℕ → Option CharacterDocument
stored id = if id == 7 then some character else none

abbrev renewed_character : CharacterDocument
renewed_character = record character {
  access_token = "new";
  refresh_token = "r2";
  access_token_expires_at = 1401;
  updated_at = 202;
  corp_scopes = none;
  corp_access_token = none;
  corp_refresh_token = none;
  corp_access_token_expires_at = none;
}

abbrev after : ℕ → (ℕ → Option CharacterDocument) × Result (Option CharacterDocument)
after corp_status =
    ensure_fresh_tokens (service corp_status) (memory document_id) clock character stored

-- The corporation's token is revoked: the personal tokens are renewed all the same.
after_revoked : after 400 ≡ ((after 400).0, ok (some renewed_character))
unfolding ensure_fresh_tokens personal_update corp_update persist refresh_access_token
after_revoked = refl

-- The service fails for the corporation's token, once the personal token is renewed.
after_failure : (after 502).1 ≡ err (http_status 502)
unfolding ensure_fresh_tokens personal_update corp_update persist refresh_access_token
after_failure = refl

ensure_fresh_tokens-get_example : (after 400).0 7 ≡ some renewed_character
ensure_fresh_tokens-get_example =
    ensure_fresh_tokens-get (service 400) (memory document_id) clock character renewed_character
      stored (after 400).0 refl after_revoked

failure_returns_none : (d : CharacterDocument) → (after 502).1 ≡ ok (some d) → ⊥
failure_returns_none d h = ground (arith, after_failure, h)

ensure_fresh_tokens_failing_example : (after 502).0 ≡ stored
ensure_fresh_tokens_failing_example =
    ensure_fresh_tokens_failing (service 502) (memory document_id) clock character stored
      failure_returns_none

service-GrantsTime : GrantsTime (service 400) (memory document_id)
unfolding refresh_access_token
service-GrantsTime token granted h = ground arith

ensure_fresh_tokens-fresh_example : 200 < 1401
ensure_fresh_tokens-fresh_example =
    ensure_fresh_tokens-fresh (service 400) (memory document_id) clock character renewed_character
      stored (after 400).0 service-GrantsTime (omega arith) after_revoked
