-- ===== src/Deps/Tests.antt =====
-- A request of a character that is logged in, and of one that is no longer allowed.
use eve_build.Prelude.{
  ℕ, ◌≡◌, refl, Option, none, some, [], ◌∷◌, String, if◌then◌else◌, ◌==◌, nat_eq,
}
use eve_build.Prelude.Exc.{Result, ok, err, http_error}
use eve_build.External.Memory.{memory}
use eve_build.Tokens.{
  CharacterDocument, document_id, Response, Clock, ensure_fresh_tokens, personal_update,
  corp_update, persist,
}
use eve_build.Auth.{Session, Whitelist, is_character_allowed}
use eve_build.Deps.{pop_character, get_current_character_optional}
use eve_build.Deps.Current.{Ends, get_current_character_optional-Ends}

abbrev character : CharacterDocument
character = record {
  character_id = 7;
  character_name = "Ada";
  owner_hash = "h";
  scopes = [];
  access_token = "a";
  refresh_token = "r";
  access_token_expires_at = 300;
  created_at = 0;
  updated_at = 0;
  corporation_id = none;
  corp_scopes = none;
  corp_access_token = none;
  corp_refresh_token = none;
  corp_access_token_expires_at = none;
  home_corporation_id = some 98;
  home_alliance_id = none;
}

abbrev clock : Clock
clock = record {
  at_check = 200;
  at_token = 201;
  at_corp_check = 201;
  at_corp_token = 202;
  at_update = 202;
}

abbrev no_service : String → Result Response
no_service token = err http_error

abbrev stored : ℕ → Option CharacterDocument
stored id = if id == 7 then some character else none

abbrev session : Session
session = record {
  character_id = some 7;
  pkce_verifier = none;
  pkce_state = none;
  corp_pkce_verifier = none;
  corp_pkce_state = none;
}

abbrev one_corporation : ℕ → Whitelist
one_corporation id = record { character_ids = []; corporation_ids = id ∷ []; alliance_ids = [] }

get_current_character_optional-one_corporation :
    get_current_character_optional no_service
      (memory document_id)
      (one_corporation 98)
      clock
      session
      stored
    ≡ (session, (stored, ok (some character)))
unfolding get_current_character_optional is_character_allowed ensure_fresh_tokens personal_update
    corp_update persist
get_current_character_optional-one_corporation = refl

get_current_character_optional_barred :
    get_current_character_optional no_service
      (memory document_id)
      (one_corporation 99)
      clock
      session
      stored
    ≡ (pop_character session, (stored, ok none))
unfolding get_current_character_optional is_character_allowed
get_current_character_optional_barred = refl

get_current_character_optional-Ends_example :
    Ends no_service (memory document_id) (one_corporation 98) clock session stored (
      get_current_character_optional no_service
        (memory document_id)
        (one_corporation 98)
        clock
        session
        stored)
get_current_character_optional-Ends_example =
    get_current_character_optional-Ends no_service (memory document_id) (one_corporation 98) clock
      session stored
