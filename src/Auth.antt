-- ===== src/Auth.antt =====
-- routes/auth.py and services/access_control.py: the logins, which EVE SSO answers over the callback
-- route, and who may log in. The requests to EVE SSO and ESI, and the check of a token's signature,
-- are parameters; a write to MongoDB is a value of Write.
pub mod Callback
pub mod Replay
mod Tests
use eve_build.Prelude.{
  ℕ, ◌+◌, Bool, true, false, not, ◌&&◌, ◌||◌, Option, none, some, List, [], ◌∷◌, String,
  if◌then◌else◌, ◌==◌, nat_eq, string_eq, contains,
}
use eve_build.Prelude.Exc.{Exc, Result, ok, err, ◌>>=◌}
use eve_build.Tokens.{CharacterDocument, TokenResponse}

-- `request.session`
pub record Session : Type 0 where
  pub character_id : Option ℕ
  pub pkce_verifier : Option String
  pub pkce_state : Option String
  pub corp_pkce_verifier : Option String
  pub corp_pkce_state : Option String

-- The sets that `_parse_id_set` reads from the settings.
pub record Whitelist : Type 0 where
  pub character_ids : List ℕ
  pub corporation_ids : List ℕ
  pub alliance_ids : List ℕ

pub record CharacterClaims : Type 0 where
  pub character_id : ℕ
  pub character_name : String
  pub owner_hash : String
  pub scopes : List String

pub record PublicInfo : Type 0 where
  pub corporation_id : ℕ
  pub alliance_id : Option ℕ

abbrev no_ids : List ℕ → Bool
no_ids [] = true
no_ids _ = false

abbrev in_alliances : Option ℕ → List ℕ → Bool
in_alliances none ids = false
in_alliances (some id) ids = contains id ids

unfoldable pub is_character_allowed : Whitelist → ℕ → ℕ → Option ℕ → Bool
is_character_allowed settings character_id corporation_id alliance_id =
    if no_ids settings.character_ids
      && no_ids settings.corporation_ids
      && no_ids settings.alliance_ids
    then true
    else if contains character_id settings.character_ids
    then true
    else if contains corporation_id settings.corporation_ids
    then true
    else in_alliances alliance_id settings.alliance_ids

pub data Write : Type 0 where
  -- `$set` of the document but `created_at`, which is set on an insertion only.
  upsert_character : CharacterDocument → Write
  -- `$set` of the fields of the corporation, for the character with the id.
  set_corporation : ℕ → ℕ → List String → TokenResponse → ℕ → Write

pub data Outcome : Type 0 where
  redirect : String → Outcome
  http_exception : ℕ → Outcome
  raised : Exc → Outcome

-- The session and the writes after a request, and its outcome.
pub record Answer : Type 0 where
  pub session : Session
  pub writes : List Write
  pub outcome : Outcome

abbrev pub fails : Session → Outcome → Answer
fails before reason = record { session = before; writes = []; outcome = reason }

-- The verifier of the login, if its state is the expected one.
abbrev pub pending : Option String → Option String → String → Option String
pending (some expected) (some verifier) state =
    if expected == "" || verifier == "" || not (state == expected) then none else some verifier
pending (some expected) none state = none
pending none verifier state = none

-- The verifier of the connection, and the character that is logged in.
abbrev pub connecting : Option String → Option ℕ → Option (String × ℕ)
connecting (some verifier) (some character_id) =
    if verifier == "" then none else some (verifier, character_id)
connecting (some verifier) none = none
connecting none character_id = none

abbrev pub login_document : TokenResponse → CharacterClaims → PublicInfo → ℕ → CharacterDocument
login_document token claims public_info now = record {
  character_id = claims.character_id;
  character_name = claims.character_name;
  owner_hash = claims.owner_hash;
  scopes = claims.scopes;
  access_token = token.access_token;
  refresh_token = token.refresh_token;
  access_token_expires_at = now + token.expires_in;
  created_at = now;
  updated_at = now;
  corporation_id = none;
  corp_scopes = none;
  corp_access_token = none;
  corp_refresh_token = none;
  corp_access_token_expires_at = none;
  home_corporation_id = some public_info.corporation_id;
  home_alliance_id = public_info.alliance_id;
}

-- `state == request.session.get("corp_pkce_state")`
abbrev pub is_connection : String → Option String → Bool
is_connection state none = false
is_connection state (some expected) = state == expected

module _ (exchange_code_for_token : String → String → Result TokenResponse)
    (validate_access_token : String → Result CharacterClaims) where
  abbrev pub identify : String → String → Result (TokenResponse × CharacterClaims)
  identify code code_verifier = do
    token ← exchange_code_for_token code code_verifier
    claims ← validate_access_token token.access_token
    ok (token, claims)

abbrev pub connect : Session → ℕ → TokenResponse → CharacterClaims → PublicInfo → Answer
connect before now token claims public_info = record {
  session = record before { corp_pkce_verifier = none; corp_pkce_state = none };
  writes =
      set_corporation claims.character_id public_info.corporation_id claims.scopes token now ∷ [];
  outcome = redirect "/settings";
}

module _ (settings : Whitelist) where
  abbrev pub log_in : Session → ℕ → TokenResponse → CharacterClaims → PublicInfo → Answer
  log_in before now token claims public_info =
      if is_character_allowed settings claims.character_id public_info.corporation_id
        public_info.alliance_id
      then record {
        session = record before {
          pkce_verifier = none;
          pkce_state = none;
          character_id = some claims.character_id;
        };
        writes = upsert_character (login_document token claims public_info now) ∷ [];
        outcome = redirect "/";
      }
      else fails before (http_exception 403)

module _ (exchange_code_for_token : String → String → Result TokenResponse)
    (validate_access_token : String → Result CharacterClaims)
    (get_character_public_info : ℕ → Result PublicInfo) (settings : Whitelist) where
  unfoldable pub complete_login : ℕ → String → String → Session → Answer
  complete_login now code state before =
      elim (pending before.pkce_state before.pkce_verifier state) [
        | none ↦ fails before (http_exception 400)
        | some code_verifier ↦
            elim (identify exchange_code_for_token validate_access_token code code_verifier) [
              | err exc ↦ fails before (raised exc)
              | ok (token, claims) ↦ elim (get_character_public_info claims.character_id) [
                | err exc ↦ fails before (raised exc)
                | ok public_info ↦ log_in settings before now token claims public_info
              ]
            ]
      ]

  unfoldable pub complete_corp_connection : ℕ → String → Session → Answer
  complete_corp_connection now code before =
      elim (connecting before.corp_pkce_verifier before.character_id) [
        | none ↦ fails before (http_exception 400)
        | some (code_verifier, character_id) ↦
            elim (identify exchange_code_for_token validate_access_token code code_verifier) [
              | err exc ↦ fails before (raised exc)
              | ok (token, claims) ↦
                  if not (claims.character_id == character_id)
                  then fails before (http_exception 400)
                  else elim (get_character_public_info claims.character_id) [
                    | err exc ↦ fails before (raised exc)
                    | ok public_info ↦ connect before now token claims public_info
                  ]
            ]
      ]

  unfoldable pub callback : ℕ → String → String → Session → Answer
  callback now code state before =
      if is_connection state before.corp_pkce_state
      then complete_corp_connection now code before
      else complete_login now code state before

-- `login`, with the state and the verifier that it generates.
abbrev pub login : String → String → Session → Session
login state code_verifier before = record before {
  pkce_verifier = some code_verifier;
  pkce_state = some state;
}

-- `connect_corp`
abbrev pub connect_corp : String → String → Session → Session
connect_corp state code_verifier before = record before {
  corp_pkce_verifier = some code_verifier;
  corp_pkce_state = some state;
}

-- `logout`
abbrev pub logout : Session → Session
logout before = record {
  character_id = none;
  pkce_verifier = none;
  pkce_state = none;
  corp_pkce_verifier = none;
  corp_pkce_state = none;
}
