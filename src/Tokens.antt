-- ===== src/Tokens.antt =====
-- services/character_tokens.py: the OAuth tokens of a character, refreshed when they are expired,
-- with `refresh_access_token` of services/eve_sso.py. Times are in seconds.
pub mod Persist
mod Tests
use eve_build.Prelude.{
  ℕ, ◌+◌, Bool, true, false, not, ◌&&◌, ◌||◌, Option, none, some, List, String, if◌then◌else◌, ◌==◌,
  nat_eq, leb, ltb, get_or, is_some,
}
use eve_build.Prelude.Exc.{
  Exc, http_status, http_error, key_error, Result, ok, err, ◌>>=◌, or_raise,
}
use eve_build.External.Mongo.{Collection}

-- models/character.py
pub record CharacterDocument : Type 0 where
  pub character_id : ℕ
  pub character_name : String
  pub owner_hash : String
  pub scopes : List String
  pub access_token : String
  pub refresh_token : String
  pub access_token_expires_at : ℕ
  pub created_at : ℕ
  pub updated_at : ℕ
  pub corporation_id : Option ℕ
  pub corp_scopes : Option (List String)
  pub corp_access_token : Option String
  pub corp_refresh_token : Option String
  pub corp_access_token_expires_at : Option ℕ
  pub home_corporation_id : Option ℕ
  pub home_alliance_id : Option ℕ

abbrev pub document_id : CharacterDocument → ℕ
document_id doc = doc.character_id

pub record TokenResponse : Type 0 where
  pub access_token : String
  pub refresh_token : String
  pub expires_in : ℕ

-- The answer of EVE SSO: a status, and the fields of its JSON, which may be missing.
pub record Response : Type 0 where
  pub status_code : ℕ
  pub access_token : Option String
  pub refresh_token : Option String
  pub expires_in : Option ℕ

-- The readings of the clock, in the order of the code.
pub record Clock : Type 0 where
  pub at_check : ℕ
  pub at_token : ℕ
  pub at_corp_check : ℕ
  pub at_corp_token : ℕ
  pub at_update : ℕ

-- `updates`: what it has under each key; a key of the corporation may have `None`.
pub record Updates : Type 0 where
  pub access_token : Option String
  pub refresh_token : Option String
  pub access_token_expires_at : Option ℕ
  pub corp_scopes : Option (Option (List String))
  pub corp_access_token : Option (Option String)
  pub corp_refresh_token : Option (Option String)
  pub corp_access_token_expires_at : Option (Option ℕ)
  pub updated_at : Option ℕ

abbrev pub no_updates : Updates
no_updates = record {
  access_token = none;
  refresh_token = none;
  access_token_expires_at = none;
  corp_scopes = none;
  corp_access_token = none;
  corp_refresh_token = none;
  corp_access_token_expires_at = none;
  updated_at = none;
}

-- `not updates`
abbrev pub is_empty : Updates → Bool
is_empty updates = not (
    is_some updates.access_token
    || is_some updates.refresh_token
    || is_some updates.access_token_expires_at
    || is_some updates.corp_scopes
    || is_some updates.corp_access_token
    || is_some updates.corp_refresh_token
    || is_some updates.corp_access_token_expires_at
    || is_some updates.updated_at)

-- `{"$set": updates}`
abbrev pub set_fields : Updates → CharacterDocument → CharacterDocument
set_fields updates doc = record doc {
  access_token = get_or updates.access_token doc.access_token;
  refresh_token = get_or updates.refresh_token doc.refresh_token;
  access_token_expires_at = get_or updates.access_token_expires_at doc.access_token_expires_at;
  corp_scopes = get_or updates.corp_scopes doc.corp_scopes;
  corp_access_token = get_or updates.corp_access_token doc.corp_access_token;
  corp_refresh_token = get_or updates.corp_refresh_token doc.corp_refresh_token;
  corp_access_token_expires_at =
      get_or updates.corp_access_token_expires_at doc.corp_access_token_expires_at;
  updated_at = get_or updates.updated_at doc.updated_at;
}

-- The assignments to the document, and then those to `updates`, which read it.
abbrev pub assign_personal : ℕ → TokenResponse → CharacterDocument → CharacterDocument
assign_personal now token document = record document {
  access_token = token.access_token;
  refresh_token = token.refresh_token;
  access_token_expires_at = now + token.expires_in;
}

abbrev pub note_personal : CharacterDocument → Updates → Updates
note_personal document updates = record updates {
  access_token = some document.access_token;
  refresh_token = some document.refresh_token;
  access_token_expires_at = some document.access_token_expires_at;
}

abbrev pub assign_corp : ℕ → TokenResponse → CharacterDocument → CharacterDocument
assign_corp now corp_token document = record document {
  corp_access_token = some corp_token.access_token;
  corp_refresh_token = some corp_token.refresh_token;
  corp_access_token_expires_at = some (now + corp_token.expires_in);
}

abbrev pub note_corp : CharacterDocument → Updates → Updates
note_corp document updates = record updates {
  corp_access_token = some document.corp_access_token;
  corp_refresh_token = some document.corp_refresh_token;
  corp_access_token_expires_at = some document.corp_access_token_expires_at;
}

abbrev pub clear_corp : CharacterDocument → CharacterDocument
clear_corp document = record document {
  corp_scopes = none;
  corp_access_token = none;
  corp_refresh_token = none;
  corp_access_token_expires_at = none;
}

abbrev pub note_cleared : Updates → Updates
note_cleared updates = record updates {
  corp_scopes = some none;
  corp_access_token = some none;
  corp_refresh_token = some none;
  corp_access_token_expires_at = some none;
}

-- `exc.response.status_code in (400, 401)`
abbrev pub is_revoked : Exc → Bool
is_revoked (http_status code) = code == 400 || code == 401
is_revoked _ = false

-- `post` is the request to the token endpoint with a refresh token.
module _ (post : String → Result Response) where
  -- `raise_for_status` raises unless the status is 2xx.
  unfoldable pub refresh_access_token : String → Result TokenResponse
  refresh_access_token token = do
    response ← post token
    checked ←
        if leb 200 response.status_code && ltb response.status_code 300
        then ok response
        else err (http_status response.status_code)
    access ← or_raise key_error checked.access_token
    refresh ← or_raise key_error checked.refresh_token
    expires ← or_raise key_error checked.expires_in
    ok (record { access_token = access; refresh_token = refresh; expires_in = expires })

  -- The document and `updates` after the first `if`; `none` means that the personal refresh token is
  -- revoked.
  unfoldable pub personal_update :
      Clock → CharacterDocument → Result (Option (CharacterDocument × Updates))
  personal_update clock document =
      if leb document.access_token_expires_at clock.at_check
      then elim (refresh_access_token document.refresh_token) [
        | ok token ↦
            let changed = assign_personal clock.at_token token document in
            ok (some (changed, note_personal changed no_updates))
        | err exc ↦ if is_revoked exc then ok none else err exc
      ]
      else ok (some (document, no_updates))

  -- Those after the second.
  unfoldable pub corp_update :
      Clock → CharacterDocument → Updates → Result (CharacterDocument × Updates)
  corp_update clock document updates = elim (document.corp_refresh_token) [
    | none ↦ ok (document, updates)
    | some refresh_token ↦ elim (document.corp_access_token_expires_at) [
      | none ↦ ok (document, updates)
      | some expires_at ↦
          if leb expires_at clock.at_corp_check
          then elim (refresh_access_token refresh_token) [
            | ok corp_token ↦
                let changed = assign_corp clock.at_corp_token corp_token document in
                ok (changed, note_corp changed updates)
            | err exc ↦
                if is_revoked exc then ok (clear_corp document, note_cleared updates) else err exc
          ]
          else ok (document, updates)
    ]
  ]

  module _ (characters : Collection ℕ CharacterDocument document_id) where
    open characters use {Store, update_one}

    -- What is in `updates` is written to MongoDB.
    unfoldable pub persist : Clock → CharacterDocument → Updates → Store → CharacterDocument × Store
    persist clock document updates s =
        let changed = record document { updated_at = clock.at_update } in
        let written = record updates { updated_at = some changed.updated_at } in
        if is_empty updates
        then (document, s)
        else (changed, (update_one document.character_id (λ doc. true) (set_fields written) s).0)

    unfoldable pub ensure_fresh_tokens :
        Clock → CharacterDocument → Store → Store × Result (Option CharacterDocument)
    ensure_fresh_tokens clock document s = elim (personal_update clock document) [
      | err exc ↦ (s, err exc)
      | ok found ↦ elim found [
        | none ↦ (s, ok none)
        | some changed ↦ elim (corp_update clock changed.0 changed.1) [
          | err exc ↦ (s, err exc)
          | ok final ↦
              let (document', s') = persist clock final.0 final.1 s in (s', ok (some document'))
        ]
      ]
    ]
