-- ===== src/Deps.antt =====
-- app/deps.py: the character whose request it is, with fresh tokens.
pub mod Current
mod Tests
use eve_build.Prelude.{ℕ, Bool, true, false, Option, none, some, String, get_or, nat_eq}
use eve_build.Prelude.Exc.{Exc, Result, ok, err}
use eve_build.External.Mongo.{Collection}
use eve_build.Tokens.{CharacterDocument, document_id, Response, Clock, ensure_fresh_tokens}
use eve_build.Auth.{Session, Whitelist, is_character_allowed}

-- `request.session.pop("character_id", None)`
abbrev pub pop_character : Session → Session
pop_character session = record session { character_id = none }

abbrev pub is_still_allowed : Whitelist → CharacterDocument → Bool
is_still_allowed settings document =
    is_character_allowed settings document.character_id (get_or document.home_corporation_id 0)
      document.home_alliance_id

module _ (post : String → Result Response) (characters : Collection ℕ CharacterDocument document_id)
    (settings : Whitelist) where
  open characters use {Store, find_one}

  -- The session and the collection after the call, and what it returns or raises.
  unfoldable pub get_current_character_optional :
      Clock → Session → Store → Session × (Store × Result (Option CharacterDocument))
  get_current_character_optional clock session s = elim session.character_id [
    | none ↦ (session, (s, ok none))
    | some character_id ↦ elim (find_one character_id (λ doc. true) s) [
      | none ↦ (session, (s, ok none))
      | some document ↦ elim (is_still_allowed settings document) [
        | false ↦ (pop_character session, (s, ok none))
        | true ↦
            let (s', refreshed) = ensure_fresh_tokens post characters clock document s in
            elim refreshed [
              | err exc ↦ (session, (s', err exc))
              | ok found ↦ elim found [
                | none ↦ (pop_character session, (s', ok none))
                | some fresh ↦ (session, (s', ok (some fresh)))
              ]
            ]
      ]
    ]
  ]
