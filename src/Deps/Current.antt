-- ===== src/Deps/Current.antt =====
-- What a request needs to be answered for a character.
use eve_build.Prelude.{
  ℕ, ◌≡◌, ◌⊎◌, refl, sym, ap, ◌∙◌, true, Option, none, some, String, nat_eq, inl, inr, Bool-cases,
  Option-cases,
}
use eve_build.Prelude.Exc.{Result, ok, err, Result-cases}
use eve_build.External.Mongo.{Collection, keep}
use eve_build.Tokens.{CharacterDocument, document_id, Response, Clock, ensure_fresh_tokens}
use eve_build.Auth.{Session, Whitelist}
use eve_build.Deps.{is_still_allowed, get_current_character_optional}

keep_all : (found : Option CharacterDocument) → keep (λ doc. true) found ≡ found
keep_all none = refl
keep_all (some document) = refl

module _ (post : String → Result Response) (characters : Collection ℕ CharacterDocument document_id)
    (settings : Whitelist) where
  open characters use {Store, get, find_one}

  find_one_eq : (id : ℕ) (s : Store) → find_one id (λ doc. true) s ≡ get id s
  find_one_eq id s = characters.find_one-get id (λ doc. true) s ∙ keep_all (get id s)

  -- The request is for the character of the session, whose stored document the whitelists allow and
  -- whose tokens were made fresh.
  abbrev pub IsCurrent : Clock → Session → Store → Session → Store → CharacterDocument → Type 0
  IsCurrent clock session s session' s' d =
      (character_id : ℕ) × (document : CharacterDocument) × (session.character_id
        ≡ some character_id)
      × (get character_id s ≡ some document)
      × (is_still_allowed settings document ≡ true)
      × (ensure_fresh_tokens post characters clock document s ≡ (s', ok (some d)))
      × (session' ≡ session)

  -- Nobody is logged in after the call, unless with an id that has no document.
  abbrev pub IsAnonymous : Session → Store → Type 0
  IsAnonymous session s =
      (session.character_id ≡ none)
      ⊎ ((id : ℕ) × (session.character_id ≡ some id) × (get id s ≡ none))

  abbrev pub Ends :
      Clock → Session → Store → Session × (Store × Result (Option CharacterDocument)) → Type 0
  Ends clock session s (session', (s', err exc)) = session' ≡ session
  Ends clock session s (session', (s', ok none)) = IsAnonymous session' s
  Ends clock session s (session', (s', ok (some d))) = IsCurrent clock session s session' s' d

  -- A call returns a document only for the character of the session, whose stored document the
  -- whitelists allow and whose tokens were made fresh; where it returns none, nobody is logged in
  -- afterwards, unless with an id that has no document; and where it raises, the session is kept.
  pub get_current_character_optional-Ends :
      (clock : Clock) (session : Session) (s : Store)
      → Ends clock session s
          (get_current_character_optional post characters settings clock session s)
  unfolding get_current_character_optional
  get_current_character_optional-Ends clock session s = elim (Option-cases session.character_id) [
    | inl nobody ↦ rw (nobody, get_current_character_optional) (inl nobody)
    | inr (id, logged_in) ↦ elim (Option-cases (find_one id (λ doc. true) s)) [
      | inl missing ↦
          rw (logged_in, missing, get_current_character_optional)
            (inr (id, logged_in, sym (find_one_eq id s) ∙ missing))
      | inr (document, found) ↦ elim (Bool-cases (is_still_allowed settings document)) [
        | inr barred ↦ rw (logged_in, found, barred, get_current_character_optional) (inl refl)
        | inl allowed ↦
            let kept = ap (λ o. record session { character_id = o }) logged_in in
            let ran = ensure_fresh_tokens post characters clock document s in
            elim (Result-cases ran.1) [
              | inl (exc, failed) ↦
                  rw (logged_in, found, allowed, failed, get_current_character_optional) kept
              | inr (result, returned) ↦ elim (Option-cases result) [
                | inl none_left ↦
                    rw
                      (
                        logged_in,
                        found,
                        allowed,
                        returned ∙ ap (λ r. ok r) none_left,
                        get_current_character_optional,
                      )
                      (inl refl)
                | inr (d, fresh) ↦
                    let gives : ran.1 ≡ ok (some d) = returned ∙ ap (λ r. ok r) fresh in
                    rw (logged_in, found, allowed, gives, get_current_character_optional)
                      (
                        id,
                        document,
                        refl,
                        sym (find_one_eq id s) ∙ found,
                        allowed,
                        ap (λ r. (ran.0, r)) gives,
                        kept,
                      )
              ]
            ]
      ]
    ]
  ]
