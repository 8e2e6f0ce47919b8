-- ===== src/Auth/Callback.antt =====
-- The branches of the callback of routes/auth.py.
use eve_build.Prelude.{
  ℕ, ◌≡◌, ◌⊎◌, refl, sym, ap, ◌∙◌, true, Option, none, some, [], ◌∷◌, String, ◌==◌, nat_eq,
  string_eq, Bool-cases, Option-cases, arith, inl, inr,
}
use eve_build.Prelude.Dict.{eq_of_beq}
use eve_build.Prelude.Exc.{Result, ok, Result-cases}
use eve_build.Tokens.{TokenResponse}
use eve_build.Auth.{
  Session, Whitelist, CharacterClaims, PublicInfo, upsert_character, set_corporation, Outcome,
  redirect, http_exception, raised, Answer, pending, connecting, identify, complete_login,
  complete_corp_connection, is_connection, callback, is_character_allowed, login_document,
}

pub pending-some :
    (expected verifier : Option String) (state found : String)
    → pending expected verifier state ≡ some found
    → (expected ≡ some state) × (verifier ≡ some found)
pending-some (some expected) (some verifier) state found h = elim (Bool-cases (state == expected)) [
  | inl same ↦
      let e : state ≡ expected = eq_of_beq state expected same in (rw e refl, ground (arith, h))
  | inr other ↦ absurd (ground (arith, other, h))
]
pending-some (some expected) none state found h = absurd (ground (arith, h))
pending-some none verifier state found h = absurd (ground (arith, h))

connecting-some :
    (verifier : Option String) (character_id : Option ℕ) (found : String) (id : ℕ)
    → connecting verifier character_id ≡ some (found, id)
    → (verifier ≡ some found) × (character_id ≡ some id)
connecting-some (some verifier) (some character_id) found id h = ground (arith, h)
connecting-some (some verifier) none found id h = absurd (ground (arith, h))
connecting-some none character_id found id h = absurd (ground (arith, h))

pub is_connection-eq :
    (state : String) (expected : Option String)
    → is_connection state expected ≡ true
    → expected ≡ some state
is_connection-eq state none h = absurd (ground (arith, h))
is_connection-eq state (some expected) h =
    let e : state ≡ expected = eq_of_beq state expected h in ap (λ x. some x) (sym e)

-- The outcome is no redirect.
abbrev pub IsError : Outcome → Type 0
IsError (redirect path) = ⊥
IsError (http_exception status_code) = Unit
IsError (raised exc) = Unit

-- Nothing is changed.
abbrev pub Fails : Session → Answer → Type 0
Fails before answer = (answer.session ≡ before) × ((answer.writes ≡ []) × IsError answer.outcome)

module _ (exchange_code_for_token : String → String → Result TokenResponse)
    (validate_access_token : String → Result CharacterClaims)
    (get_character_public_info : ℕ → Result PublicInfo) (settings : Whitelist) where
  -- What EVE SSO and ESI gave for the code.
  abbrev pub Gives : String → String → TokenResponse → CharacterClaims → PublicInfo → Type 0
  Gives code code_verifier token claims public_info =
      (identify exchange_code_for_token validate_access_token code code_verifier
        ≡ ok (token, claims))
      × (get_character_public_info claims.character_id ≡ ok public_info)

  -- The state is the one of the pending login, whose verifier the code is exchanged with, and the
  -- character is allowed. The login is over then, and the character is logged in and stored.
  pub record LogsIn (now : ℕ) (code state : String) (before : Session) (answer : Answer)
      : Type 0 where
    pub code_verifier : String
    pub token : TokenResponse
    pub claims : CharacterClaims
    pub public_info : PublicInfo
    pub same_state : before.pkce_state ≡ some state
    pub same_verifier : before.pkce_verifier ≡ some code_verifier
    pub gives : Gives code code_verifier token claims public_info
    pub allowed :
        is_character_allowed settings claims.character_id public_info.corporation_id
          public_info.alliance_id
        ≡ true
    pub logged_in : answer.session.character_id ≡ some claims.character_id
    pub state_used : answer.session.pkce_state ≡ none
    pub connection_kept : answer.session.corp_pkce_state ≡ before.corp_pkce_state
    pub writes : answer.writes ≡ upsert_character (login_document token claims public_info now) ∷ []

  -- The state is the one of the pending connection, and the character is the one that is logged in,
  -- and stays so. Only its corporation is stored.
  pub record Connects (now : ℕ) (code state : String) (before : Session) (answer : Answer)
      : Type 0 where
    pub code_verifier : String
    pub token : TokenResponse
    pub claims : CharacterClaims
    pub public_info : PublicInfo
    pub same_state : before.corp_pkce_state ≡ some state
    pub same_verifier : before.corp_pkce_verifier ≡ some code_verifier
    pub gives : Gives code code_verifier token claims public_info
    pub same_character : before.character_id ≡ some claims.character_id
    pub still_in : answer.session.character_id ≡ before.character_id
    pub state_used : answer.session.corp_pkce_state ≡ none
    pub login_kept : answer.session.pkce_state ≡ before.pkce_state
    pub writes :
        answer.writes
        ≡ set_corporation claims.character_id public_info.corporation_id claims.scopes token now
          ∷ []

  module _ (now : ℕ) (code state : String) (before : Session) where
    complete_login_cases :
        let answer =
          complete_login exchange_code_for_token validate_access_token get_character_public_info
            settings now code state before in
        Fails before answer ⊎ LogsIn now code state before answer
    unfolding complete_login
    complete_login_cases =
        elim (Option-cases (pending before.pkce_state before.pkce_verifier state)) [
          | inl unknown ↦ rw (unknown, complete_login) (inl (refl, (refl, tt)))
          | inr (verifier, found) ↦
              elim (Result-cases
                (identify exchange_code_for_token validate_access_token code verifier)) [
                  | inl (exc, bad) ↦ rw (found, bad, complete_login) (inl (refl, (refl, tt)))
                  | inr ((token, claims), good) ↦
                      elim (Result-cases (get_character_public_info claims.character_id)) [
                        | inl (exc, bad) ↦
                            rw (found, good, bad, complete_login) (inl (refl, (refl, tt)))
                        | inr (public_info, info) ↦
                            elim (Bool-cases (
                              is_character_allowed settings claims.character_id
                                public_info.corporation_id public_info.alliance_id)) [
                                  | inr barred ↦
                                      rw (found, good, info, barred, complete_login)
                                        (inl (refl, (refl, tt)))
                                  | inl welcome ↦
                                      let (same_state, same_verifier) =
                                        pending-some before.pkce_state before.pkce_verifier state
                                          verifier found in
                                      rw (found, good, info, welcome, complete_login)
                                        (inr (record {
                                          code_verifier = verifier;
                                          token = token;
                                          claims = claims;
                                          public_info = public_info;
                                          same_state = same_state;
                                          same_verifier = same_verifier;
                                          gives = (good, info);
                                          allowed = welcome;
                                          logged_in = refl;
                                          state_used = refl;
                                          connection_kept = refl;
                                          writes = refl;
                                        }))
                                ]
                      ]
                ]
        ]

    complete_corp_connection_cases :
        before.corp_pkce_state ≡ some state
        → let answer =
            complete_corp_connection exchange_code_for_token validate_access_token
              get_character_public_info settings now code before in
          Fails before answer ⊎ Connects now code state before answer
    unfolding complete_corp_connection
    complete_corp_connection_cases expected =
        elim (Option-cases (connecting before.corp_pkce_verifier before.character_id)) [
          | inl unknown ↦ rw (unknown, complete_corp_connection) (inl (refl, (refl, tt)))
          | inr ((verifier, id), found) ↦
              elim (Result-cases
                (identify exchange_code_for_token validate_access_token code verifier)) [
                  | inl (exc, bad) ↦
                      rw (found, bad, complete_corp_connection) (inl (refl, (refl, tt)))
                  | inr ((token, claims), good) ↦ elim (Bool-cases (claims.character_id == id)) [
                    | inr other ↦
                        rw (found, good, other, complete_corp_connection) (inl (refl, (refl, tt)))
                    | inl same ↦
                        elim (Result-cases (get_character_public_info claims.character_id)) [
                          | inl (exc, bad) ↦
                              rw (found, good, same, bad, complete_corp_connection)
                                (inl (refl, (refl, tt)))
                          | inr (public_info, info) ↦
                              let (same_verifier, character) =
                                connecting-some before.corp_pkce_verifier before.character_id
                                  verifier id found in
                              rw (found, good, same, info, complete_corp_connection)
                                (inr (record {
                                  code_verifier = verifier;
                                  token = token;
                                  claims = claims;
                                  public_info = public_info;
                                  same_state = expected;
                                  same_verifier = same_verifier;
                                  gives = (good, info);
                                  same_character =
                                      character
                                      ∙ ap (λ i. some i)
                                          (sym (eq_of_beq claims.character_id id same));
                                  still_in = refl;
                                  state_used = refl;
                                  login_kept = refl;
                                  writes = refl;
                                }))
                        ]
                  ]
                ]
        ]

    -- A callback fails with an error and changes nothing, or it logs an allowed character in, by the
    -- state of the pending login, or it connects the corporation of the character that is logged in,
    -- by the state of the pending connection.
    pub callback_cases :
        let answer =
          callback exchange_code_for_token validate_access_token get_character_public_info settings
            now code state before in
        Fails before answer
        ⊎ (LogsIn now code state before answer ⊎ Connects now code state before answer)
    unfolding callback
    callback_cases = elim (Bool-cases (is_connection state before.corp_pkce_state)) [
      | inl connection ↦
          rw (connection, callback)
            (elim (complete_corp_connection_cases
              (is_connection-eq state before.corp_pkce_state connection)) [
                | inl failed ↦ inl failed
                | inr connected ↦ inr (inr connected)
              ])
      | inr other ↦
          rw (other, callback)
            (elim complete_login_cases [
              | inl failed ↦ inl failed
              | inr logged_in ↦ inr (inl logged_in)
            ])
    ]
