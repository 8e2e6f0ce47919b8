-- ===== src/Auth/Replay.antt =====
-- A callback of routes/auth.py that comes again.
use eve_build.Prelude.{
  ℕ, ◌≡◌, refl, sym, ◌∙◌, false, none, some, String, nat_eq, string_eq, Bool-cases, Option-cases,
  inl, inr,
}
use eve_build.Prelude.Exc.{Result}
use eve_build.Tokens.{TokenResponse}
use eve_build.Auth.{
  Session, Whitelist, CharacterClaims, PublicInfo, http_exception, pending, complete_login,
  is_connection, callback, fails,
}
use eve_build.Auth.Callback.{IsError, callback_cases, pending-some, is_connection-eq}

module _ (exchange_code_for_token : String → String → Result TokenResponse)
    (validate_access_token : String → Result CharacterClaims)
    (get_character_public_info : ℕ → Result PublicInfo) (settings : Whitelist) (now : ℕ)
    (code state : String) (session : Session) where
  -- Without a pending login or connection with the state.
  callback_unknown :
      is_connection state session.corp_pkce_state ≡ false
      → pending session.pkce_state session.pkce_verifier state ≡ none
      → callback exchange_code_for_token validate_access_token get_character_public_info settings
          now code state session
        ≡ fails session (http_exception 400)
  unfolding callback complete_login
  callback_unknown other unknown = rw (other, unknown, callback, complete_login) refl

module _ (exchange_code_for_token : String → String → Result TokenResponse)
    (validate_access_token : String → Result CharacterClaims)
    (get_character_public_info : ℕ → Result PublicInfo) (settings : Whitelist) where
  -- Where the pending login and the pending connection have different states, a callback that has
  -- succeeded is refused when it comes again with its state, whatever the code: status 400, and
  -- nothing is changed.
  pub callback-callback :
      (now : ℕ) (code state : String) (before : Session)
      → (before.pkce_state ≡ some state → before.corp_pkce_state ≡ some state → ⊥)
      → (IsError
            (callback exchange_code_for_token validate_access_token get_character_public_info
              settings now code state before).outcome
          → ⊥)
      → (later : ℕ) (other_code : String)
      → let after =
          (callback exchange_code_for_token validate_access_token get_character_public_info settings
            now code state before).session in
        callback exchange_code_for_token validate_access_token get_character_public_info settings
          later other_code state after
        ≡ fails after (http_exception 400)
  callback-callback now code state before distinct succeeded later other_code =
      let answer =
        callback exchange_code_for_token validate_access_token get_character_public_info settings
          now code state before in
      let unknown =
        callback_unknown exchange_code_for_token validate_access_token get_character_public_info
          settings later other_code state answer.session in
      elim (callback_cases exchange_code_for_token validate_access_token get_character_public_info
        settings now code state before) [
          | inl (same, (none_written, failed)) ↦ absurd (succeeded failed)
          | inr (inl login) ↦
              unknown
                (elim (Bool-cases (is_connection state answer.session.corp_pkce_state)) [
                  | inl again ↦ absurd (
                      distinct login.same_state (
                        sym login.connection_kept
                        ∙ is_connection-eq state answer.session.corp_pkce_state again))
                  | inr other ↦ other
                ])
                (rw login.state_used refl)
          | inr (inr connection) ↦
              unknown (rw connection.state_used refl)
                (elim (Option-cases
                  (pending answer.session.pkce_state answer.session.pkce_verifier state)) [
                    | inl gone ↦ gone
                    | inr (verifier, found) ↦ absurd (
                        distinct
                          (sym connection.login_kept
                            ∙ (pending-some answer.session.pkce_state answer.session.pkce_verifier
                                state verifier found).0)
                          connection.same_state)
                  ])
        ]
