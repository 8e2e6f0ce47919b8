-- ===== src/Tokens/Persist.antt =====
-- What services/character_tokens.py returns and what it stores.
use mathlib.Core.Path.{subst}
use eve_build.Prelude.{
  ℕ, ◌+◌, ◌≡◌, ◌<◌, ◌≤◌, ◌⊎◌, refl, sym, ap, ◌∙◌, true, Option, none, some, String, if◌then◌else◌,
  ◌==◌, nat_eq, leb, arith, Bool-cases, Option-cases, inl, inr,
}
use eve_build.Prelude.Exc.{Result, ok, err, Result-cases, ok-injective}
use eve_build.Prelude.Dict.{beq_self}
use eve_build.External.Mongo.{Collection}
use eve_build.Tokens.{
  CharacterDocument, document_id, Response, TokenResponse, Clock, Updates, no_updates, set_fields,
  assign_personal, note_personal, assign_corp, note_corp, clear_corp, note_cleared, is_empty,
  is_revoked, refresh_access_token, personal_update, corp_update, persist, ensure_fresh_tokens,
}

-- Where nothing is to be set, nothing is.
set_fields-is_empty :
    (updates : Updates) (doc : CharacterDocument)
    → is_empty updates ≡ true
    → set_fields updates doc ≡ doc
set_fields-is_empty updates doc h = ground arith

module _ (post : String → Result Response)
    (characters : Collection ℕ CharacterDocument document_id) where
  open characters use {Store, get}

  -- Writing `updates` to the document as it came makes it what the document is now.
  abbrev IsMirror : CharacterDocument → CharacterDocument × Updates → Type 0
  IsMirror original (document, updates) = set_fields updates original ≡ document

  -- The document was not expired, or its tokens were granted.
  abbrev IsRenewed : Clock → CharacterDocument → CharacterDocument → Type 0
  IsRenewed clock original document =
      (clock.at_check < document.access_token_expires_at)
      ⊎ ((token : TokenResponse) × (refresh_access_token post original.refresh_token ≡ ok token)
          × (document.access_token_expires_at ≡ clock.at_token + token.expires_in))

  abbrev AfterPersonal : Clock → CharacterDocument → CharacterDocument × Updates → Type 0
  AfterPersonal clock original changed =
      IsMirror original changed × IsRenewed clock original changed.0

  personal_update_lem :
      (clock : Clock) (document : CharacterDocument) (changed : CharacterDocument × Updates)
      → personal_update post clock document ≡ ok (some changed)
      → AfterPersonal clock document changed
  unfolding personal_update
  personal_update_lem clock document changed asked =
      elim (Bool-cases (leb document.access_token_expires_at clock.at_check)) [
        | inr valid ↦
            let known : personal_update post clock document ≡ ok (some (document, no_updates)) =
              rw (valid, personal_update) in
            let same : (document, no_updates) ≡ changed = ground (arith, sym known ∙ asked) in
            subst (AfterPersonal clock document) same (refl, inl (ground arith))
        | inl expired ↦ elim (Result-cases (refresh_access_token post document.refresh_token)) [
          | inl (e, raised) ↦
              let known : personal_update post clock document
                  ≡ (if is_revoked e then ok none else err e) =
                rw (expired, raised, personal_update) in
              absurd (ground (arith, sym known ∙ asked))
          | inr (token, granted) ↦
              let renewed = assign_personal clock.at_token token document in
              let known : personal_update post clock document
                  ≡ ok (some (renewed, note_personal renewed no_updates)) =
                rw (expired, granted, personal_update) in
              let same : (renewed, note_personal renewed no_updates) ≡ changed =
                ground (arith, sym known ∙ asked) in
              subst (AfterPersonal clock document) same (refl, inr (token, granted, refl))
        ]
      ]

  -- The corporation's step keeps the rest of the document, and that writing makes it.
  abbrev AfterCorp : CharacterDocument → CharacterDocument → CharacterDocument × Updates → Type 0
  AfterCorp original document final =
      IsMirror original final × (final.0.access_token_expires_at ≡ document.access_token_expires_at)

  corp_update_lem :
      (clock : Clock) (original document : CharacterDocument) (updates : Updates)
      (final : CharacterDocument × Updates)
      → IsMirror original (document, updates)
      → corp_update post clock document updates ≡ ok final
      → AfterCorp original document final
  unfolding corp_update
  corp_update_lem clock original document updates final mirror asked =
      let kept = λ (same : (document, updates) ≡ final).
        subst (AfterCorp original document) same (mirror, refl) in
      elim (Option-cases document.corp_refresh_token) [
        | inl apart ↦ kept (ok-injective (rw (apart, corp_update) at asked))
        | inr (refresh_token, connected) ↦
            elim (Option-cases document.corp_access_token_expires_at) [
              | inl never ↦ kept (ok-injective (rw (connected, never, corp_update) at asked))
              | inr (expires_at, at) ↦ elim (Bool-cases (leb expires_at clock.at_corp_check)) [
                | inr valid ↦ kept (ok-injective (rw (connected, at, valid, corp_update) at asked))
                | inl expired ↦ elim (Result-cases (refresh_access_token post refresh_token)) [
                  | inr (token, granted) ↦
                      let renewed = assign_corp clock.at_corp_token token document in
                      let same : (renewed, note_corp renewed updates) ≡ final =
                        ok-injective (rw (connected, at, expired, granted, corp_update) at asked) in
                      subst (AfterCorp original document) same
                        (ap (assign_corp clock.at_corp_token token) mirror, refl)
                  | inl (e, raised) ↦ elim (Bool-cases (is_revoked e)) [
                    | inr fatal ↦
                        let never : err e ≡ ok final =
                          rw (connected, at, expired, raised, fatal, corp_update) at asked in
                        absurd (ground (arith, never))
                    | inl revoked ↦
                        let same : (clear_corp document, note_cleared updates) ≡ final =
                          ok-injective
                            (rw (connected, at, expired, raised, revoked, corp_update) at asked) in
                        subst (AfterCorp original document) same (ap clear_corp mirror, refl)
                  ]
                ]
              ]
            ]
      ]

  persist-get :
      (clock : Clock) (original document : CharacterDocument) (updates : Updates) (s : Store)
      → get original.character_id s ≡ some original
      → IsMirror original (document, updates)
      → let (d, s') = persist post characters clock document updates s in
        get original.character_id s' ≡ some d
  unfolding persist
  persist-get clock original document updates s stored mirror =
      elim (Bool-cases (is_empty updates)) [
        | inl nothing ↦
            rw (nothing, persist)
              (stored ∙ ap some (sym (set_fields-is_empty updates original nothing) ∙ mirror))
        | inr something ↦
            let written = record updates { updated_at = some clock.at_update } in
            let stamp : CharacterDocument → Option CharacterDocument =
              λ d. some (record d { updated_at = clock.at_update }) in
            let own : (document.character_id == original.character_id) ≡ true =
              ap (λ (d : CharacterDocument). d.character_id == original.character_id) (sym mirror)
              ∙ beq_self original.character_id in
            rw (something, persist)
              (characters.get-update_one document.character_id (λ doc. true) (set_fields written) s
                  original.character_id (λ d. refl)
                ∙ rw (own, stored) (ap stamp mirror))
      ]

  abbrev Stops : Store → Store × Result (Option CharacterDocument) → Type 0
  Stops s result = (result.0 ≡ s) × ((d : CharacterDocument) → result.1 ≡ ok (some d) → ⊥)

  abbrev GoesOn :
      Clock → CharacterDocument → Store → Store × Result (Option CharacterDocument) → Type 0
  GoesOn clock original s result =
      (document : CharacterDocument) × (updates : Updates) × IsMirror original (document, updates)
      × IsRenewed clock original document
      × (result ≡ (
        (persist post characters clock document updates s).1,
        ok (some (persist post characters clock document updates s).0),
      ))

  -- A call persists some updates, or stops and stores nothing.
  ensure_cases :
      (clock : Clock) (document : CharacterDocument) (s : Store)
      → GoesOn clock document s (ensure_fresh_tokens post characters clock document s)
        ⊎ Stops s (ensure_fresh_tokens post characters clock document s)
  unfolding ensure_fresh_tokens
  ensure_cases clock document s = elim (Result-cases (personal_update post clock document)) [
    | inl (e, raised) ↦ inr (rw (raised, ensure_fresh_tokens) (refl, λ d h. ground arith))
    | inr (found, asked) ↦ elim (Option-cases found) [
      | inl revoked ↦ inr (rw (asked, revoked, ensure_fresh_tokens) (refl, λ d h. ground arith))
      | inr (changed, given) ↦ elim (Result-cases (corp_update post clock changed.0 changed.1)) [
        | inl (e, raised) ↦
            inr (rw (asked, given, raised, ensure_fresh_tokens) (refl, λ d h. ground arith))
        | inr (final, refreshed) ↦
            let (mirror, renewed) =
              personal_update_lem clock document changed (asked ∙ ap ok given) in
            let (mirror', same) =
              corp_update_lem clock document changed.0 changed.1 final mirror refreshed in
            inl (
              final.0,
              final.1,
              mirror',
              rw same renewed,
              rw (asked, given, refreshed, ensure_fresh_tokens),
            )
      ]
    ]
  ]

  -- Where the document is the one that is stored, the document returned is what is stored then.
  pub ensure_fresh_tokens-get :
      (clock : Clock) (document d : CharacterDocument) (s s' : Store)
      → get document.character_id s ≡ some document
      → ensure_fresh_tokens post characters clock document s ≡ (s', ok (some d))
      → get document.character_id s' ≡ some d
  ensure_fresh_tokens-get clock document d s s' stored ran = elim (ensure_cases clock document s) [
    | inl (final, updates, mirror, renewed, persisted) ↦
        let written = persist-get clock document final updates s stored mirror in
        let same = sym persisted ∙ ran in
        let value : (persist post characters clock final updates s).0 ≡ d =
          ground (arith, ap (λ r. r.1) same) in
        rw (← ap (λ r. r.0) same, ← value) written
    | inr (unchanged, no_document) ↦ absurd (no_document d (ap (λ r. r.1) ran))
  ]

  -- A call that does not return a document stores nothing.
  pub ensure_fresh_tokens_failing :
      (clock : Clock) (document : CharacterDocument) (s : Store)
      → ((d : CharacterDocument)
          → (ensure_fresh_tokens post characters clock document s).1 ≡ ok (some d)
          → ⊥)
      → (ensure_fresh_tokens post characters clock document s).0 ≡ s
  ensure_fresh_tokens_failing clock document s fails = elim (ensure_cases clock document s) [
    | inl (final, updates, mirror, renewed, persisted) ↦ absurd (fails _ (ap (λ r. r.1) persisted))
    | inr (unchanged, no_document) ↦ unchanged
  ]

  -- Every access token that the service grants is good for some time.
  abbrev pub GrantsTime : Type 0
  GrantsTime =
      (token : String) (granted : TokenResponse)
      → refresh_access_token post token ≡ ok granted
      → 0 < granted.expires_in

  persist-access_token_expires_at :
      (clock : Clock) (document : CharacterDocument) (updates : Updates) (s : Store)
      → (persist post characters clock document updates s).0.access_token_expires_at
        ≡ document.access_token_expires_at
  unfolding persist
  persist-access_token_expires_at clock document updates s = elim (Bool-cases (is_empty updates)) [
    | inl nothing ↦ rw (nothing, persist)
    | inr something ↦ rw (something, persist)
  ]

  -- The access token of a returned document was not expired at the first check, if the service
  -- grants tokens that are good for some time and the clock does not go back between the check and
  -- the grant.
  pub ensure_fresh_tokens-fresh :
      (clock : Clock) (document d : CharacterDocument) (s s' : Store)
      → GrantsTime
      → clock.at_check ≤ clock.at_token
      → ensure_fresh_tokens post characters clock document s ≡ (s', ok (some d))
      → clock.at_check < d.access_token_expires_at
  ensure_fresh_tokens-fresh clock document d s s' grants later ran =
      elim (ensure_cases clock document s) [
        | inl (final, updates, mirror, renewed, persisted) ↦
            let value : (persist post characters clock final updates s).0 ≡ d =
              ground (arith, ap (λ r. r.1) (sym persisted ∙ ran)) in
            rw (← value) (
              rw (persist-access_token_expires_at clock final updates s) (elim renewed [
                | inl valid ↦ valid
                | inr (token, granted, until) ↦
                    omega (arith, grants document.refresh_token token granted)
              ]))
        | inr (unchanged, no_document) ↦ absurd (no_document d (ap (λ r. r.1) ran))
      ]
