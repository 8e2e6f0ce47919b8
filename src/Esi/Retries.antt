-- ===== src/Esi/Retries.antt =====
-- The attempts of `_get_with_retry` of services/esi.py.
use eve_build.Prelude.{
  ℕ, zero, suc, ◌+◌, ◌≤◌, ◌<◌, ◌≡◌, ◌⊎◌, refl, sym, ap, ◌∙◌, Bool, true, false, not, Option, some,
  nat_eq, ◌==◌, ◌&&◌, contains, leb, arith, Bool-cases, inl, inr,
}
use eve_build.Prelude.Dict.{eq_of_beq}
use eve_build.Prelude.Exc.{
  Exc, http_status, value_error, key_error, type_error, zero_division, overflow_error,
  recursion_error, http_error, duplicate_key, lock_timeout, redis_error, Result, ok, err,
  Result-cases,
}
use eve_build.Esi.{Response, timed_get, goes_on, retry, get_with_retry, retryable_status_codes}

both : (a b : Bool) → (a && not b) ≡ true → (a ≡ true) × (b ≡ false)
both true false h = (refl, refl)
both true true h = absurd (ground (arith, h))
both false b h = absurd (ground (arith, h))

goes_on-cases :
    (max_attempts attempt : ℕ) (exc : Exc)
    → goes_on max_attempts attempt exc ≡ true
    → (code : ℕ) × (exc ≡ http_status code)
      × (contains code retryable_status_codes ≡ true)
      × (attempt < max_attempts)
goes_on-cases max_attempts attempt (http_status code) h =
    let (a, b) = both (contains code retryable_status_codes) (leb max_attempts attempt) h in
    (code, refl, a, ground (arith, b))
goes_on-cases max_attempts attempt (value_error message) h = absurd (ground (arith, h))
goes_on-cases max_attempts attempt key_error h = absurd (ground (arith, h))
goes_on-cases max_attempts attempt type_error h = absurd (ground (arith, h))
goes_on-cases max_attempts attempt zero_division h = absurd (ground (arith, h))
goes_on-cases max_attempts attempt overflow_error h = absurd (ground (arith, h))
goes_on-cases max_attempts attempt recursion_error h = absurd (ground (arith, h))
goes_on-cases max_attempts attempt http_error h = absurd (ground (arith, h))
goes_on-cases max_attempts attempt duplicate_key h = absurd (ground (arith, h))
goes_on-cases max_attempts attempt lock_timeout h = absurd (ground (arith, h))
goes_on-cases max_attempts attempt redis_error h = absurd (ground (arith, h))

module _ {Item : Type 0} (answer : ℕ → Option (Response Item)) (max_attempts : ℕ) where
  -- An attempt that fails with a status that is retried.
  abbrev pub IsTransient : ℕ → Type 0
  IsTransient n =
      (code : ℕ) × (timed_get (answer n) ≡ err (http_status code))
      × (contains code retryable_status_codes ≡ true)

  -- The loop ends at an attempt, after transient failures only, with what that attempt gives; and it is
  -- not the last attempt only if it is no transient failure.
  abbrev pub EndsAt : ℕ → ℕ → Result (Response Item) → Type 0
  EndsAt attempt n outcome =
      (timed_get (answer n) ≡ outcome)
      × (((k : ℕ) → attempt < k → k < n → IsTransient k)
          × ((n < max_attempts → IsTransient n → ⊥) × (n ≤ max_attempts ⊎ (n ≡ suc attempt))))

  goes_on_early :
      {attempt : ℕ} (code : ℕ)
      → attempt < max_attempts
      → contains code retryable_status_codes ≡ true
      → goes_on max_attempts attempt (http_status code) ≡ false
      → ⊥
  goes_on_early {attempt} code early retried stop =
      let open_yet : leb max_attempts attempt ≡ false = ground (arith, early) in
      let yes : goes_on max_attempts attempt (http_status code) ≡ true = rw (retried, open_yet) in
      ground (arith, sym yes ∙ stop)

  retry-EndsAt :
      (fuel attempt : ℕ)
      → max_attempts < fuel + attempt
      → 0 < fuel
      → (n : ℕ) × (outcome : Result (Response Item)) × (retry answer max_attempts fuel attempt
          ≡ some (n, outcome))
        × EndsAt attempt n outcome
  unfolding retry
  retry-EndsAt zero attempt h p = absurd (omega arith)
  retry-EndsAt (suc fuel) attempt h p = elim (Result-cases (timed_get (answer (suc attempt)))) [
    | inr (response, good) ↦ (
      suc attempt,
      ok response,
      rw (good, retry),
      (
        good,
        (
          (λ k above below. absurd (omega arith)),
          ((λ early (code, e, _). absurd (ground (arith, sym good ∙ e))), inr refl),
        ),
      ),
    )
    | inl (exc, failed) ↦ elim (Bool-cases (goes_on max_attempts (suc attempt) exc)) [
      | inr stop ↦ (
        suc attempt,
        err exc,
        rw (failed, stop, retry),
        (
          failed,
          (
            (λ k above below. absurd (omega arith)),
            (
              (λ early (code, e, retried).
                  let same : exc ≡ http_status code = ground (arith, sym failed ∙ e) in
                  absurd (goes_on_early code early retried (rw same at stop))),
              inr refl,
            ),
          ),
        ),
      )
      | inl again ↦
          let (code, same, retried, early) = goes_on-cases max_attempts (suc attempt) exc again in
          let (n, outcome, ran, (gives, (before, (last, bound)))) =
            retry-EndsAt fuel (suc attempt) (omega arith) (omega arith) in
          (
            n,
            outcome,
            rw (failed, again, retry) ran,
            (
              gives,
              (
                (λ k above below. elim (Bool-cases (k == suc attempt)) [
                  | inl here ↦
                      rw (eq_of_beq k (suc attempt) here) (code, failed ∙ ap err same, retried)
                  | inr later ↦ before k (ground (arith, above, later)) below
                ]),
                (last, elim bound [ inl within ↦ inl within | inr second ↦ inl (omega arith) ]),
              ),
            ),
          )
    ]
  ]

  -- The call ends: the attempts before the last failed with a status that is retried, the outcome is
  -- that of the last, which either is no such failure or is the last that the limit allows; and no more
  -- attempts are made than the limit, or one.
  pub get_with_retry-EndsAt :
      (n : ℕ) × (outcome : Result (Response Item)) × (get_with_retry answer max_attempts
        ≡ some (n, outcome))
      × EndsAt 0 n outcome
  unfolding get_with_retry
  get_with_retry-EndsAt = retry-EndsAt (suc max_attempts) 0 (omega arith) (omega arith)
