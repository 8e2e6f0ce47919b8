-- ===== src/Esi.antt =====
-- services/esi.py: the requests to ESI, with retries and over all pages. What the service answers to
-- each request is a parameter; how long the code sleeps between requests is left out.
pub mod Retries
pub mod Pages
pub mod Entries
pub mod Rows
pub mod Answers
mod Tests
use eve_build.Prelude.{
  ℕ, zero, suc, ◌-◌, Bool, true, false, not, ◌&&◌, ◌||◌, Option, none, some, List, [], ◌∷◌, ◌++◌,
  if◌then◌else◌, nat_eq, contains, leb, ltb, get_or,
}
use eve_build.Prelude.Exc.{Exc, http_status, http_error, Result, ok, err, ◌>>=◌}

-- A status, the header `X-Pages` and the list in the body.
pub record Response (Item : Type 0) : Type 0 where
  pub status_code : ℕ
  pub x_pages : Option ℕ
  pub items : List Item

abbrev pub retryable_status_codes : List ℕ
retryable_status_codes = 420 ∷ 429 ∷ 500 ∷ 502 ∷ 503 ∷ 504 ∷ []

-- Whether the `except` clause goes on with the loop.
abbrev pub goes_on : ℕ → ℕ → Exc → Bool
goes_on max_attempts attempt (http_status code) =
    contains code retryable_status_codes && not (leb max_attempts attempt)
goes_on max_attempts attempt _ = false

module _ {Item : Type 0} where
  -- `none` stands for a failure without a response. `raise_for_status` raises unless the status is 2xx.
  unfoldable pub timed_get : Option (Response Item) → Result (Response Item)
  timed_get none = err http_error
  timed_get (some response) =
      if leb 200 response.status_code && ltb response.status_code 300
      then ok response
      else err (http_status response.status_code)

  -- The `while` loop after `attempt` attempts, on fuel: how many attempts it made, and the outcome.
  unfoldable pub retry :
      (ℕ → Option (Response Item)) → ℕ → ℕ → ℕ → Option (ℕ × Result (Response Item))
  retry answer max_attempts zero attempt = none
  retry answer max_attempts (suc fuel) attempt = elim (timed_get (answer (suc attempt))) [
    | ok response ↦ some (suc attempt, ok response)
    | err exc ↦
        let later = retry answer max_attempts fuel (suc attempt) in
        if goes_on max_attempts (suc attempt) exc then later else some (suc attempt, err exc)
  ]

  -- `answer n` is the answer to the attempt `n`, from 1.
  unfoldable pub get_with_retry :
      (ℕ → Option (Response Item)) → ℕ → Option (ℕ × Result (Response Item))
  get_with_retry answer esi_retry_max_attempts =
      retry answer esi_retry_max_attempts (suc esi_retry_max_attempts) 0

  -- `for page in range(page, page + count)`
  unfoldable pub more_pages : (ℕ → Option (Response Item)) → ℕ → ℕ → List Item → Result (List Item)
  more_pages answer page zero results = ok results
  more_pages answer page (suc count) results = do
    response ← timed_get (answer page)
    more_pages answer (suc page) count (results ++ response.items)

  -- `answer page` is the answer to the request for the page.
  unfoldable pub get_all_pages : (ℕ → Option (Response Item)) → Result (List Item)
  get_all_pages answer = do
    first_response ← timed_get (answer 1)
    more_pages answer 2 (get_or first_response.x_pages 1 - 1) first_response.items
