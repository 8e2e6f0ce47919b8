-- ===== src/Prices/Tests.antt =====
-- A refresh that gives one type a new price and another its first, and the theorem at it.
use eve_build.Prelude.{
  ℕ, ◌≡◌, refl, Option, none, some, List, [], ◌∷◌, ◌++◌, if◌then◌else◌, ◌==◌, nat_eq, arith,
}
use eve_build.Prelude.Exc.{ok}
use eve_build.External.Fixed.{fixed_point}
use eve_build.External.Memory.{memory}
use eve_build.External.Upsert.{memory_sets}
use eve_build.Prices.{
  PriceDoc, price_id, MarketPriceEntry, PriceRefreshJobMessage, PriceRefreshResultMessage, Queues,
  unit_price, get_market_price, dispatch_refresh, upsert_price, upsert_each, upsert_prices,
  refresh_market_prices, run_price_refresh_job, apply_price_refresh,
}
use eve_build.Prices.Refresh.{entry_of, after_refresh, refresh_market_prices_lem}

abbrev entry : ℕ → Option ℕ → MarketPriceEntry ℕ
entry id average = record { type_id = id; adjusted_price = none; average_price = average }

abbrev entries : List (MarketPriceEntry ℕ)
entries = entry 34 (some 6) ∷ entry 35 none ∷ []

abbrev reversed : List (MarketPriceEntry ℕ) → List (MarketPriceEntry ℕ)
reversed [] = []
reversed (x ∷ xs) = reversed xs ++ x ∷ []

abbrev stored : ℕ → Option (PriceDoc ℕ)
stored id =
    if id == 34
    then some (record { id = 34; adjusted_price = none; average_price = some 5; updated_at = 1 })
    else none

abbrev refreshed : ℕ → Option (PriceDoc ℕ)
refreshed = (refresh_market_prices (memory_sets price_id) reversed 9 (ok entries) stored).0

price_known : unit_price fixed_point (refreshed 34) ≡ 6
unfolding refresh_market_prices upsert_prices upsert_each upsert_price unit_price
price_known = refl

price_unknown : unit_price fixed_point (refreshed 35) ≡ 0
unfolding refresh_market_prices upsert_prices upsert_each upsert_price unit_price
price_unknown = refl

abbrev job : PriceRefreshJobMessage ℕ
job = record { refresh_id = "u" }

abbrev queues : Queues ℕ
queues = record { refresh_jobs = []; refresh_results = [] }

dispatched : (dispatch_refresh "u" queues).0.refresh_jobs ≡ job ∷ []
unfolding dispatch_refresh
dispatched = refl

refresh_market_prices_lem_example :
    ((refresh_market_prices (memory_sets price_id) reversed 9 (ok entries) stored).1 ≡ ok 2)
    × (get_market_price (memory price_id) 34 refreshed
        ≡ after_refresh 9 (entry_of 34 entries) (stored 34))
    × ((result : PriceRefreshResultMessage ℕ) × ((run_price_refresh_job
            (ok entries)
            job
            queues).0.refresh_results
          ≡ [] ++ result ∷ [])
        × ((apply_price_refresh (memory_sets price_id) reversed 9 result stored).0 ≡ refreshed))
refresh_market_prices_lem_example =
    refresh_market_prices_lem (memory_sets price_id) 9 reversed entries (refl, (refl, tt))
      (λ t. ground arith) 34 stored job queues
