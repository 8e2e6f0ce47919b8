-- ===== src/Prices.antt =====
-- services/market_prices.py: the price list, its refresh in one request, and the refresh through the
-- queues. The messages of app/db/rabbitmq.py are given as what they hold; the rows of a result message
-- are entries again, as Esi/Rows has it.
pub mod Refresh
mod Tests
use eve_build.Prelude.{
  ℕ, Bool, true, Option, none, some, List, [], ◌∷◌, ◌++◌, String, nat_eq, get_or, length,
}
use eve_build.Prelude.Exc.{Result, ok, err}
use eve_build.External.Float.{FloatArith}
use eve_build.External.Mongo.{Collection}
use eve_build.External.Find.{Finds}
use eve_build.External.Upsert.{Sets}

module _ (Float : Type 0) where
  -- A document of `market_prices`.
  pub record PriceDoc : Type 0 where
    pub id : ℕ
    pub adjusted_price : Option Float
    pub average_price : Option Float
    pub updated_at : ℕ

  pub record MarketPriceEntry : Type 0 where
    pub type_id : ℕ
    pub adjusted_price : Option Float
    pub average_price : Option Float

  pub record PriceRefreshJobMessage : Type 0 where
    pub refresh_id : String

  pub record PriceRefreshResultMessage : Type 0 where
    pub refresh_id : String
    pub prices : List MarketPriceEntry

  -- The two queues, with what was published to each.
  pub record Queues : Type 0 where
    pub refresh_jobs : List PriceRefreshJobMessage
    pub refresh_results : List PriceRefreshResultMessage

abbrev pub price_id : {Float : Type 0} → PriceDoc Float → ℕ
price_id doc = doc.id

-- `float((price_doc or {}).get("average_price") or 0.0)`
unfoldable pub unit_price :
    (F : FloatArith) → Option (PriceDoc (FloatArith.Float F)) → FloatArith.Float F
unit_price F none = FloatArith.of_ℕ F 0
unit_price F (some doc) = get_or doc.average_price (FloatArith.of_ℕ F 0)

-- `refresh_id` is the new UUID.
unfoldable pub dispatch_refresh : {Float : Type 0} → String → Queues Float → Queues Float × String
dispatch_refresh refresh_id q = (
  record q { refresh_jobs = q.refresh_jobs ++ record { refresh_id = refresh_id } ∷ [] },
  refresh_id,
)

-- `fetched` is what `esi.get_market_prices` gives or raises.
unfoldable pub run_price_refresh_job :
    {Float : Type 0}
    → Result (List (MarketPriceEntry Float))
    → PriceRefreshJobMessage Float
    → Queues Float
    → Queues Float × Result (Unit {0})
run_price_refresh_job (err exc) job q = (q, err exc)
run_price_refresh_job (ok entries) job q = (
  record q {
    refresh_results =
        q.refresh_results ++ record { refresh_id = job.refresh_id; prices = entries } ∷ [];
  },
  ok tt,
)

unfoldable pub get_market_price :
    {Float : Type 0} (market_prices : Collection ℕ (PriceDoc Float) price_id)
    → ℕ
    → Collection.Store market_prices
    → Option (PriceDoc Float)
get_market_price market_prices type_id s = market_prices.find_one type_id (λ doc. true) s

module _ {Float : Type 0} {market_prices : Collection ℕ (PriceDoc Float) price_id} where
  open market_prices use {Store}

  -- `list_market_prices(db, type_ids)` for ids that are given and not empty.
  unfoldable pub list_market_prices : Finds market_prices → List ℕ → Store → List (PriceDoc Float)
  list_market_prices finds type_ids s = Finds.find_in finds type_ids (λ doc. true) s

  module _ (sets : Sets market_prices) where
    unfoldable pub upsert_price : ℕ → MarketPriceEntry Float → Store → Store
    upsert_price now entry = Sets.set_one sets (record {
      id = entry.type_id;
      adjusted_price = entry.adjusted_price;
      average_price = entry.average_price;
      updated_at = now;
    })

    -- `asyncio.gather`: the entries are upserted in the order in which MongoDB gets the requests.
    unfoldable pub upsert_each : ℕ → List (MarketPriceEntry Float) → Store → Store
    upsert_each now [] s = s
    upsert_each now (entry ∷ entries) s = upsert_each now entries (upsert_price now entry s)

    -- `order` is that order, of the same entries.
    unfoldable pub upsert_prices :
        (List (MarketPriceEntry Float) → List (MarketPriceEntry Float))
        → ℕ
        → List (MarketPriceEntry Float)
        → Store
        → Store × ℕ
    upsert_prices order now entries s = (upsert_each now (order entries) s, length entries)

    unfoldable pub refresh_market_prices :
        (List (MarketPriceEntry Float) → List (MarketPriceEntry Float))
        → ℕ
        → Result (List (MarketPriceEntry Float))
        → Store
        → Store × Result ℕ
    refresh_market_prices order now (err exc) s = (s, err exc)
    refresh_market_prices order now (ok entries) s =
        let (s', number) = upsert_prices order now entries s in (s', ok number)

    unfoldable pub apply_price_refresh :
        (List (MarketPriceEntry Float) → List (MarketPriceEntry Float))
        → ℕ
        → PriceRefreshResultMessage Float
        → Store
        → Store × ℕ
    apply_price_refresh order now result s = upsert_prices order now result.prices s
