-- ===== src/Prices/Refresh.antt =====
-- What a refresh leaves in the price list of services/market_prices.py, in whatever order the entries
-- are written, and whether in one request or through the queues.
use eve_build.Prelude.{
  ℕ, ◌≡◌, refl, true, false, Option, none, some, List, [], ◌∷◌, ◌++◌, nat_eq, ◌==◌, if◌then◌else◌,
  contains, IsUnique, length, arith, Bool-cases, inl, inr, ◌∙◌,
}
use eve_build.Prelude.Dict.{eq_of_beq}
use eve_build.Prelude.Exc.{ok}
use eve_build.External.Mongo.{Collection, keep}
use eve_build.External.Upsert.{Sets}
use eve_build.Prices.{
  PriceDoc, price_id, MarketPriceEntry, PriceRefreshJobMessage, PriceRefreshResultMessage, Queues,
  get_market_price, upsert_price, upsert_each, upsert_prices, refresh_market_prices,
  run_price_refresh_job, apply_price_refresh,
}

module _ {Float : Type 0} where
  -- The entry of a type.
  abbrev pub entry_of : ℕ → List (MarketPriceEntry Float) → Option (MarketPriceEntry Float)
  entry_of t [] = none
  entry_of t (entry ∷ entries) = if entry.type_id == t then some entry else entry_of t entries

  abbrev pub type_ids : List (MarketPriceEntry Float) → List ℕ
  type_ids [] = []
  type_ids (entry ∷ entries) = entry.type_id ∷ type_ids entries

  abbrev pub written_doc : ℕ → MarketPriceEntry Float → PriceDoc Float
  written_doc now entry = record {
    id = entry.type_id;
    adjusted_price = entry.adjusted_price;
    average_price = entry.average_price;
    updated_at = now;
  }

  -- The document of a type whose entry was written, or the one that was there.
  abbrev pub after_refresh :
      ℕ → Option (MarketPriceEntry Float) → Option (PriceDoc Float) → Option (PriceDoc Float)
  after_refresh now none before = before
  after_refresh now (some entry) before = some (written_doc now entry)

  entry_of-new :
      (t : ℕ) (entries : List (MarketPriceEntry Float))
      → contains t (type_ids entries) ≡ false
      → entry_of t entries ≡ none
  entry_of-new t [] h = refl
  entry_of-new t (entry ∷ entries) h = ground (arith, entry_of-new t entries)

  keep_all : (o : Option (PriceDoc Float)) → keep (λ doc. true) o ≡ o
  keep_all none = refl
  keep_all (some doc) = refl

  module _ {market_prices : Collection ℕ (PriceDoc Float) price_id} (sets : Sets market_prices)
      (now : ℕ) where
    open market_prices use {Store, get}

    get-upsert_each :
        (entries : List (MarketPriceEntry Float)) (s : Store) (t : ℕ)
        → IsUnique (type_ids entries)
        → get t (upsert_each sets now entries s) ≡ after_refresh now (entry_of t entries) (get t s)
    unfolding upsert_each upsert_price
    get-upsert_each [] s t unique = refl
    get-upsert_each (entry ∷ entries) s t unique =
        let rest = get-upsert_each entries (upsert_price sets now entry s) t unique.1 in
        let written = Sets.get-set_one sets (written_doc now entry) s t in
        elim (Bool-cases (entry.type_id == t)) [
          | inl same ↦
              let e = eq_of_beq entry.type_id t same in
              let new = entry_of-new t entries (rw e at unique.0) in
              rest ∙ rw (new, same) (written ∙ rw same)
          | inr other ↦ rest ∙ rw (written, other)
        ]

    -- `order` is the order in which the entries of a refresh are written: the same entries, each type
    -- once.
    module _ (order : List (MarketPriceEntry Float) → List (MarketPriceEntry Float))
        (entries : List (MarketPriceEntry Float)) where
      -- Where every type has one entry, a refresh leaves the new prices under each type that ESI listed
      -- and the old ones under the others, whatever the order of the writes; and a refresh through the
      -- queues publishes one result, which leaves the same list.
      pub refresh_market_prices_lem :
          IsUnique (type_ids (order entries))
          → ((t : ℕ) → entry_of t (order entries) ≡ entry_of t entries)
          → (t : ℕ) (s : Store) (job : PriceRefreshJobMessage Float) (q : Queues Float)
          → ((refresh_market_prices sets order now (ok entries) s).1 ≡ ok (length entries))
            × (get_market_price market_prices t
                  (refresh_market_prices sets order now (ok entries) s).0
                ≡ after_refresh now (entry_of t entries) (get t s))
            × ((result : PriceRefreshResultMessage Float) × ((run_price_refresh_job
                    (ok entries)
                    job
                    q).0.refresh_results
                  ≡ q.refresh_results ++ result ∷ [])
                × ((apply_price_refresh sets order now result s).0
                    ≡ (refresh_market_prices sets order now (ok entries) s).0))
      unfolding refresh_market_prices upsert_prices get_market_price run_price_refresh_job
          apply_price_refresh
      refresh_market_prices_lem unique same t s job q = (
        refl,
        market_prices.find_one-get t (λ doc. true) _
            ∙ keep_all _
            ∙ get-upsert_each (order entries) s t unique
            ∙ rw (same t),
        (record { refresh_id = job.refresh_id; prices = entries }, refl, refl),
      )
