-- ===== src/BuildChain/Resolve/Tests.antt =====
-- The resolution of the ship of BuildChain/Tests, with names and prices, and each theorem at it.
use eve_build.Prelude.{
  All, ℕ, ◌+◌, ◌≡◌, refl, true, false, Option, none, some, List, [], ◌∷◌, String, nat_eq, contains,
  IsUnique, if◌then◌else◌, ◌==◌,
}
use eve_build.Prelude.Exc.{ok, Returns}
use eve_build.Prelude.Sort.{IsSortedBy}
use eve_build.Prelude.Text.{numbered, str, digits}
use eve_build.External.Fixed.{fixed_point}
use eve_build.External.Find.{memory_finds}
use eve_build.External.Redis.{table_cache}
use eve_build.Cache.{get_many_cached, set_many_cached}
use eve_build.Cache.Documents.{cached_docs_by_id, type_docs}
use eve_build.Prices.{PriceDoc, price_id, unit_price, list_market_prices}
use eve_build.BuildChain.Recipe.{recipe_for_product}
use eve_build.BuildChain.Efficiency.{material_quantity_per_run}
use eve_build.BuildChain.Walk.{
  BuildStep, walk, visit, walk_levels, leave_rest, leave_raw, build, step_or_new, additional_runs,
  adjusted_materials, add_materials, bump,
}
use eve_build.BuildChain.Conservation.{consumed, made, ordered}
use eve_build.BuildChain.Order.{topological_order, visit_type, visit_each}
use eve_build.BuildChain.Order.Before.{IsBuildOrder, ids}
use eve_build.BuildChain.Aggregate.{BuildResolution}
use eve_build.BuildChain.Tests.{
  db, req, finished, walk-finished, rank, finished-IsAcyclic, db-IsProductive,
}
use eve_build.BuildChain.Resolve.{
  TypeDoc, type_doc_id, type_name, name_steps, sum_from, raw_material, raw_materials_of,
  raw_material_cost, build_time, resolution_of, resolve_build_chain,
}
use eve_build.BuildChain.Resolve.Parts.{IsNamed}
use eve_build.BuildChain.Resolve.Whole.{
  wanted, docs_for, resolve_build_chain-Returns, resolve_build_chain_lem,
}

abbrev types : ℕ → Option TypeDoc
types id =
    if id == 10
    then some (record { id = 10; name = some "Ship" })
    else if id == 30
    then some (record { id = 30; name = some "Veldspar" })
    else if id == 40
    then some (record { id = 40; name = some "Coolant" })
    else none

-- A unit of ore is worth 5, and the ship 1000.
abbrev market_prices : ℕ → Option (PriceDoc ℕ)
market_prices id =
    if id == 10
    then some (record {
      id = 10;
      adjusted_price = none;
      average_price = some 1_000_000_000;
      updated_at = 0;
    })
    else if id == 30
    then some
        (record { id = 30; adjusted_price = none; average_price = some 5_000_000; updated_at = 0 })
    else none

abbrev step : ℕ → String → ℕ → ℕ → ℕ → List (ℕ × ℕ) → BuildStep
step id name quantity runs product materials = record {
  type_id = id;
  name = name;
  quantity_needed = quantity;
  runs = runs;
  product_quantity = product;
  materials = materials;
}

abbrev resolved : BuildResolution ℕ
resolved = record {
  target_type_id = 10;
  target_name = "Ship";
  target_quantity = 4;
  is_buildable = true;
  steps =
      step 20 "Type 20" 20 10 2 ((30, 30) ∷ (40, 10) ∷ [])
      ∷ step 10 "Ship" 4 4 1 ((20, 20) ∷ (30, 8) ∷ [])
      ∷ [];
  raw_materials =
      record { type_id = 40; name = "Coolant"; quantity = 10; unit_price = 0; is_buildable = true }
      ∷ record {
        type_id = 30;
        name = "Veldspar";
        quantity = 38;
        unit_price = 5_000_000;
        is_buildable = false;
      }
      ∷ [];
  raw_material_cost = 190_000_000;
  output_value = 4_000_000_000;
  build_time_seconds = some 2_400_000_000;
}

resolved-found :
    resolve_build_chain fixed_point db
      (memory_finds type_doc_id)
      (table_cache TypeDoc)
      (memory_finds price_id)
      types
      market_prices
      3600
      req
      none
    ≡ ok (resolved, none)
unfolding walk walk_levels visit leave_rest leave_raw build step_or_new additional_runs
    adjusted_materials add_materials bump recipe_for_product material_quantity_per_run
    resolve_build_chain resolution_of raw_materials_of raw_material raw_material_cost build_time
    sum_from type_name name_steps numbered unit_price list_market_prices type_docs cached_docs_by_id
    topological_order visit_type visit_each get_many_cached set_many_cached str digits
resolved-found = refl

resolve_build_chain-Returns_example : Returns (
    resolve_build_chain fixed_point db
      (memory_finds type_doc_id)
      (table_cache TypeDoc)
      (memory_finds price_id)
      types
      market_prices
      3600
      req
      none)
resolve_build_chain-Returns_example =
    resolve_build_chain-Returns fixed_point db (memory_finds type_doc_id) (table_cache TypeDoc)
      (memory_finds price_id) types market_prices 3600 req none db-IsProductive

resolve_build_chain_lem_example :
    IsSortedBy (λ material. material.name) resolved.raw_materials
    × ((t : ℕ)
        → consumed t finished.steps_by_type_id + ordered fixed_point db req t
          ≡ wanted fixed_point db
              (memory_finds type_doc_id)
              (table_cache TypeDoc)
              (memory_finds price_id)
              types
              market_prices
              3600
              req
              none
              t
              resolved.raw_materials
            + made t finished.steps_by_type_id)
    × All
        (IsNamed
          (docs_for fixed_point db
            (memory_finds type_doc_id)
            (table_cache TypeDoc)
            (memory_finds price_id)
            types
            market_prices
            3600
            req
            none
            finished)
          finished.steps_by_type_id)
        resolved.steps
    × IsUnique (ids resolved.steps)
    × (resolved.is_buildable ≡ true → contains 10 (ids resolved.steps) ≡ true)
    × IsBuildOrder finished.steps_by_type_id [] resolved.steps
resolve_build_chain_lem_example =
    resolve_build_chain_lem fixed_point db (memory_finds type_doc_id) (table_cache TypeDoc)
      (memory_finds price_id) types market_prices 3600 req none finished rank resolved none
      walk-finished finished-IsAcyclic resolved-found
