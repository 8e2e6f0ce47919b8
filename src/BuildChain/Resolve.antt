-- ===== src/BuildChain/Resolve.antt =====
-- `resolve_build_chain` of services/build_chain.py: the walk, and what is made of it, with the names
-- from `type_docs` of services/sde.py and the prices from services/market_prices.py.
pub mod Parts
pub mod Whole
mod Tests
use eve_build.Prelude.{
  ℕ, ◌+◌, Bool, true, false, Option, none, some, List, [], ◌∷◌, ◌++◌, String, nat_eq, get_or,
  contains, is_some, if◌then◌else◌, map,
}
use eve_build.Prelude.Dict.{Dict, lookup, keys}
use eve_build.Prelude.Exc.{Result, ok, key_error, ◌>>=◌, map_m, or_raise}
use eve_build.Prelude.Sort.{sorted_by}
use eve_build.Prelude.Text.{numbered}
use eve_build.External.Float.{FloatArith}
use eve_build.External.Mongo.{Collection}
use eve_build.External.Find.{Finds}
use eve_build.External.Redis.{Redis}
use eve_build.Cache.Documents.{type_docs, add_docs}
use eve_build.Prices.{PriceDoc, price_id, unit_price, list_market_prices}
use eve_build.BuildChain.Recipe.{SdeDb}
use eve_build.BuildChain.Walk.{BuildStep, Request, Walk, walk}
use eve_build.BuildChain.Order.{topological_order}
use eve_build.BuildChain.Aggregate.{RawMaterial, BuildResolution}

-- A document of `sde_types`, as far as the program reads it.
pub record TypeDoc : Type 0 where
  pub id : ℕ
  pub name : Option String

abbrev pub type_doc_id : TypeDoc → ℕ
type_doc_id doc = doc.id

abbrev pub doc_name : Option TypeDoc → Option String
doc_name none = none
doc_name (some doc) = doc.name

-- `_name`
unfoldable pub type_name : Dict ℕ TypeDoc → ℕ → String
type_name docs type_id = get_or (doc_name (lookup type_id docs)) (numbered "Type" type_id)

-- `{...} | {...}`: the ids in some order, each once.
abbrev pub as_set : List ℕ → List ℕ
as_set [] = []
as_set (k ∷ ks) = let rest = as_set ks in if contains k rest then rest else k ∷ rest

-- `for step in steps_by_type_id.values(): step.name = _name(step.type_id)`
unfoldable pub name_steps : Dict ℕ TypeDoc → Dict ℕ BuildStep → Dict ℕ BuildStep
name_steps docs [] = []
name_steps docs ((k, step) ∷ steps) =
    (k, record step { name = type_name docs step.type_id }) ∷ name_steps docs steps

module _ (F : FloatArith) where
  open F use {Float, of_ℕ, add, sub, mul, div, le}

  abbrev abs : Float → Float
  abs x = if le (of_ℕ 0) x then x else sub (of_ℕ 0) x

  -- `sum` of a list of floats, as from Python 3.12 (the Dockerfile has 3.14): it carries the rounding
  -- errors along and adds them at the end.
  unfoldable pub sum_from : Float → Float → List Float → Float
  sum_from total lost [] = if FloatArith.truthy F lost then add total lost else total
  sum_from total lost (x ∷ xs) =
      let next = add total x in
      sum_from next
        (if le (abs x) (abs total)
          then add lost (add (sub total next) x)
          else add lost (add (sub x next) total))
        xs

  abbrev pub sum : List Float → Float
  sum = sum_from (of_ℕ 0) (of_ℕ 0)

  -- One element of `raw_materials`; `raw_buildable[type_id]` may raise.
  unfoldable pub raw_material :
      Dict ℕ TypeDoc → Dict ℕ (PriceDoc Float) → Dict ℕ Bool → ℕ × ℕ → Result (RawMaterial Float)
  raw_material docs prices flags (type_id, quantity) =
      or_raise key_error (lookup type_id flags) >>= λ buildable. ok (record {
        type_id = type_id;
        name = type_name docs type_id;
        quantity = quantity;
        unit_price = unit_price F (lookup type_id prices);
        is_buildable = buildable;
      })

  unfoldable pub raw_materials_of :
      Dict ℕ TypeDoc
      → Dict ℕ (PriceDoc Float)
      → Dict ℕ Bool
      → Dict ℕ ℕ
      → Result (List (RawMaterial Float))
  raw_materials_of docs prices flags totals =
      map_m (raw_material docs prices flags)
        (sorted_by (λ (item : ℕ × ℕ). type_name docs item.0) totals)

  unfoldable pub raw_material_cost : List (RawMaterial Float) → Float
  raw_material_cost materials =
      sum (map (λ material. mul (of_ℕ material.quantity) material.unit_price) materials)

  -- `target_build_time_seconds * (1 - time_efficiency / 100)`
  unfoldable pub build_time : ℕ → Float → Float
  build_time time_efficiency seconds =
      mul seconds (sub (of_ℕ 1) (div (of_ℕ time_efficiency) (of_ℕ 100)))

  -- What is made of the finished walk. The order of the steps is always found: see Order/Fuel.
  unfoldable pub resolution_of :
      Dict ℕ TypeDoc
      → Dict ℕ (PriceDoc Float)
      → Request Float
      → Walk F
      → Result (BuildResolution Float)
  resolution_of docs prices req w =
      let target = req.target_type_id in
      raw_materials_of docs prices w.raw_buildable w.raw_totals >>= λ raw_materials. ok (record {
        target_type_id = target;
        target_name = type_name docs target;
        target_quantity = req.target_quantity;
        is_buildable = is_some (lookup target w.steps_by_type_id);
        steps = get_or (topological_order target (name_steps docs w.steps_by_type_id)) [];
        raw_materials = raw_materials;
        raw_material_cost = raw_material_cost raw_materials;
        output_value = mul (of_ℕ req.target_quantity) (unit_price F (lookup target prices));
        build_time_seconds =
            if is_some (lookup target w.steps_by_type_id)
            then some (build_time req.time_efficiency w.target_build_time_seconds)
            else none;
      })

  -- `{target_type_id} | set(steps_by_type_id) | set(raw_totals)`
  abbrev pub all_type_ids : Request Float → Walk F → List ℕ
  all_type_ids req w = as_set (req.target_type_id ∷ keys w.steps_by_type_id ++ keys w.raw_totals)

module _ (F : FloatArith) (db : SdeDb) {types : Collection ℕ TypeDoc type_doc_id}
    (type_finds : Finds types) (redis : Redis TypeDoc)
    {market_prices : Collection ℕ (PriceDoc (FloatArith.Float F)) price_id}
    (price_finds : Finds market_prices) where
  unfoldable pub resolve_build_chain :
      Collection.Store types
      → Collection.Store market_prices
      → ℕ
      → Request (FloatArith.Float F)
      → Option (Redis.Cache redis)
      → Result (BuildResolution (FloatArith.Float F) × Option (Redis.Cache redis))
  resolve_build_chain s prices ttl req cache = walk F db req >>= λ w.
      let ids = all_type_ids F req w in
      let (docs, cache') = type_docs types type_finds redis s ttl ids cache in
      let found = list_market_prices price_finds ids prices in
      resolution_of F docs (add_docs price_id found []) req w >>= λ resolution.
      ok (resolution, cache')
