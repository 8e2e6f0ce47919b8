-- ===== src/Planetary.antt =====
-- routes/planetary.py: what the inputs of a planetary schematic come from, down to a tier, and what a
-- cycle earns then. The rest of the pages is HTML.
pub mod Expansion
mod Tests
use eve_build.Prelude.{
  ℕ, zero, suc, Bool, true, false, Option, none, some, List, [], ◌∷◌, if◌then◌else◌, ◌==◌, nat_eq,
  get_or, leb, find, is_some, map,
}
use eve_build.Prelude.Dict.{Dict, lookup, insert}
use eve_build.Prelude.Exc.{
  Result, ok, err, zero_division, key_error, recursion_error, http_status, ◌>>=◌, or_raise, map_m,
}
use eve_build.External.Float.{FloatArith}
use eve_build.Prices.{PriceDoc, unit_price}
use eve_build.BuildChain.Recipe.{Material, SchematicDoc}
use eve_build.BuildChain.Resolve.{sum}

-- `_TIER_INDEX_BY_GROUP_ID.get(group_id)`
unfoldable pub tier_index_by_group_id : ℕ → Option ℕ
tier_index_by_group_id group_id =
    if group_id == 1042
    then some 1
    else if group_id == 1034
    then some 2
    else if group_id == 1040
    then some 3
    else if group_id == 1041
    then some 4
    else none

abbrev pub group_tier : Option ℕ → Option ℕ
group_tier none = none
group_tier (some group_id) = tier_index_by_group_id group_id

-- `{s["output"]["type_id"]: s for s in schematics}`
unfoldable pub by_output : List SchematicDoc → Dict ℕ SchematicDoc → Dict ℕ SchematicDoc
by_output [] found = found
by_output (schematic ∷ schematics) found =
    by_output schematics (insert schematic.output.type_id schematic found)

-- The loop over the outputs; `group_of` is the group of a type, where its document is found and has one.
unfoldable pub tier_indexes : (ℕ → Option ℕ) → Dict ℕ SchematicDoc → Dict ℕ ℕ
tier_indexes group_of [] = []
tier_indexes group_of ((type_id, schematic) ∷ rest) =
    let others = tier_indexes group_of rest in
    elim (group_tier (group_of type_id)) [ none ↦ others | some tier ↦ (type_id, tier) ∷ others ]

module _ (F : FloatArith) where
  open F use {Float, of_ℕ, add, sub, mul, div}

  -- `for sub_type_id, sub_quantity in sub.items()`
  unfoldable pub add_quantities : Dict ℕ Float → Dict ℕ Float → Dict ℕ Float
  add_quantities [] result = result
  add_quantities ((type_id, quantity) ∷ rest) result =
      add_quantities rest
        (insert type_id (add (get_or (lookup type_id result) (of_ℕ 0)) quantity) result)

  -- The loop over the inputs; `expand` is the recursive call and `amount` the quantity of an input.
  unfoldable pub expand_each :
      (ℕ → Float → Result (Dict ℕ Float))
      → (Material → Float)
      → List Material
      → Dict ℕ Float
      → Result (Dict ℕ Float)
  expand_each expand amount [] result = ok result
  expand_each expand amount (material ∷ materials) result =
      expand material.type_id (amount material) >>= λ found.
      expand_each expand amount materials (add_quantities found result)

  module _ (floor_tier : ℕ) (schematics : Dict ℕ SchematicDoc) (tiers : Dict ℕ ℕ) where
    -- `_expand_to_tier`, on the number of calls that the interpreter lets be nested.
    unfoldable pub expand_to_tier : ℕ → ℕ → Float → Result (Dict ℕ Float)
    expand_to_tier zero type_id quantity = err recursion_error
    expand_to_tier (suc limit) type_id quantity = elim (lookup type_id schematics) [
      | none ↦ ok ((type_id, quantity) ∷ [])
      | some schematic ↦
          let runs_needed = div quantity (of_ℕ schematic.output.quantity) in
          let expanded =
            expand_each (expand_to_tier limit)
              (λ material. mul runs_needed (of_ℕ material.quantity)) schematic.inputs [] in
          if leb (get_or (lookup type_id tiers) 0) floor_tier
          then ok ((type_id, quantity) ∷ [])
          else if schematic.output.quantity == 0
          then err zero_division
          else expanded
    ]

  -- `profit * 86400 / cycle_time_seconds`
  unfoldable pub profit_per_day : Float → ℕ → Result Float
  profit_per_day profit cycle_time_seconds =
      if cycle_time_seconds == 0
      then err zero_division
      else ok (div (mul profit (of_ℕ 86_400)) (of_ℕ cycle_time_seconds))

  -- A row of the summary, with the materials that it is about.
  pub record SummaryRow : Type 0 where
    pub from_tier : ℕ
    pub expanded : Dict ℕ Float
    pub cost : Float
    pub output_value : Float
    pub profit : Float
    pub per_day : Float

  -- `range(n)`, from the first
  abbrev range_from : ℕ → ℕ → List ℕ
  range_from zero first = []
  range_from (suc n) first = first ∷ range_from n (suc first)

  module _ (limit : ℕ) (all : List SchematicDoc) (group_of : ℕ → Option ℕ)
      (prices : Dict ℕ (PriceDoc Float)) where
    abbrev pub price : ℕ → Float
    price type_id = unit_price F (lookup type_id prices)

    abbrev pub schematics_by_output : Dict ℕ SchematicDoc
    schematics_by_output = by_output all []

    abbrev pub tier_of : Dict ℕ ℕ
    tier_of = tier_indexes group_of schematics_by_output

    -- The body of `for floor in range(own_tier)`.
    unfoldable pub summary_row : SchematicDoc → ℕ → Result SummaryRow
    summary_row schematic floor = do
      cycle_time_seconds ← or_raise key_error schematic.cycle_time_seconds
      expanded ←
          expand_each (expand_to_tier floor schematics_by_output tier_of limit)
            (λ material. of_ℕ material.quantity) schematic.inputs []
      let output_value = mul (of_ℕ schematic.output.quantity) (price schematic.output.type_id)
      let cost = sum F (map (λ (item : ℕ × Float). mul item.1 (price item.0)) expanded)
      let profit = sub output_value cost
      per_day ← profit_per_day profit cycle_time_seconds
      ok (record {
        from_tier = floor;
        expanded = expanded;
        cost = cost;
        output_value = output_value;
        profit = profit;
        per_day = per_day;
      })

    -- `planet_schematic_detail`: 404 for an unknown schematic, and no rows where the tier is not known.
    unfoldable pub planet_schematic_detail : ℕ → Result (List SummaryRow)
    planet_schematic_detail schematic_id = do
      schematic ← or_raise (http_status 404) (find (λ s. s.id == schematic_id) all)
      cycle_time_seconds ← or_raise key_error schematic.cycle_time_seconds
      map_m (summary_row schematic)
          (range_from (get_or (lookup schematic.output.type_id tier_of) 0) 0)
