-- ===== src/Planetary/Tests.antt =====
-- Coolant (tier 2) from electrolytes (tier 1) and water (tier 1), and the theorem at it.
use eve_build.Prelude.{
  true, ℕ, ◌/◌, ◌≡◌, refl, ◌||◌, Option, none, some, List, [], ◌∷◌, if◌then◌else◌, ◌==◌, nat_eq,
  arith, All, ◌<◌,
}
use eve_build.Prelude.Dict.{Dict, AllEntries-lookup}
use eve_build.Prelude.Exc.{ok, err, http_status}
use eve_build.External.Fixed.{fixed_point}
use eve_build.Prices.{PriceDoc, unit_price}
use eve_build.BuildChain.Recipe.{Material, SchematicDoc}
use eve_build.BuildChain.Resolve.{sum_from}
use eve_build.Planetary.{
  tier_index_by_group_id, by_output, tier_indexes, add_quantities, expand_each, expand_to_tier,
  profit_per_day, SummaryRow, summary_row, planet_schematic_detail,
}
use eve_build.Planetary.Expansion.{
  is_base, IsRanked, IsProductive, Expands, Alone, expand_to_tier-Expands,
}

abbrev input : ℕ → ℕ → Material
input id quantity = record { type_id = id; quantity = quantity }

abbrev schematic : ℕ → Material → List Material → SchematicDoc
schematic id output inputs = record {
  id = id;
  output = output;
  inputs = inputs;
  cycle_time_seconds = some 3600;
}

abbrev schematics : List SchematicDoc
schematics =
    schematic 1 (input 20 5) (input 11 40 ∷ input 12 40 ∷ [])
    ∷ schematic 2 (input 11 20) (input 1 3000 ∷ [])
    ∷ schematic 3 (input 12 20) (input 2 3000 ∷ [])
    ∷ []

abbrev group_of : ℕ → Option ℕ
group_of id = if id == 20 then some 1034 else if id == 11 || id == 12 then some 1042 else none

-- Only the output and the electrolytes have a price.
abbrev prices : Dict ℕ (PriceDoc ℕ)
prices =
    (
      20,
      record { id = 20; adjusted_price = none; average_price = some 9_000_000_000; updated_at = 0 },
    )
    ∷ (
      11,
      record { id = 11; adjusted_price = none; average_price = some 400_000_000; updated_at = 0 },
    )
    ∷ []

abbrev rows : List (SummaryRow fixed_point)
rows =
    record {
      from_tier = 0;
      expanded = (1, 6_000_000_000) ∷ (2, 6_000_000_000) ∷ [];
      cost = 0;
      output_value = 45_000_000_000;
      profit = 45_000_000_000;
      per_day = 1_080_000_000_000;
    }
    ∷ record {
      from_tier = 1;
      expanded = (11, 40_000_000) ∷ (12, 40_000_000) ∷ [];
      cost = 16_000_000_000;
      output_value = 45_000_000_000;
      profit = 29_000_000_000;
      per_day = 696_000_000_000;
    }
    ∷ []

detail_found : planet_schematic_detail fixed_point 1000 schematics group_of prices 1 ≡ ok rows
unfolding planet_schematic_detail summary_row by_output tier_indexes tier_index_by_group_id
    expand_each expand_to_tier add_quantities profit_per_day unit_price sum_from
detail_found = refl

detail_unknown :
    planet_schematic_detail fixed_point 1000 schematics group_of prices 9 ≡ err (http_status 404)
unfolding planet_schematic_detail
detail_unknown = refl

abbrev outputs : Dict ℕ SchematicDoc
outputs =
    (20, schematic 1 (input 20 5) (input 11 40 ∷ input 12 40 ∷ []))
    ∷ (11, schematic 2 (input 11 20) (input 1 3000 ∷ []))
    ∷ (12, schematic 3 (input 12 20) (input 2 3000 ∷ []))
    ∷ []

abbrev tiers : Dict ℕ ℕ
tiers = (20, 2) ∷ (11, 1) ∷ (12, 1) ∷ []

abbrev rank : ℕ → ℕ
rank t = t / 10

outputs-IsRanked : IsRanked fixed_point 0 outputs tiers rank
outputs-IsRanked t s found =
    AllEntries-lookup
      (λ k doc. All (λ (material : Material). rank material.type_id < rank k) doc.inputs) t s
      outputs ((omega arith, (omega arith, tt)), ((omega arith, tt), ((omega arith, tt), tt))) found

outputs-IsProductive : IsProductive fixed_point 0 outputs tiers rank
outputs-IsProductive t s found = ground arith

expand_to_tier-Expands_example :
    Expands fixed_point 0 outputs tiers rank 20
      (expand_to_tier fixed_point 0 outputs tiers 3 20 1_000_000)
    × (is_base fixed_point 0 outputs tiers rank 20 ≡ true
        → Alone fixed_point 0 outputs tiers rank 3 20 1_000_000)
expand_to_tier-Expands_example =
    expand_to_tier-Expands fixed_point 0 outputs tiers rank outputs-IsRanked outputs-IsProductive 3
      20 1_000_000 (omega arith)
