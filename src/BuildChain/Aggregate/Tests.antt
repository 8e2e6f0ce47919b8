-- ===== src/BuildChain/Aggregate/Tests.antt =====
-- Two jobs that share a material, and each theorem at a concrete input.
use eve_build.Prelude.{ℕ, ◌≡◌, refl, true, false, none, List, [], ◌∷◌, String}
use eve_build.BuildChain.Walk.{BuildStep}
use eve_build.BuildChain.Aggregate.{RawMaterial, BuildResolution, aggregate_raw_materials}
use eve_build.BuildChain.Aggregate.Totals.{total_of, aggregate_raw_materials-total}

abbrev material : ℕ → String → ℕ → RawMaterial ℕ
material id name quantity = record {
  type_id = id;
  name = name;
  quantity = quantity;
  unit_price = 5;
  is_buildable = false;
}

abbrev built : ℕ → String → ℕ → BuildStep
built id name runs = record {
  type_id = id;
  name = name;
  quantity_needed = runs;
  runs = runs;
  product_quantity = 1;
  materials = [];
}

abbrev resolution : List BuildStep → List (RawMaterial ℕ) → BuildResolution ℕ
resolution steps raw_materials = record {
  target_type_id = 10;
  target_name = "Ship";
  target_quantity = 1;
  is_buildable = true;
  steps = steps;
  raw_materials = raw_materials;
  raw_material_cost = 0;
  output_value = 0;
  build_time_seconds = none;
}

abbrev resolutions : List (BuildResolution ℕ)
resolutions =
    resolution (built 20 "Plate" 4 ∷ built 10 "Ship" 1 ∷ [])
      (material 34 "Tritanium" 100 ∷ material 35 "Pyerite" 7 ∷ [])
    ∷ resolution (built 20 "Plate" 6 ∷ []) (material 34 "Tritanium" 20 ∷ [])
    ∷ []

shopping_list :
    aggregate_raw_materials resolutions ≡ material 35 "Pyerite" 7 ∷ material 34 "Tritanium" 120 ∷ []
unfolding aggregate_raw_materials
shopping_list = refl

aggregate_raw_materials-total_example :
    total_of
      (λ (m : RawMaterial ℕ). m.type_id)
      (λ m. m.quantity)
      34
      (aggregate_raw_materials resolutions)
    ≡ 120
aggregate_raw_materials-total_example = aggregate_raw_materials-total resolutions 34
