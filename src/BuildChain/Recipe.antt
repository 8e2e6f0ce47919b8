-- ===== src/BuildChain/Recipe.antt =====
-- The recipes of services/build_chain.py and the two reverse lookups of services/sde.py, over the
-- documents of the collections sde_blueprints and sde_planet_schematics.
use eve_build.Prelude.{ℕ, Option, none, some, List, ◌==◌, nat_eq, find, get_or}

-- `{"type_id": ..., "quantity": ...}`
pub record Material : Type 0 where
  pub type_id : ℕ
  pub quantity : ℕ

pub record BlueprintDoc : Type 0 where
  pub id : ℕ
  pub product_type_id : ℕ
  pub product_quantity : Option ℕ
  pub materials : List Material
  pub manufacturing_time_seconds : Option ℕ

pub record SchematicDoc : Type 0 where
  pub id : ℕ
  pub output : Material
  pub inputs : List Material
  pub cycle_time_seconds : Option ℕ

-- The documents that the lookups read, in natural order.
pub record SdeDb : Type 0 where
  pub sde_blueprints : List BlueprintDoc
  pub sde_planet_schematics : List SchematicDoc

unfoldable pub blueprint_for_product : SdeDb → ℕ → Option BlueprintDoc
blueprint_for_product db product_type_id =
    find (λ doc. doc.product_type_id == product_type_id) db.sde_blueprints

unfoldable pub planet_schematic_for_product : SdeDb → ℕ → Option SchematicDoc
planet_schematic_for_product db product_type_id =
    find (λ doc. doc.output.type_id == product_type_id) db.sde_planet_schematics

-- `time_seconds` holds a whole number, which the code converts by `float`.
pub record Recipe : Type 0 where
  pub output_quantity : ℕ
  pub materials : List Material
  pub time_seconds : ℕ

abbrev blueprint_recipe : BlueprintDoc → Recipe
blueprint_recipe blueprint = record {
  output_quantity = get_or blueprint.product_quantity 1;
  materials = blueprint.materials;
  time_seconds = get_or blueprint.manufacturing_time_seconds 0;
}

abbrev schematic_recipe : SchematicDoc → Recipe
schematic_recipe schematic = record {
  output_quantity = schematic.output.quantity;
  materials = schematic.inputs;
  time_seconds = get_or schematic.cycle_time_seconds 0;
}

unfoldable pub recipe_for_product : SdeDb → ℕ → Option Recipe
unfolding blueprint_for_product planet_schematic_for_product
recipe_for_product db product_type_id = elim (blueprint_for_product db product_type_id) [
  | some blueprint ↦ some (blueprint_recipe blueprint)
  | none ↦ elim (planet_schematic_for_product db product_type_id) [
    | some schematic ↦ some (schematic_recipe schematic)
    | none ↦ none
  ]
]
