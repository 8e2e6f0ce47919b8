-- ===== src/BuildChain/Aggregate.antt =====
-- `aggregate_raw_materials` and `aggregate_build_steps` of services/build_chain.py, with the records
-- that they merge.
pub mod Totals
mod Tests
use eve_build.Prelude.{
  ℕ, ◌+◌, Bool, true, false, Option, none, some, List, [], ◌∷◌, ◌++◌, String, nat_eq, if◌then◌else◌,
}
use eve_build.Prelude.Dict.{Dict, lookup, insert, values}
use eve_build.Prelude.Sort.{sorted_by}
use eve_build.External.Float.{FloatArith}
use eve_build.BuildChain.Walk.{BuildStep}

module _ (Float : Type 0) where
  pub record RawMaterial : Type 0 where
    pub type_id : ℕ
    pub name : String
    pub quantity : ℕ
    pub unit_price : Float
    pub is_buildable : Bool

  pub record BuildResolution : Type 0 where
    pub target_type_id : ℕ
    pub target_name : String
    pub target_quantity : ℕ
    pub is_buildable : Bool
    pub steps : List BuildStep
    pub raw_materials : List RawMaterial
    pub raw_material_cost : Float
    pub output_value : Float
    pub build_time_seconds : Option Float

-- The body of the inner loop: the first occurrence is kept, and later ones are added to it.
module _ {A : Type 0} (type_id : A → ℕ) (add_to : A → A → A) where
  abbrev pub merge_one : A → Dict ℕ A → Dict ℕ A
  merge_one item merged = elim (lookup (type_id item) merged) [
    | none ↦ insert (type_id item) item merged
    | some existing ↦ insert (type_id item) (add_to existing item) merged
  ]

  abbrev pub merge_each : List A → Dict ℕ A → Dict ℕ A
  merge_each [] merged = merged
  merge_each (item ∷ items) merged = merge_each items (merge_one item merged)

-- `existing.quantity += material.quantity`
abbrev pub add_material :
    {Float : Type 0} → RawMaterial Float → RawMaterial Float → RawMaterial Float
add_material existing material = record existing {
  quantity = existing.quantity + material.quantity;
}

-- `existing.quantity_needed += step.quantity_needed; existing.runs += step.runs`
abbrev pub add_step : BuildStep → BuildStep → BuildStep
add_step existing step = record existing {
  quantity_needed = existing.quantity_needed + step.quantity_needed;
  runs = existing.runs + step.runs;
}

-- The inner loop of each resolution, one after the other.
abbrev pub merge_all : {A : Type 0} → (A → ℕ) → (A → A → A) → List (List A) → Dict ℕ A → Dict ℕ A
merge_all type_id add_to [] merged = merged
merge_all type_id add_to (items ∷ rest) merged =
    merge_all type_id add_to rest (merge_each type_id add_to items merged)

abbrev pub each_of : {R A : Type 0} → (R → List A) → List R → List (List A)
each_of part [] = []
each_of part (resolution ∷ resolutions) = part resolution ∷ each_of part resolutions

-- `merged`
abbrev pub merged_materials :
    {Float : Type 0} → List (BuildResolution Float) → Dict ℕ (RawMaterial Float)
merged_materials resolutions =
    merge_all (λ material. material.type_id) add_material
      (each_of (λ resolution. resolution.raw_materials) resolutions) []

abbrev pub merged_steps : {Float : Type 0} → List (BuildResolution Float) → Dict ℕ BuildStep
merged_steps resolutions =
    merge_all (λ step. step.type_id) add_step (each_of (λ resolution. resolution.steps) resolutions)
      []

unfoldable pub aggregate_raw_materials :
    {Float : Type 0} → List (BuildResolution Float) → List (RawMaterial Float)
aggregate_raw_materials resolutions =
    sorted_by (λ material. material.name) (values (merged_materials resolutions))

unfoldable pub aggregate_build_steps :
    {Float : Type 0} → List (BuildResolution Float) → List BuildStep
aggregate_build_steps resolutions =
    sorted_by (λ step. step.name) (values (merged_steps resolutions))
