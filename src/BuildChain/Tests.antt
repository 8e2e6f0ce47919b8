-- ===== src/BuildChain/Tests.antt =====
-- Runs of the build chain on a small catalogue, and each theorem at a concrete input.
use eve_build.Prelude.{
  All, ◌⊎◌, ℕ, ◌+◌, ◌-◌, ◌/◌, ◌≤◌, ◌≡◌, refl, true, false, none, some, List, [], ◌∷◌, arith,
  contains, IsUnique, nat_eq,
}
use eve_build.Prelude.Dict.{AllEntries, lookup}
use eve_build.Prelude.Exc.{ok}
use eve_build.External.Fixed.{fixed_point}
use eve_build.BuildChain.Recipe.{Material, SdeDb, recipe_for_product}
use eve_build.BuildChain.Walk.{
  BuildStep, Request, Walk, walk, visit, walk_levels, leave_rest, leave_raw, build, step_or_new,
  additional_runs, adjusted_materials, add_materials, bump,
}
use eve_build.BuildChain.Efficiency.{max, structure_material_bonus, material_quantity_per_run}
use eve_build.BuildChain.Efficiency.Errors.{IsUnknown, IsBonus, structure_material_bonus_cases}
use eve_build.BuildChain.Efficiency.Laws.{
  material_quantity_per_run_bounds, material_quantity_per_run_plain,
}
use eve_build.BuildChain.Conservation.{at_key, consumed, made, walk_conserves, ordered}
use eve_build.BuildChain.Shape.{AreSteps, walk-AreSteps}
use eve_build.BuildChain.Raw.{IsListed, walk-IsListed, IsProductive}
use eve_build.BuildChain.Order.{visit_each, visit_type, topological_order}
use eve_build.BuildChain.Order.Before.{ids, has_step, IsStepOf, IsBuildOrder, IsAcyclic}
use eve_build.BuildChain.Order.Visit.{topological_order-IsBuildOrder}
use eve_build.BuildChain.Depth.{IsRanking, IsExact, walk_flags_exactly}

abbrev mat : ℕ → ℕ → Material
mat t q = record { type_id = t; quantity = q }

-- A ship (10) from plates (20) and ore (30); plates from ore and coolant (40); coolant by a
-- planetary schematic from water (50).
abbrev pub db : SdeDb
db = record {
  sde_blueprints =
      record {
        id = 1;
        product_type_id = 10;
        product_quantity = none;
        materials = mat 20 5 ∷ mat 30 2 ∷ [];
        manufacturing_time_seconds = some 600;
      }
      ∷ record {
        id = 2;
        product_type_id = 20;
        product_quantity = some 2;
        materials = mat 30 3 ∷ mat 40 1 ∷ [];
        manufacturing_time_seconds = none;
      }
      ∷ [];
  sde_planet_schematics =
      record { id = 3; output = mat 40 5; inputs = mat 50 40 ∷ []; cycle_time_seconds = some 3600 }
      ∷ [];
}

abbrev pub req : Request ℕ
req = record {
  target_type_id = 10;
  target_quantity = 4;
  build_set = 20 ∷ [];
  material_efficiency = 10;
  time_efficiency = 0;
  structure_bonus = 0;
}

abbrev pub finished : Walk fixed_point
finished = record {
  steps_by_type_id =
      (
        10,
        record {
          type_id = 10;
          name = "";
          quantity_needed = 4;
          runs = 4;
          product_quantity = 1;
          materials = (20, 20) ∷ (30, 8) ∷ [];
        },
      )
      ∷ (
        20,
        record {
          type_id = 20;
          name = "";
          quantity_needed = 20;
          runs = 10;
          product_quantity = 2;
          materials = (30, 30) ∷ (40, 10) ∷ [];
        },
      )
      ∷ [];
  raw_totals = (30, 38) ∷ (40, 10) ∷ [];
  raw_buildable = (30, false) ∷ (40, true) ∷ [];
  next_level = [];
  target_build_time_seconds = 2_400_000_000;
}

pub walk-finished : walk fixed_point db req ≡ ok finished
unfolding walk walk_levels visit leave_rest leave_raw build step_or_new additional_runs
    adjusted_materials add_materials bump recipe_for_product material_quantity_per_run
walk-finished = refl

walk_conserves_example :
    consumed 30 finished.steps_by_type_id + ordered fixed_point db req 30
    ≡ at_key 30 finished.raw_totals + made 30 finished.steps_by_type_id
walk_conserves_example = walk_conserves fixed_point db req 30 finished walk-finished

walk-AreSteps_example : AreSteps fixed_point db req finished.steps_by_type_id
walk-AreSteps_example = walk-AreSteps fixed_point db req finished walk-finished

walk-IsListed_example : IsListed fixed_point db req finished
walk-IsListed_example = walk-IsListed fixed_point db req finished walk-finished

pub db-IsProductive : IsProductive fixed_point db req
unfolding recipe_for_product
db-IsProductive k recipe found = ground arith

abbrev pub rank : ℕ → ℕ
rank k = 6 - k / 10

db-IsRanking : IsRanking fixed_point db req rank
unfolding recipe_for_product
db-IsRanking k recipe found asked = ground arith

walk_flags_exactly_example :
    AllEntries (IsExact fixed_point db req rank db-IsRanking) finished.raw_buildable
walk_flags_exactly_example =
    walk_flags_exactly fixed_point db req rank db-IsRanking finished (omega arith) walk-finished

material_quantity_per_run_bounds_example :
    (1 ≤ material_quantity_per_run fixed_point 125 10 59_896)
    × (material_quantity_per_run fixed_point 125 10 59_896 ≤ max 1 125)
material_quantity_per_run_bounds_example =
    material_quantity_per_run_bounds fixed_point 125 10 59_896 (omega arith) (omega arith) refl

material_quantity_per_run_plain_example : material_quantity_per_run fixed_point 125 0 0 ≡ 125
material_quantity_per_run_plain_example =
    material_quantity_per_run_plain fixed_point 125 (omega arith)

structure_material_bonus_cases_example :
    IsUnknown fixed_point "t3" "high" (structure_material_bonus fixed_point true (some "t3") "high")
    ⊎ IsBonus fixed_point "t3" "high" (structure_material_bonus fixed_point true (some "t3") "high")
structure_material_bonus_cases_example = structure_material_bonus_cases fixed_point "t3" "high" refl

quantity_at_ten : material_quantity_per_run fixed_point 125 10 59_896 ≡ 106
unfolding material_quantity_per_run
quantity_at_ten = refl

-- The steps of the walk above: the ship's step uses what the plates' step makes.
abbrev ordered_steps : List BuildStep
ordered_steps =
    record {
      type_id = 20;
      name = "";
      quantity_needed = 20;
      runs = 10;
      product_quantity = 2;
      materials = (30, 30) ∷ (40, 10) ∷ [];
    }
    ∷ record {
      type_id = 10;
      name = "";
      quantity_needed = 4;
      runs = 4;
      product_quantity = 1;
      materials = (20, 20) ∷ (30, 8) ∷ [];
    }
    ∷ []

order-finished : topological_order 10 finished.steps_by_type_id ≡ some ordered_steps
unfolding topological_order visit_type visit_each
order-finished = refl

pub finished-IsAcyclic : IsAcyclic finished.steps_by_type_id rank
finished-IsAcyclic k m step found uses known = ground arith

finished-named :
    (k : ℕ) (step : BuildStep) → lookup k finished.steps_by_type_id ≡ some step → step.type_id ≡ k
finished-named k step found = ground arith

topological_order-IsBuildOrder_example :
    All (IsStepOf finished.steps_by_type_id) ordered_steps
    × IsUnique (ids ordered_steps)
    × (has_step finished.steps_by_type_id 10 ≡ true → contains 10 (ids ordered_steps) ≡ true)
    × IsBuildOrder finished.steps_by_type_id [] ordered_steps
topological_order-IsBuildOrder_example =
    topological_order-IsBuildOrder finished.steps_by_type_id rank finished-IsAcyclic finished-named
      10 order-finished
