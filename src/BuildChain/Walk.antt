-- ===== src/BuildChain/Walk.antt =====
-- The level-by-level walk of `resolve_build_chain` in services/build_chain.py: its state, the body
-- of the loop over one level, and the loop over the levels.
use eve_build.Prelude.{
  ℕ, zero, suc, ◌+◌, ◌*◌, Bool, true, false, not, ◌&&◌, ◌||◌, none, some, List, [], ◌∷◌, String,
  if◌then◌else◌, ◌==◌, nat_eq, map, get_or, contains,
}
use eve_build.Prelude.Dict.{Dict, lookup, insert, set_default}
use eve_build.Prelude.Exc.{Result, ok, err, zero_division, ◌>>=◌, fold_m}
use eve_build.External.Float.{FloatArith}
use eve_build.BuildChain.Recipe.{Material, Recipe, SdeDb, recipe_for_product}
use eve_build.BuildChain.Efficiency.{max, material_quantity_per_run}

pub record BuildStep : Type 0 where
  pub type_id : ℕ
  pub name : String
  pub quantity_needed : ℕ
  pub runs : ℕ
  pub product_quantity : ℕ
  pub materials : Dict ℕ ℕ

-- `d[k] = d.get(k, 0) + n`
unfoldable pub bump : ℕ → ℕ → Dict ℕ ℕ → Dict ℕ ℕ
bump k n d = insert k (get_or (lookup k d) 0 + n) d

-- The loop over a recipe's materials: the step's own totals and the next level's.
unfoldable pub add_materials : ℕ → List Material → Dict ℕ ℕ × Dict ℕ ℕ → Dict ℕ ℕ × Dict ℕ ℕ
add_materials runs [] totals = totals
add_materials runs (material ∷ rest) (own, next) =
    let needed = material.quantity * runs in
    add_materials runs rest (bump material.type_id needed own, bump material.type_id needed next)

-- The arguments of `resolve_build_chain` that the walk reads.
pub record Request (Float : Type 0) : Type 0 where
  pub target_type_id : ℕ
  pub target_quantity : ℕ
  pub build_set : List ℕ
  pub material_efficiency : ℕ
  pub time_efficiency : ℕ
  pub structure_bonus : Float

abbrev pub max_depth : ℕ
max_depth = 15

module _ (F : FloatArith) where
  open F use {Float, of_ℕ, add, mul, div, ceil, truthy}

  pub record Walk : Type 0 where
    pub steps_by_type_id : Dict ℕ BuildStep
    pub raw_totals : Dict ℕ ℕ
    pub raw_buildable : Dict ℕ Bool
    pub next_level : Dict ℕ ℕ
    pub target_build_time_seconds : Float

  abbrev pub start : Walk
  start = record {
    steps_by_type_id = [];
    raw_totals = [];
    raw_buildable = [];
    next_level = [];
    target_build_time_seconds = of_ℕ 0;
  }

module _ (F : FloatArith) (db : SdeDb) (req : Request (FloatArith.Float F)) where
  open F use {Float, of_ℕ, add, mul, div, ceil, truthy}

  abbrev is_target : ℕ → Bool
  is_target type_id = type_id == req.target_type_id

  -- Only the target's own recipe is adjusted, and only if some discount is set.
  unfoldable pub adjusted_materials : ℕ → Recipe → List Material
  adjusted_materials type_id recipe =
      if is_target type_id && (not (req.material_efficiency == 0) || truthy req.structure_bonus)
      then map
          (λ material. record {
            type_id = material.type_id;
            quantity =
                material_quantity_per_run F material.quantity req.material_efficiency
                  req.structure_bonus;
          })
          recipe.materials
      else recipe.materials

  unfoldable pub additional_runs : ℕ → ℕ → ℕ
  additional_runs quantity product_quantity =
      max 1 (ceil (div (of_ℕ quantity) (of_ℕ product_quantity)))

  -- The step found for the type, or a fresh one.
  unfoldable pub step_or_new : ℕ → ℕ → Dict ℕ BuildStep → BuildStep
  step_or_new type_id product_quantity steps = get_or (lookup type_id steps) (record {
    type_id = type_id;
    name = "";
    quantity_needed = 0;
    runs = 0;
    product_quantity = product_quantity;
    materials = [];
  })

  unfoldable pub leave_raw : ℕ → ℕ → Bool → Walk F → Walk F
  leave_raw type_id quantity buildable w = record w {
    raw_totals = bump type_id quantity w.raw_totals;
    raw_buildable = insert type_id buildable w.raw_buildable;
  }

  unfoldable pub build : ℕ → ℕ → Recipe → Walk F → Walk F
  build type_id quantity recipe w =
      let runs = additional_runs quantity recipe.output_quantity in
      let step = step_or_new type_id recipe.output_quantity w.steps_by_type_id in
      let totals =
        add_materials runs (adjusted_materials type_id recipe) (step.materials, w.next_level) in
      record w {
        steps_by_type_id =
            insert type_id
              (record step {
                quantity_needed = step.quantity_needed + quantity;
                runs = step.runs + runs;
                materials = totals.0;
              })
              w.steps_by_type_id;
        next_level = totals.1;
        target_build_time_seconds =
            if is_target type_id
            then add w.target_build_time_seconds (mul (of_ℕ recipe.time_seconds) (of_ℕ runs))
            else w.target_build_time_seconds;
      }

  -- The body of `for type_id, quantity in current_level.items()`.
  unfoldable pub visit : Walk F → ℕ × ℕ → Result (Walk F)
  visit w (type_id, quantity) = elim (recipe_for_product db type_id) [
    | none ↦ ok (leave_raw type_id quantity false w)
    | some recipe ↦
        if not (is_target type_id) && not (contains type_id req.build_set)
        then ok (leave_raw type_id quantity true w)
        else if recipe.output_quantity == 0
        then err zero_division
        else ok (build type_id quantity recipe w)
  ]

  -- The `while` loop, on the levels left of `_MAX_DEPTH`. It returns the demand left over, too.
  unfoldable pub walk_levels : ℕ → Dict ℕ ℕ → Walk F → Result (Dict ℕ ℕ × Walk F)
  walk_levels zero level w = ok (level, w)
  walk_levels (suc depth) [] w = ok ([], w)
  walk_levels (suc depth) (demand ∷ level) w =
      fold_m visit (record w { next_level = [] }) (demand ∷ level) >>= λ w'.
      walk_levels depth w'.next_level w'

  -- What is left over at the recursion guard is treated as raw.
  unfoldable pub leave_rest : Dict ℕ ℕ → Walk F → Walk F
  leave_rest [] w = w
  leave_rest ((type_id, quantity) ∷ level) w = leave_rest level (record w {
    raw_totals = bump type_id quantity w.raw_totals;
    raw_buildable = set_default type_id false w.raw_buildable;
  })

  unfoldable pub walk : Result (Walk F)
  walk =
      walk_levels max_depth ((req.target_type_id, req.target_quantity) ∷ []) (start F)
      >>= λ (level, w). ok (leave_rest level w)
