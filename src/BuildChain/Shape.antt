-- ===== src/BuildChain/Shape.antt =====
-- What the steps and the raw materials of the walk of services/build_chain.py look like.
use mathlib.Core.Path.{subst}
use eve_build.Prelude.{
  ℕ, ◌+◌, ◌*◌, ◌^◌, ◌≤◌, ◌<◌, ◌≡◌, refl, true, ◌⊎◌, some, [], nat_eq, arith, Option-cases, inl, inr,
}
use eve_build.Prelude.Dict.{Dict, lookup, AllEntries, AllEntries-insert, AllEntries-lookup}
use eve_build.Prelude.Exc.{ok}
use eve_build.External.Float.{FloatArith}
use eve_build.BuildChain.Recipe.{Recipe, SdeDb, recipe_for_product}
use eve_build.BuildChain.Walk.{
  BuildStep, Request, Walk, add_materials, adjusted_materials, additional_runs, step_or_new,
  leave_raw, build, walk,
}
use eve_build.BuildChain.Induction.{
  expanded, unknown, bought, built, visit_cases, OnVisit, walk_induction,
}
use eve_build.BuildChain.Conservation.{at_key, material_at, add_materials-at_key}

module _ (F : FloatArith) (db : SdeDb) (req : Request (FloatArith.Float F)) where
  open F use {of_ℕ, div, ceil}

  -- With whole numbers that a float holds exactly, the runs cover the quantity, with less than one
  -- run to spare unless a single run is enough.
  pub additional_runs-covers :
      (n pq : ℕ)
      → 0 < pq
      → n ≤ 2 ^ 53
      → pq ≤ 2 ^ 53
      → (n ≤ additional_runs F db req n pq * pq)
        × (1 ≤ additional_runs F db req n pq)
        × ((additional_runs F db req n pq ≡ 1) ⊎ (additional_runs F db req n pq * pq < n + pq))
  unfolding additional_runs
  additional_runs-covers n pq pos hn hp =
      let law = F.ceil_div n pq hn hp pos in ground (arith, law.0, law.1)

  pub record IsStep (k : ℕ) (recipe : Recipe) (step : BuildStep) : Type 0 where
    pub found : recipe_for_product db k ≡ some recipe
    pub asked : expanded F db req k ≡ true
    pub positive : 0 < recipe.output_quantity
    pub id : step.type_id ≡ k
    pub product : step.product_quantity ≡ recipe.output_quantity
    pub enough :
        step.quantity_needed ≤ 2 ^ 53
        → recipe.output_quantity ≤ 2 ^ 53
        → step.quantity_needed ≤ step.runs * recipe.output_quantity
    pub uses :
        (t : ℕ)
        → at_key t step.materials ≡ material_at t (adjusted_materials F db req k recipe) * step.runs

  abbrev pub AreSteps : Dict ℕ BuildStep → Type 0
  AreSteps = AllEntries (λ k step. (recipe : Recipe) × IsStep k recipe step × (1 ≤ step.runs))

  fresh : ℕ → Recipe → BuildStep
  unfolding step_or_new
  fresh k recipe = step_or_new F db req k recipe.output_quantity []

  fresh-IsStep :
      (k : ℕ) (recipe : Recipe)
      → recipe_for_product db k ≡ some recipe
      → expanded F db req k ≡ true
      → 0 < recipe.output_quantity
      → IsStep k recipe (fresh k recipe)
  unfolding fresh
  fresh-IsStep k recipe h a p = record {
    found = h;
    asked = a;
    positive = p;
    id = refl;
    product = refl;
    enough = λ _ _. omega arith;
    uses = λ t. omega arith;
  }

  -- One more visit of a type that has a step.
  grown-IsStep :
      (k n : ℕ) (recipe : Recipe) (old : BuildStep) (next : Dict ℕ ℕ)
      → IsStep k recipe old
      → IsStep k recipe (record old {
        quantity_needed = old.quantity_needed + n;
        runs = old.runs + additional_runs F db req n recipe.output_quantity;
        materials =
            (add_materials
              (additional_runs F db req n recipe.output_quantity)
              (adjusted_materials F db req k recipe)
              (old.materials, next)).0;
      })
  grown-IsStep k n recipe old next h =
      let runs = additional_runs F db req n recipe.output_quantity in
      record {
        found = h.found;
        asked = h.asked;
        positive = h.positive;
        id = h.id;
        product = h.product;
        enough = λ small fits.
            let before = h.enough (omega arith) fits in
            let covers =
              additional_runs-covers n recipe.output_quantity h.positive (omega arith) fits in
            omega (arith, before, covers.0);
        uses = λ t.
            let sums =
              add_materials-at_key t runs (adjusted_materials F db req k recipe) old.materials
                next in
            omega (arith, sums.0, h.uses t);
      }

  runs_pos : (n pq : ℕ) → 1 ≤ additional_runs F db req n pq
  unfolding additional_runs
  runs_pos n pq = ground arith

  found_or_fresh :
      (k : ℕ) (recipe : Recipe) (steps : Dict ℕ BuildStep)
      → recipe_for_product db k ≡ some recipe
      → expanded F db req k ≡ true
      → 0 < recipe.output_quantity
      → AreSteps steps
      → IsStep k recipe (step_or_new F db req k recipe.output_quantity steps)
  unfolding step_or_new
  found_or_fresh k recipe steps h a p all = elim (Option-cases (lookup k steps)) [
    | inl absent ↦ rw absent (unfold fresh in fresh-IsStep k recipe h a p)
    | inr (old, found) ↦
        let (r, is_step, _) = AllEntries-lookup _ k old steps all found in
        let same : r ≡ recipe = ground (arith, is_step.found) in
        rw found (subst (λ q. IsStep k q old) same is_step)
  ]

  build-AreSteps :
      (k n : ℕ) (recipe : Recipe) (w : Walk F)
      → recipe_for_product db k ≡ some recipe
      → expanded F db req k ≡ true
      → 0 < recipe.output_quantity
      → AreSteps w.steps_by_type_id
      → AreSteps (build F db req k n recipe w).steps_by_type_id
  unfolding build
  build-AreSteps k n recipe w h a p steps =
      AllEntries-insert _ k _ w.steps_by_type_id
        (
          recipe,
          grown-IsStep k n recipe (step_or_new F db req k recipe.output_quantity w.steps_by_type_id)
              w.next_level (found_or_fresh k recipe w.steps_by_type_id h a p steps),
          omega (arith, runs_pos n recipe.output_quantity),
        )
        steps

  visit-AreSteps : OnVisit F db req (λ w. AreSteps w.steps_by_type_id)
  unfolding leave_raw
  visit-AreSteps w w' k n e h = elim (visit_cases F db req w w' k n e) [
    | unknown absent same ↦ rw same h
    | bought recipe found no_build same ↦ rw same h
    | built recipe found asked pos same ↦ rw same (build-AreSteps k n recipe w found asked pos h)
  ]

  -- Every step of a finished walk has a recipe, and is the target or in the build set; its runs make
  -- enough, and it uses of every material the recipe's quantity (after the discount, for the
  -- target) times its runs.
  pub walk-AreSteps : (w : Walk F) → walk F db req ≡ ok w → AreSteps w.steps_by_type_id
  walk-AreSteps w e =
      walk_induction F db req (λ w. AreSteps w.steps_by_type_id) visit-AreSteps (λ w level h. h)
        (λ w k n h. h) w e tt
