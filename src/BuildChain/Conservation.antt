-- ===== src/BuildChain/Conservation.antt =====
-- Demand in the walk of services/build_chain.py: every unit that a step consumes, and the order
-- itself, is either made by a step or left as raw material.
use mathlib.Core.Path.{subst}
use eve_build.Prelude.{
  ℕ, zero, suc, ◌+◌, ◌*◌, ◌≡◌, refl, Bool, List, [], ◌∷◌, if◌then◌else◌, ◌==◌, nat_eq, arith,
  Option-cases, inl, inr, sum_by,
}
use eve_build.Prelude.Dict.{Dict, lookup, insert, weight, weight-insert, weight-insert_new}
use eve_build.Prelude.Exc.{ok, fold_m, >>=-eq-ok}
use eve_build.External.Float.{FloatArith}
use eve_build.BuildChain.Recipe.{Material, Recipe, SdeDb}
use eve_build.BuildChain.Walk.{
  BuildStep, Request, Walk, bump, add_materials, adjusted_materials, additional_runs, step_or_new,
  leave_raw, build, visit, walk_levels, leave_rest, walk, start, max_depth,
}

-- The number of units under one type id.
abbrev pub at_key : ℕ → Dict ℕ ℕ → ℕ
at_key t = weight (λ k q. if k == t then q else 0)

-- Units of `t` that the steps consume as material, and units of `t` that a step is to make.
abbrev pub consumed : ℕ → Dict ℕ BuildStep → ℕ
consumed t = weight (λ k step. at_key t step.materials)

abbrev pub made : ℕ → Dict ℕ BuildStep → ℕ
made t = weight (λ k step. if k == t then step.quantity_needed else 0)

abbrev pub material_at : ℕ → List Material → ℕ
material_at t = sum_by (λ material. if material.type_id == t then material.quantity else 0)

pub at_key-bump :
    (t k n : ℕ) (d : Dict ℕ ℕ) → at_key t (bump k n d) ≡ at_key t d + (if k == t then n else 0)
unfolding bump
at_key-bump t k n d = elim (Option-cases (lookup k d)) [
  | inl absent ↦
      rw absent (ground (arith, weight-insert_new (λ k q. if k == t then q else 0) k n d absent))
  | inr (old, found) ↦
      rw found
        (ground (arith, weight-insert (λ k q. if k == t then q else 0) k (old + n) old d found))
]

-- The two totals of the loop over the materials grow alike, by the runs times the quantities.
pub add_materials-at_key :
    (t runs : ℕ) (materials : List Material) (own next : Dict ℕ ℕ)
    → (at_key t (add_materials runs materials (own, next)).0
        ≡ at_key t own + material_at t materials * runs)
      × (at_key t (add_materials runs materials (own, next)).1
          ≡ at_key t next + material_at t materials * runs)
unfolding add_materials
add_materials-at_key t runs [] own next = (omega arith, omega arith)
add_materials-at_key t runs (material ∷ rest) own next =
    let id = material.type_id in
    let n = material.quantity * runs in
    let ih = add_materials-at_key t runs rest (bump id n own) (bump id n next) in
    (ground (arith, ih.0, at_key-bump t id n own), ground (arith, ih.1, at_key-bump t id n next))

module _ (F : FloatArith) (db : SdeDb) (req : Request (FloatArith.Float F)) (t : ℕ) where
  abbrev pub ordered : ℕ
  ordered = if req.target_type_id == t then req.target_quantity else 0

  -- Units consumed and ordered, against units raw, made, and still to be looked at.
  abbrev pub IsBalanced : Dict ℕ ℕ → Walk F → Type 0
  IsBalanced rest w =
      consumed t w.steps_by_type_id + ordered
      ≡ at_key t w.raw_totals + made t w.steps_by_type_id + at_key t w.next_level + at_key t rest

  leave_raw-IsBalanced :
      (k n : ℕ) (b : Bool) (rest : Dict ℕ ℕ) (w : Walk F)
      → IsBalanced ((k, n) ∷ rest) w
      → IsBalanced rest (leave_raw F db req k n b w)
  unfolding leave_raw
  leave_raw-IsBalanced k n b rest w h = omega (arith, at_key-bump t k n w.raw_totals)

  -- Writing back the step of a type, with whatever the step holds now.
  weight-insert_step :
      (f : ℕ → BuildStep → ℕ) (k quantity : ℕ) (step : BuildStep) (steps : Dict ℕ BuildStep)
      → f k (step_or_new F db req k quantity []) ≡ 0
      → weight f (insert k step steps) + f k (step_or_new F db req k quantity steps)
        ≡ weight f steps + f k step
  unfolding step_or_new
  weight-insert_step f k quantity step steps h = elim (Option-cases (lookup k steps)) [
    | inl absent ↦ rw absent (omega (arith, weight-insert_new f k step steps absent))
    | inr (old, found) ↦ rw found (weight-insert f k step old steps found)
  ]

  made-insert_step :
      (k quantity n : ℕ) (step : BuildStep) (steps : Dict ℕ BuildStep)
      → step.quantity_needed ≡ (step_or_new F db req k quantity steps).quantity_needed + n
      → made t (insert k step steps) ≡ made t steps + (if k == t then n else 0)
  made-insert_step k quantity n step steps h =
      let law =
        weight-insert_step (λ j s. if j == t then s.quantity_needed else 0) k quantity step steps
          (unfold step_or_new in ground arith) in
      ground (arith, law)

  build-IsBalanced :
      (k n : ℕ) (recipe : Recipe) (rest : Dict ℕ ℕ) (w : Walk F)
      → IsBalanced ((k, n) ∷ rest) w
      → IsBalanced rest (build F db req k n recipe w)
  unfolding build
  build-IsBalanced k n recipe rest w h =
      let pq = recipe.output_quantity in
      let old = step_or_new F db req k pq w.steps_by_type_id in
      let runs = additional_runs F db req n pq in
      let materials = adjusted_materials F db req k recipe in
      let grown = add_materials-at_key t runs materials old.materials w.next_level in
      let totals = add_materials runs materials (old.materials, w.next_level) in
      let step : BuildStep = record old {
        quantity_needed = old.quantity_needed + n;
        runs = old.runs + runs;
        materials = totals.0;
      } in
      let m = made-insert_step k pq n step w.steps_by_type_id refl in
      let c =
        weight-insert_step (λ j s. at_key t s.materials) k pq step w.steps_by_type_id
          (unfold step_or_new in refl) in
      omega (arith, m, c, grown.0, grown.1)

  visit-IsBalanced :
      (k n : ℕ) (rest : Dict ℕ ℕ) (w w' : Walk F)
      → visit F db req w (k, n) ≡ ok w'
      → IsBalanced ((k, n) ∷ rest) w
      → IsBalanced rest w'
  unfolding visit
  visit-IsBalanced k n rest w w' e h = grind (arith, leave_raw-IsBalanced, build-IsBalanced)

  level-IsBalanced :
      (level : Dict ℕ ℕ) (w w' : Walk F)
      → fold_m (visit F db req) w level ≡ ok w'
      → IsBalanced level w
      → IsBalanced [] w'
  level-IsBalanced [] w w' e h = ground arith
  level-IsBalanced ((k, n) ∷ level) w w' e h =
      let (w1, first, later) = >>=-eq-ok (visit F db req w (k, n)) _ e in
      level-IsBalanced level w1 w' later (visit-IsBalanced k n level w w1 first h)

  -- Between two levels, the next level of the one is the demand of the other.
  abbrev IsSettled : Dict ℕ ℕ → Walk F → Type 0
  IsSettled level w = IsBalanced level (record w { next_level = [] })

  walk_levels-IsSettled :
      (depth : ℕ) (level : Dict ℕ ℕ) (w : Walk F) (level' : Dict ℕ ℕ) (w' : Walk F)
      → walk_levels F db req depth level w ≡ ok (level', w')
      → IsSettled level w
      → IsSettled level' w'
  unfolding walk_levels
  walk_levels-IsSettled zero level w level' w' e h = ground arith
  walk_levels-IsSettled (suc depth) [] w level' w' e h = ground arith
  walk_levels-IsSettled (suc depth) (demand ∷ level) w level' w' e h =
      let (w1, here, later) =
        >>=-eq-ok (fold_m (visit F db req) (record w { next_level = [] }) (demand ∷ level)) _ e in
      let balanced = level-IsBalanced (demand ∷ level) (record w { next_level = [] }) w1 here h in
      walk_levels-IsSettled depth w1.next_level w1 level' w' later (omega (arith, balanced))

  leave_rest-IsSettled :
      (level : Dict ℕ ℕ) (w : Walk F)
      → IsSettled level w
      → IsSettled [] (leave_rest F db req level w)
  unfolding leave_rest
  leave_rest-IsSettled [] w h = h
  leave_rest-IsSettled ((k, n) ∷ level) w h =
      leave_rest-IsSettled level _ (omega (arith, at_key-bump t k n w.raw_totals))

  -- Demand is conserved by the whole walk: for every type, what the steps consume plus what was
  -- ordered is what the steps make plus what is listed as raw, also when the recursion guard stops
  -- the walk early.
  pub walk_conserves :
      (w : Walk F)
      → walk F db req ≡ ok w
      → consumed t w.steps_by_type_id + ordered ≡ at_key t w.raw_totals + made t w.steps_by_type_id
  unfolding walk
  walk_conserves w e =
      let (found, levels, last) = >>=-eq-ok (walk_levels F db req max_depth _ (start F)) _ e in
      let settled =
        walk_levels-IsSettled max_depth ((req.target_type_id, req.target_quantity) ∷ []) (start F)
          found.0 found.1 levels (omega arith) in
      let done = leave_rest-IsSettled found.0 found.1 settled in
      let same : leave_rest F db req found.0 found.1 ≡ w = cc in
      subst
        (λ (v : Walk F).
          consumed t v.steps_by_type_id + ordered
          ≡ at_key t v.raw_totals + made t v.steps_by_type_id)
        same (omega (arith, done))
