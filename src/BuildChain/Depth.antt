-- ===== src/BuildChain/Depth.antt =====
-- `_MAX_DEPTH` of services/build_chain.py is enough for recipes whose chains are shorter.
use eve_build.Prelude.{
  ℕ, zero, suc, ◌*◌, ◌<◌, ◌≡◌, refl, Bool, true, false, some, List, [], ◌∷◌, nat_eq, if◌then◌else◌,
  is_some, arith, sym, ap, ◌∙◌, All, map,
}
use eve_build.Prelude.Dict.{Dict, AllEntries, AllEntries-insert}
use eve_build.Prelude.Exc.{ok, fold_m, >>=-eq-ok}
use eve_build.External.Float.{FloatArith}
use eve_build.BuildChain.Recipe.{Material, Recipe, SdeDb, recipe_for_product}
use eve_build.BuildChain.Walk.{
  Request, Walk, bump, add_materials, adjusted_materials, leave_raw, build, visit, walk_levels,
  leave_rest, walk, start, max_depth,
}
use eve_build.BuildChain.Induction.{
  expanded, unknown, bought, built, visit_cases, OnVisit, levels_induction,
}

module _ (F : FloatArith) (db : SdeDb) (req : Request (FloatArith.Float F)) where
  -- A number for each type that falls along every recipe that the walk expands.
  abbrev pub IsRanking : (ℕ → ℕ) → Type 0
  IsRanking rank =
      (k : ℕ) (recipe : Recipe)
      → recipe_for_product db k ≡ some recipe
      → expanded F db req k ≡ true
      → All (λ (material : Material). rank material.type_id < rank k) recipe.materials

  module _ (rank : ℕ → ℕ) (ranking : IsRanking rank) where
    abbrev Below : ℕ → Dict ℕ ℕ → Type 0
    Below d = AllEntries (λ k n. rank k < d)

    bump-Below :
        (d k n : ℕ) (level : Dict ℕ ℕ) → rank k < d → Below d level → Below d (bump k n level)
    unfolding bump
    bump-Below d k n level p h = AllEntries-insert (λ k n. rank k < d) k _ level p h

    add_materials-Below :
        (d runs : ℕ) (materials : List Material) (own next : Dict ℕ ℕ)
        → All (λ (material : Material). rank material.type_id < d) materials
        → Below d next
        → Below d (add_materials runs materials (own, next)).1
    unfolding add_materials
    add_materials-Below d runs [] own next small h = h
    add_materials-Below d runs (material ∷ rest) own next small h =
        add_materials-Below d runs rest _ _ small.1
          (bump-Below d material.type_id (material.quantity * runs) next small.0 h)

    map-small :
        (d : ℕ) (f : Material → Material) (materials : List Material)
        → ((material : Material) → (f material).type_id ≡ material.type_id)
        → All (λ (material : Material). rank material.type_id < d) materials
        → All (λ (material : Material). rank material.type_id < d) (map f materials)
    map-small d f [] keeps h = tt
    map-small d f (material ∷ rest) keeps h = (rw keeps h.0, map-small d f rest keeps h.1)

    weaken :
        (d d' : ℕ) (materials : List Material)
        → d < suc d'
        → All (λ (material : Material). rank material.type_id < d) materials
        → All (λ (material : Material). rank material.type_id < d') materials
    weaken d d' [] le h = tt
    weaken d d' (material ∷ rest) le h = (omega arith, weaken d d' rest le h.1)

    either-small :
        (d : ℕ) (b : Bool) (xs ys : List Material)
        → All (λ (material : Material). rank material.type_id < d) xs
        → All (λ (material : Material). rank material.type_id < d) ys
        → All (λ (material : Material). rank material.type_id < d) (if b then xs else ys)
    either-small d true xs ys hx hy = hx
    either-small d false xs ys hx hy = hy

    adjusted-small :
        (d k : ℕ) (recipe : Recipe)
        → All (λ (material : Material). rank material.type_id < d) recipe.materials
        → All
            (λ (material : Material). rank material.type_id < d)
            (adjusted_materials F db req k recipe)
    unfolding adjusted_materials
    adjusted-small d k recipe h =
        either-small d _ _ _ (map-small d _ recipe.materials (λ material. refl) h) h

    visit-Below :
        (d : ℕ) (w w' : Walk F) (k n : ℕ)
        → visit F db req w (k, n) ≡ ok w'
        → rank k < suc d
        → Below d w.next_level
        → Below d w'.next_level
    visit-Below d w w' k n e p h = elim (visit_cases F db req w w' k n e) [
      | unknown absent same ↦ rw same (unfold leave_raw in h)
      | bought recipe found no_build same ↦ rw same (unfold leave_raw in h)
      | built recipe found asked pos same ↦ rw same (
          unfold build in
          add_materials-Below d _ (adjusted_materials F db req k recipe) _ w.next_level
            (adjusted-small d k recipe
              (weaken (rank k) d recipe.materials p (ranking k recipe found asked)))
            h)
    ]

    level-Below :
        (d : ℕ) (level : Dict ℕ ℕ) (w w' : Walk F)
        → fold_m (visit F db req) w level ≡ ok w'
        → Below (suc d) level
        → Below d w.next_level
        → Below d w'.next_level
    level-Below d [] w w' e small h = let same : w ≡ w' = cc in rw (← same) h
    level-Below d ((k, n) ∷ level) w w' e small h =
        let (w1, first, later) = >>=-eq-ok (visit F db req w (k, n)) _ e in
        level-Below d level w1 w' later small.1 (visit-Below d w w1 k n first small.0 h)

    levels_end :
        (depth : ℕ) (level : Dict ℕ ℕ) (w : Walk F) (level' : Dict ℕ ℕ) (w' : Walk F)
        → walk_levels F db req depth level w ≡ ok (level', w')
        → Below depth level
        → level' ≡ []
    unfolding walk_levels
    levels_end zero [] w level' w' e h = ground arith
    levels_end zero ((k, n) ∷ level) w level' w' e h = absurd (omega arith)
    levels_end (suc depth) [] w level' w' e h = ground arith
    levels_end (suc depth) (demand ∷ level) w level' w' e h =
        let (w1, here, later) =
          >>=-eq-ok (fold_m (visit F db req) (record w { next_level = [] }) (demand ∷ level)) _ e in
        levels_end depth w1.next_level w1 level' w' later
          (level-Below depth (demand ∷ level) (record w { next_level = [] }) w1 here h tt)

    abbrev pub IsExact : ℕ → Bool → Type 0
    IsExact k b = b ≡ is_some (recipe_for_product db k)

    visit-IsExact : OnVisit F db req (λ w. AllEntries IsExact w.raw_buildable)
    unfolding leave_raw build
    visit-IsExact w w' k n e h = elim (visit_cases F db req w w' k n e) [
      | unknown absent same ↦
          rw same (AllEntries-insert IsExact k false w.raw_buildable (rw absent) h)
      | bought recipe found no_build same ↦
          rw same (AllEntries-insert IsExact k true w.raw_buildable (rw found) h)
      | built recipe found asked pos same ↦ rw same h
    ]

    -- Where the recipes are ranked and the target's rank is below `_MAX_DEPTH`, the recursion guard
    -- never cuts the walk short, and so a raw material is flagged buildable exactly when it has a
    -- recipe.
    pub walk_flags_exactly :
        (w : Walk F)
        → rank req.target_type_id < max_depth
        → walk F db req ≡ ok w
        → AllEntries IsExact w.raw_buildable
    unfolding walk leave_rest
    walk_flags_exactly w deep e =
        let (found, levels, last) = >>=-eq-ok (walk_levels F db req max_depth _ (start F)) _ e in
        let ended = levels_end max_depth _ (start F) found.0 found.1 levels (deep, tt) in
        let exact =
          levels_induction F db req (λ w. AllEntries IsExact w.raw_buildable) visit-IsExact
            (λ w level h. h) max_depth _ (start F) found.0 found.1 levels tt in
        let whole : leave_rest F db req found.0 found.1 ≡ w = cc in
        let same : found.1 ≡ w =
          sym (ap (λ (l : Dict ℕ ℕ). leave_rest F db req l found.1) ended) ∙ whole in
        rw (← same) exact
