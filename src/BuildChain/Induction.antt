-- ===== src/BuildChain/Induction.antt =====
-- Invariants of the walk of services/build_chain.py: what every visit and every left-over demand
-- keeps holds of the result.
use mathlib.Core.Path.{subst}
use eve_build.Prelude.{
  ℕ, zero, suc, ◌<◌, ◌≡◌, Bool, true, false, ◌||◌, none, some, [], ◌∷◌, ◌==◌, nat_eq, contains,
  arith, Bool-cases, Option-cases, inl, inr,
}
use eve_build.Prelude.Dict.{Dict, set_default}
use eve_build.Prelude.Exc.{ok, fold_m, >>=-eq-ok}
use eve_build.External.Float.{FloatArith}
use eve_build.BuildChain.Recipe.{Recipe, SdeDb, recipe_for_product}
use eve_build.BuildChain.Walk.{
  Request, Walk, bump, leave_raw, build, visit, walk_levels, leave_rest, walk, start, max_depth,
}

module _ (F : FloatArith) (db : SdeDb) (req : Request (FloatArith.Float F)) where
  -- `type_id` may be expanded: it is the target, or the caller asked to build it.
  abbrev pub expanded : ℕ → Bool
  expanded k = k == req.target_type_id || contains k req.build_set

  -- The three ways in which a visit succeeds.
  pub data Visited (w w' : Walk F) (k n : ℕ) : Type 0 where
    unknown :
        recipe_for_product db k ≡ none → w' ≡ leave_raw F db req k n false w → Visited w w' k n
    bought :
        (recipe : Recipe)
        → recipe_for_product db k ≡ some recipe
        → expanded k ≡ false
        → w' ≡ leave_raw F db req k n true w
        → Visited w w' k n
    built :
        (recipe : Recipe)
        → recipe_for_product db k ≡ some recipe
        → expanded k ≡ true
        → 0 < recipe.output_quantity
        → w' ≡ build F db req k n recipe w
        → Visited w w' k n

  pub visit_cases : (w w' : Walk F) (k n : ℕ) → visit F db req w (k, n) ≡ ok w' → Visited w w' k n
  unfolding visit
  visit_cases w w' k n e = elim (Option-cases (recipe_for_product db k)) [
    | inl absent ↦ unknown absent (ground arith)
    | inr (recipe, found) ↦ elim (Bool-cases (expanded k)) [
      | inl yes_build ↦ built recipe found yes_build (ground arith) (ground arith)
      | inr no_build ↦ bought recipe found no_build (ground arith)
    ]
  ]

module _ (F : FloatArith) (db : SdeDb) (req : Request (FloatArith.Float F))
    (P : Walk F → Type 0) where
  abbrev pub OnVisit : Type 0
  OnVisit = (w w' : Walk F) (k n : ℕ) → visit F db req w (k, n) ≡ ok w' → P w → P w'

  abbrev pub OnNext : Type 0
  OnNext = (w : Walk F) (level : Dict ℕ ℕ) → P w → P (record w { next_level = level })

  abbrev pub OnLeft : Type 0
  OnLeft =
      (w : Walk F) (k n : ℕ)
      → P w
      → P (record w {
        raw_totals = bump k n w.raw_totals;
        raw_buildable = set_default k false w.raw_buildable;
      })

  module _ (on_visit : OnVisit) (on_next : OnNext) where
    level_induction :
        (level : Dict ℕ ℕ) (w w' : Walk F) → fold_m (visit F db req) w level ≡ ok w' → P w → P w'
    level_induction [] w w' e h = let same : w ≡ w' = cc in subst P same h
    level_induction ((k, n) ∷ level) w w' e h =
        let (w1, first, later) = >>=-eq-ok (visit F db req w (k, n)) _ e in
        level_induction level w1 w' later (on_visit w w1 k n first h)

    pub levels_induction :
        (depth : ℕ) (level : Dict ℕ ℕ) (w : Walk F) (level' : Dict ℕ ℕ) (w' : Walk F)
        → walk_levels F db req depth level w ≡ ok (level', w')
        → P w
        → P w'
    unfolding walk_levels
    levels_induction zero level w level' w' e h = let same : w ≡ w' = ground arith in subst P same h
    levels_induction (suc depth) [] w level' w' e h =
        let same : w ≡ w' = ground arith in subst P same h
    levels_induction (suc depth) (demand ∷ level) w level' w' e h =
        let (w1, here, later) =
          >>=-eq-ok (fold_m (visit F db req) (record w { next_level = [] }) (demand ∷ level)) _ e in
        levels_induction depth w1.next_level w1 level' w' later
          (level_induction (demand ∷ level) (record w { next_level = [] }) w1 here (on_next w [] h))

    module _ (on_left : OnLeft) where
      rest_induction : (level : Dict ℕ ℕ) (w : Walk F) → P w → P (leave_rest F db req level w)
      unfolding leave_rest
      rest_induction [] w h = h
      rest_induction ((k, n) ∷ level) w h = rest_induction level _ (on_left w k n h)

      pub walk_induction : (w : Walk F) → walk F db req ≡ ok w → P (start F) → P w
      unfolding walk
      walk_induction w e h =
          let (found, levels, last) = >>=-eq-ok (walk_levels F db req max_depth _ (start F)) _ e in
          let same : leave_rest F db req found.0 found.1 ≡ w = cc in
          subst P same (
            rest_induction found.0 found.1 (
              levels_induction max_depth ((req.target_type_id, req.target_quantity) ∷ []) (start F)
                found.0 found.1 levels h))
