-- ===== src/BuildChain/Raw.antt =====
-- The raw materials of the walk of services/build_chain.py, and when the walk returns.
use eve_build.Prelude.{
  ℕ, zero, suc, ◌+◌, ◌<◌, ◌≡◌, refl, Bool, true, false, some, [], ◌∷◌, nat_eq, get_or, is_some,
  arith, Bool-cases, Option-cases, inl, inr, IsUnique,
}
use eve_build.Prelude.Dict.{
  Dict, lookup, insert, keys, set_default, AllEntries, AllEntries-insert, lookup-insert,
  IsUnique-insert,
}
use eve_build.Prelude.Exc.{ok, fold_m, Returns, >>=-Returns}
use eve_build.External.Float.{FloatArith}
use eve_build.BuildChain.Recipe.{Recipe, SdeDb, recipe_for_product}
use eve_build.BuildChain.Walk.{
  Request, Walk, bump, leave_raw, build, visit, walk_levels, leave_rest, walk, start, max_depth,
}
use eve_build.BuildChain.Induction.{
  expanded, unknown, bought, built, visit_cases, OnVisit, OnLeft, walk_induction,
}

module _ (F : FloatArith) (db : SdeDb) (req : Request (FloatArith.Float F)) where
  -- A raw material marked buildable has a recipe, and was not to be built.
  abbrev pub IsOffered : ℕ → Bool → Type 0
  IsOffered k b =
      b ≡ true → (is_some (recipe_for_product db k) ≡ true) × (expanded F db req k ≡ false)

  pub record IsListed (w : Walk F) : Type 0 where
    pub offered : AllEntries IsOffered w.raw_buildable
    pub unique_raw : IsUnique (keys w.raw_totals)
    pub unique_steps : IsUnique (keys w.steps_by_type_id)
    pub flagged : (k : ℕ) → is_some (lookup k w.raw_buildable) ≡ is_some (lookup k w.raw_totals)

  bump_flagged :
      (k n j : ℕ) (b : Bool) (totals : Dict ℕ ℕ) (flags : Dict ℕ Bool)
      → is_some (lookup j flags) ≡ is_some (lookup j totals)
      → is_some (lookup j (insert k b flags)) ≡ is_some (lookup j (bump k n totals))
  unfolding bump
  bump_flagged k n j b totals flags h =
      ground (
        arith,
        lookup-insert k j b flags,
        lookup-insert k j (get_or (lookup k totals) 0 + n) totals,
      )

  default_flagged :
      (k n j : ℕ) (totals : Dict ℕ ℕ) (flags : Dict ℕ Bool)
      → is_some (lookup j flags) ≡ is_some (lookup j totals)
      → is_some (lookup k flags) ≡ is_some (lookup k totals)
      → is_some (lookup j (set_default k false flags)) ≡ is_some (lookup j (bump k n totals))
  unfolding bump
  default_flagged k n j totals flags h hk = ground (
    arith,
    lookup-insert k j false flags,
    lookup-insert k j (get_or (lookup k totals) 0 + n) totals,
  )

  leave_raw-IsListed :
      (w : Walk F) (k n : ℕ) (b : Bool)
      → IsOffered k b
      → IsListed w
      → IsListed (leave_raw F db req k n b w)
  unfolding leave_raw
  leave_raw-IsListed w k n b p h = record {
    offered = AllEntries-insert IsOffered k b w.raw_buildable p h.offered;
    unique_raw = unfold bump in IsUnique-insert k _ w.raw_totals h.unique_raw;
    unique_steps = h.unique_steps;
    flagged = λ j. bump_flagged k n j b w.raw_totals w.raw_buildable (h.flagged j);
  }

  visit-IsListed : OnVisit F db req IsListed
  visit-IsListed w w' k n e h = elim (visit_cases F db req w w' k n e) [
    | unknown absent same ↦ rw same (leave_raw-IsListed w k n false (λ f. cc) h)
    | bought recipe found no_build same ↦
        rw same (leave_raw-IsListed w k n true (λ _. (rw found, no_build)) h)
    | built recipe found asked pos same ↦ rw same (
        unfold build in
        record {
          offered = h.offered;
          unique_raw = h.unique_raw;
          unique_steps = IsUnique-insert k _ w.steps_by_type_id h.unique_steps;
          flagged = h.flagged;
        })
  ]

  set_default-IsOffered :
      (k : ℕ) (flags : Dict ℕ Bool)
      → AllEntries IsOffered flags
      → AllEntries IsOffered (set_default k false flags)
  set_default-IsOffered k flags h = elim (Bool-cases (is_some (lookup k flags))) [
    | inl present ↦ rw present h
    | inr absent ↦ rw absent (AllEntries-insert IsOffered k false flags (λ f. cc) h)
  ]

  left-IsListed : OnLeft F db req IsListed
  left-IsListed w k n h = record {
    offered = set_default-IsOffered k w.raw_buildable h.offered;
    unique_raw = unfold bump in IsUnique-insert k _ w.raw_totals h.unique_raw;
    unique_steps = h.unique_steps;
    flagged = λ j. default_flagged k n j w.raw_totals w.raw_buildable (h.flagged j) (h.flagged k);
  }

  -- No raw material and no step is listed twice, exactly the raw materials carry a buildable flag, and
  -- a raw material is offered to be built only if it has a recipe and is not being built.
  pub walk-IsListed : (w : Walk F) → walk F db req ≡ ok w → IsListed w
  walk-IsListed w e =
      walk_induction F db req IsListed visit-IsListed
        (λ w level h. record {
          offered = h.offered;
          unique_raw = h.unique_raw;
          unique_steps = h.unique_steps;
          flagged = h.flagged;
        })
        left-IsListed w e
        (record { offered = tt; unique_raw = tt; unique_steps = tt; flagged = λ k. refl })

  -- No recipe claims to make nothing.
  abbrev pub IsProductive : Type 0
  IsProductive =
      (k : ℕ) (recipe : Recipe) → recipe_for_product db k ≡ some recipe → 0 < recipe.output_quantity

  module _ (productive : IsProductive) where
    visit-Returns : (w : Walk F) (demand : ℕ × ℕ) → Returns (visit F db req w demand)
    unfolding visit
    visit-Returns w (k, n) = elim (Option-cases (recipe_for_product db k)) [
      | inl absent ↦ (leave_raw F db req k n false w, rw (absent, visit))
      | inr (recipe, found) ↦
          let pos = productive k recipe found in
          elim (Bool-cases (expanded F db req k)) [
            | inl asked ↦ (build F db req k n recipe w, ground arith)
            | inr no_build ↦ (leave_raw F db req k n true w, ground arith)
          ]
    ]

    level-Returns : (level : Dict ℕ ℕ) (w : Walk F) → Returns (fold_m (visit F db req) w level)
    level-Returns [] w = (w, refl)
    level-Returns (demand ∷ level) w =
        >>=-Returns (visit F db req w demand) _ (visit-Returns w demand)
          (λ w1. level-Returns level w1)

    levels-Returns :
        (depth : ℕ) (level : Dict ℕ ℕ) (w : Walk F) → Returns (walk_levels F db req depth level w)
    unfolding walk_levels
    levels-Returns zero level w = ((level, w), refl)
    levels-Returns (suc depth) [] w = (([], w), refl)
    levels-Returns (suc depth) (demand ∷ level) w =
        >>=-Returns (fold_m (visit F db req) (record w { next_level = [] }) (demand ∷ level)) _
          (level-Returns (demand ∷ level) (record w { next_level = [] }))
          (λ w1. levels-Returns depth w1.next_level w1)

    -- Unless some recipe claims to make nothing, the walk returns: it raises no ZeroDivisionError.
    pub walk-Returns : Returns (walk F db req)
    unfolding walk
    walk-Returns =
        >>=-Returns (walk_levels F db req max_depth _ (start F)) _
          (levels-Returns max_depth ((req.target_type_id, req.target_quantity) ∷ []) (start F))
          (λ found. (leave_rest F db req found.0 found.1, refl))
