-- ===== src/BuildChain/Resolve/Parts.antt =====
-- The parts of a resolution, of services/build_chain.py: its raw materials and its named steps.
use mathlib.Core.Path.{subst}
use mathlib.Core.Option
use eve_build.Prelude.{
  ℕ, ◌≡◌, refl, Bool, true, some, List, [], ◌∷◌, String, nat_eq, is_some, arith, Option-cases, inl,
  inr, All, ◌∙◌, sym,
}
use eve_build.Prelude.Dict.{Dict, lookup}
use eve_build.Prelude.Exc.{ok, >>=-eq-ok, map_m, ok-injective, Returns, >>=-Returns}
use eve_build.Prelude.Sort.{
  sorted_by, IsSortedBy, sorted_by-IsSortedBy, sum_by-sorted_by, All-sorted_by,
}
use eve_build.External.Float.{FloatArith}
use eve_build.Prices.{PriceDoc}
use eve_build.BuildChain.Walk.{BuildStep}
use eve_build.BuildChain.Conservation.{at_key}
use eve_build.BuildChain.Order.Before.{has_step, IsBuildOrder, IsAcyclic, IsStepOf}
use eve_build.BuildChain.Aggregate.{RawMaterial}
use eve_build.BuildChain.Aggregate.Totals.{total_of}
use eve_build.BuildChain.Resolve.{TypeDoc, type_name, name_steps, raw_material, raw_materials_of}

abbrev pub named : Dict ℕ TypeDoc → BuildStep → BuildStep
named docs step = record step { name = type_name docs step.type_id }

module _ (docs : Dict ℕ TypeDoc) where
  -- Naming keeps the steps under their keys.
  pub lookup-name_steps :
      (k : ℕ) (steps : Dict ℕ BuildStep)
      → lookup k (name_steps docs steps) ≡ Option.map (named docs) (lookup k steps)
  unfolding name_steps
  lookup-name_steps k [] = refl
  lookup-name_steps k ((j, step) ∷ steps) = ground (arith, lookup-name_steps k steps)

  module _ (steps : Dict ℕ BuildStep) where
    pub has_step-name_steps : (k : ℕ) → has_step (name_steps docs steps) k ≡ has_step steps k
    has_step-name_steps k = elim (Option-cases (lookup k steps)) [
      | inl absent ↦ rw (lookup-name_steps k steps, absent)
      | inr (step, found) ↦ rw (lookup-name_steps k steps, found)
    ]

    -- A named step is a step under its key, and nothing but its name differs.
    pub name_steps-found :
        (k : ℕ) (step' : BuildStep)
        → lookup k (name_steps docs steps) ≡ some step'
        → (step : BuildStep) × (lookup k steps ≡ some step) × (step' ≡ named docs step)
    name_steps-found k step' e = elim (Option-cases (lookup k steps)) [
      | inl absent ↦ absurd (ground (arith, lookup-name_steps k steps))
      | inr (step, found) ↦ (step, found, ground (arith, lookup-name_steps k steps))
    ]

    -- What is listed is a step of the dictionary under its type, with nothing but its name set.
    abbrev pub IsNamed : BuildStep → Type 0
    IsNamed listed =
        (step : BuildStep) × (lookup listed.type_id steps ≡ some step)
        × (listed ≡ record step { name = type_name docs step.type_id })

    pub IsStepOf-name_steps :
        (l : List BuildStep) → All (IsStepOf (name_steps docs steps)) l → All IsNamed l
    IsStepOf-name_steps [] h = tt
    IsStepOf-name_steps (step ∷ l) h =
        (name_steps-found step.type_id step h.0, IsStepOf-name_steps l h.1)

    pub IsBuildOrder-name_steps :
        (done : List ℕ) (l : List BuildStep)
        → IsBuildOrder (name_steps docs steps) done l
        → IsBuildOrder steps done l
    IsBuildOrder-name_steps done [] h = tt
    IsBuildOrder-name_steps done (step ∷ l) h = (
      λ m uses known. h.0 m uses (has_step-name_steps m ∙ known),
      IsBuildOrder-name_steps (step.type_id ∷ done) l h.1,
    )

    pub IsAcyclic-name_steps :
        (rank : ℕ → ℕ) → IsAcyclic steps rank → IsAcyclic (name_steps docs steps) rank
    IsAcyclic-name_steps rank falls k m step' e uses known =
        let (step, found, same) = name_steps-found k step' e in
        falls k m step found (rw same at uses) (sym (has_step-name_steps m) ∙ known)

module _ (F : FloatArith) (docs : Dict ℕ TypeDoc) (prices : Dict ℕ (PriceDoc (FloatArith.Float F)))
    (flags : Dict ℕ Bool) where
  abbrev pub item_name : ℕ × ℕ → String
  item_name item = type_name docs item.0

  -- The material has the type, the name, the quantity and the flag of the item.
  abbrev pub IsOf : ℕ × ℕ → RawMaterial (FloatArith.Float F) → Type 0
  IsOf (k, n) material =
      (material.type_id ≡ k)
      × (material.name ≡ type_name docs k)
      × (material.quantity ≡ n)
      × (lookup k flags ≡ some material.is_buildable)

  abbrev AreOf : List (ℕ × ℕ) → List (RawMaterial (FloatArith.Float F)) → Type 0
  AreOf [] [] = Unit
  AreOf [] (material ∷ materials) = ⊥
  AreOf (item ∷ items) [] = ⊥
  AreOf (item ∷ items) (material ∷ materials) = IsOf item material × AreOf items materials

  raw_material-IsOf :
      (item : ℕ × ℕ) (material : RawMaterial (FloatArith.Float F))
      → raw_material F docs prices flags item ≡ ok material
      → IsOf item material
  unfolding raw_material
  raw_material-IsOf (k, n) material e = elim (Option-cases (lookup k flags)) [
    | inl absent ↦ absurd (ground arith)
    | inr (flag, found) ↦ (ground arith, ground arith, ground arith, ground arith)
  ]

  map_m-AreOf :
      (items : List (ℕ × ℕ)) (materials : List (RawMaterial (FloatArith.Float F)))
      → map_m (raw_material F docs prices flags) items ≡ ok materials
      → AreOf items materials
  map_m-AreOf [] [] e = tt
  map_m-AreOf [] (material ∷ materials) e = absurd (ground arith)
  map_m-AreOf (item ∷ items) materials e =
      let (first, one, more) = >>=-eq-ok (raw_material F docs prices flags item) _ e in
      let (rest, others, last) =
        >>=-eq-ok (map_m (raw_material F docs prices flags) items) _ more in
      subst (λ l. AreOf (item ∷ items) l) (ok-injective last)
        (raw_material-IsOf item first one, map_m-AreOf items rest others)

  AreOf-total :
      (t : ℕ) (items : List (ℕ × ℕ)) (materials : List (RawMaterial (FloatArith.Float F)))
      → AreOf items materials
      → total_of (λ material. material.type_id) (λ material. material.quantity) t materials
        ≡ total_of (λ (item : ℕ × ℕ). item.0) (λ item. item.1) t items
  AreOf-total t [] [] h = refl
  AreOf-total t [] (material ∷ materials) h = absurd h
  AreOf-total t (item ∷ items) [] h = absurd h
  AreOf-total t ((k, n) ∷ items) (material ∷ materials) (h, hs) =
      let rest = AreOf-total t items materials hs in rw (h.0, h.2, rest)

  AreOf-IsSortedBy :
      (items : List (ℕ × ℕ)) (materials : List (RawMaterial (FloatArith.Float F)))
      → AreOf items materials
      → IsSortedBy item_name items
      → IsSortedBy (λ material. material.name) materials
  AreOf-IsSortedBy [] [] h sorted = tt
  AreOf-IsSortedBy [] (material ∷ materials) h sorted = absurd h
  AreOf-IsSortedBy (item ∷ items) [] h sorted = absurd h
  AreOf-IsSortedBy (item ∷ []) (material ∷ []) h sorted = tt
  AreOf-IsSortedBy (item ∷ []) (m1 ∷ m2 ∷ materials) h sorted = absurd h.1
  AreOf-IsSortedBy (item ∷ item' ∷ items) (material ∷ []) h sorted = absurd h.1
  AreOf-IsSortedBy ((k, n) ∷ (k', n') ∷ items) (m1 ∷ m2 ∷ materials) (h, hs) sorted =
      (rw (h.1, hs.0.1) sorted.0, AreOf-IsSortedBy ((k', n') ∷ items) (m2 ∷ materials) hs sorted.1)

  total-at_key :
      (t : ℕ) (totals : Dict ℕ ℕ)
      → total_of (λ (item : ℕ × ℕ). item.0) (λ item. item.1) t totals ≡ at_key t totals
  total-at_key t [] = refl
  total-at_key t ((k, n) ∷ totals) = let rest = total-at_key t totals in rw rest

  -- The raw materials are in the order of their names, and ask for as much of every type as the
  -- totals.
  pub raw_materials_of-listed :
      (totals : Dict ℕ ℕ) (materials : List (RawMaterial (FloatArith.Float F)))
      → raw_materials_of F docs prices flags totals ≡ ok materials
      → IsSortedBy (λ material. material.name) materials
        × ((t : ℕ)
            → total_of (λ material. material.type_id) (λ material. material.quantity) t materials
              ≡ at_key t totals)
  unfolding raw_materials_of
  raw_materials_of-listed totals materials e =
      let related = map_m-AreOf (sorted_by item_name totals) materials e in
      (
        AreOf-IsSortedBy (sorted_by item_name totals) materials related
            (sorted_by-IsSortedBy item_name totals),
        λ t.
            AreOf-total t (sorted_by item_name totals) materials related
            ∙ sum_by-sorted_by item_name _ totals
            ∙ total-at_key t totals,
      )

  raw_material-Returns :
      (item : ℕ × ℕ)
      → is_some (lookup item.0 flags) ≡ true
      → Returns (raw_material F docs prices flags item)
  unfolding raw_material
  raw_material-Returns (k, n) h = elim (Option-cases (lookup k flags)) [
    | inl absent ↦ absurd (ground arith)
    | inr (flag, found) ↦ rw found (_, refl)
  ]

  map_m-Returns :
      (items : List (ℕ × ℕ))
      → All (λ item. is_some (lookup item.0 flags) ≡ true) items
      → Returns (map_m (raw_material F docs prices flags) items)
  map_m-Returns [] h = ([], refl)
  map_m-Returns (item ∷ items) h =
      >>=-Returns (raw_material F docs prices flags item) _ (raw_material-Returns item h.0) (λ m.
        >>=-Returns (map_m (raw_material F docs prices flags) items) _ (map_m-Returns items h.1)
          (λ ms. (m ∷ ms, refl)))

  pub raw_materials_of-Returns :
      (totals : Dict ℕ ℕ)
      → All (λ item. is_some (lookup item.0 flags) ≡ true) totals
      → Returns (raw_materials_of F docs prices flags totals)
  unfolding raw_materials_of
  raw_materials_of-Returns totals h =
      map_m-Returns (sorted_by item_name totals) (All-sorted_by item_name _ totals h)
