-- ===== src/Planetary/Expansion.antt =====
-- Where the expansion of routes/planetary.py stops.
use mathlib.Core.Path.{subst}
use eve_build.Prelude.{
  ℕ, zero, suc, ◌<◌, ◌≡◌, refl, Bool, true, false, ◌||◌, not, some, List, [], ◌∷◌, ◌==◌, nat_eq,
  get_or, leb, is_some, any, arith, ◌∙◌, sym, Bool-cases, Option-cases, inl, inr, All,
}
use eve_build.Prelude.Dict.{
  Dict, lookup, insert, lookup-insert, AllEntries, AllEntries-insert, beq_self, eq_of_beq,
}
use eve_build.Prelude.Exc.{Result, ok}
use eve_build.External.Float.{FloatArith}
use eve_build.BuildChain.Recipe.{Material, SchematicDoc}
use eve_build.Planetary.{add_quantities, expand_each, expand_to_tier}

module _ (F : FloatArith) (floor_tier : ℕ) (schematics : Dict ℕ SchematicDoc) (tiers : Dict ℕ ℕ)
    (rank : ℕ → ℕ) where
  open F use {Float, of_ℕ, mul, div}

  -- A type that is not expanded: nothing makes it, or it is of the floor's tier or below.
  abbrev pub is_base : ℕ → Bool
  is_base t = not (is_some (lookup t schematics)) || leb (get_or (lookup t tiers) 0) floor_tier

  -- The rank falls from an output to its inputs.
  abbrev pub IsRanked : Type 0
  IsRanked =
      (t : ℕ) (schematic : SchematicDoc)
      → lookup t schematics ≡ some schematic
      → All (λ (material : Material). rank material.type_id < rank t) schematic.inputs

  -- Every schematic makes something.
  abbrev pub IsProductive : Type 0
  IsProductive =
      (t : ℕ) (schematic : SchematicDoc)
      → lookup t schematics ≡ some schematic
      → 0 < schematic.output.quantity

  -- What is reached from a type through types that are expanded.
  pub data Needs : ℕ → ℕ → Type 0 where
    itself : (t : ℕ) → Needs t t
    input :
        (t m b : ℕ) (schematic : SchematicDoc)
        → is_base t ≡ false
        → lookup t schematics ≡ some schematic
        → any (λ (material : Material). material.type_id == m) schematic.inputs ≡ true
        → Needs m b
        → Needs t b

  -- All that is named is of these types, and not expanded.
  abbrev pub AreBase : ℕ → Dict ℕ Float → Type 0
  AreBase t = AllEntries (λ b quantity. (is_base b ≡ true) × Needs t b)

  -- The expansion returns, names only types that are reached and not expanded, and names each.
  abbrev pub Expands : ℕ → Result (Dict ℕ Float) → Type 0
  Expands t r =
      (found : Dict ℕ Float) × (r ≡ ok found)
      × AreBase t found
      × ((b : ℕ) → is_base b ≡ true → Needs t b → is_some (lookup b found) ≡ true)

  -- A type that is not expanded reaches itself only.
  Needs_base : {t b : ℕ} → is_base t ≡ true → Needs t b → t ≡ b
  Needs_base base (itself t) = refl
  Needs_base base (input t m b schematic expanded found inside more) =
      absurd (ground (arith, base, expanded))

  -- A type that is expanded reaches what its inputs reach.
  Needs_inputs :
      {t b : ℕ} (schematic : SchematicDoc)
      → lookup t schematics ≡ some schematic
      → is_base b ≡ true
      → is_base t ≡ false
      → Needs t b
      → (m : ℕ) × (any (λ (material : Material). material.type_id == m) schematic.inputs ≡ true)
        × Needs m b
  Needs_inputs schematic known base expanded (itself t) = absurd (ground (arith, base, expanded))
  Needs_inputs schematic known base expanded (input t m b other _ found inside more) =
      let same : other ≡ schematic = ground (arith, sym found ∙ known) in
      (
        m,
        subst
            (λ (s : SchematicDoc).
              any (λ (material : Material). material.type_id == m) s.inputs ≡ true)
            same inside,
        more,
      )

  is_some-add_quantities :
      (found result : Dict ℕ Float) (b : ℕ)
      → is_some (lookup b (add_quantities F found result))
        ≡ (is_some (lookup b found) || is_some (lookup b result))
  unfolding add_quantities
  is_some-add_quantities [] result b = refl
  is_some-add_quantities ((t, quantity) ∷ found) result b =
      let sum = F.add (get_or (lookup t result) (of_ℕ 0)) quantity in
      is_some-add_quantities found (insert t sum result) b
      ∙ ground (arith, lookup-insert t b sum result)

  add_quantities-AllEntries :
      (P : ℕ → Float → Type 0)
      → ((b : ℕ) (x y : Float) → P b x → P b y)
      → (found result : Dict ℕ Float) → AllEntries P found
      → AllEntries P result
      → AllEntries P (add_quantities F found result)
  unfolding add_quantities
  add_quantities-AllEntries P any_amount [] result h k = k
  add_quantities-AllEntries P any_amount ((t, quantity) ∷ found) result h k =
      add_quantities-AllEntries P any_amount found _ h.1
        (AllEntries-insert P t _ result (any_amount t quantity _ h.0) k)

  AllEntries-mono :
      (P Q : ℕ → Float → Type 0)
      → ((b : ℕ) (x : Float) → P b x → Q b x)
      → (d : Dict ℕ Float) → AllEntries P d
      → AllEntries Q d
  AllEntries-mono P Q f [] h = tt
  AllEntries-mono P Q f ((b, x) ∷ d) h = (f b x h.0, AllEntries-mono P Q f d h.1)

  at_base :
      (t : ℕ) (quantity : Float) (r : Result (Dict ℕ Float))
      → is_base t ≡ true
      → r ≡ ok ((t, quantity) ∷ [])
      → Expands t r
  at_base t quantity r base returned = (
    (t, quantity) ∷ [],
    returned,
    ((base, itself t), tt),
    λ b is_low needed. rw (← Needs_base base needed) (ground (arith, beq_self t)),
  )

  -- What the loop gives: types that `t` reaches, those in `result` and those that an input reaches.
  abbrev Gathers : ℕ → List Material → Dict ℕ Float → Result (Dict ℕ Float) → Type 0
  Gathers t materials result r =
      (found : Dict ℕ Float) × (r ≡ ok found)
      × AreBase t found
      × ((b : ℕ) → is_some (lookup b result) ≡ true → is_some (lookup b found) ≡ true)
      × ((b m : ℕ)
          → is_base b ≡ true
          → any (λ (material : Material). material.type_id == m) materials ≡ true
          → Needs m b
          → is_some (lookup b found) ≡ true)

  expand_each-Gathers :
      (expand : ℕ → Float → Result (Dict ℕ Float)) (amount : Material → Float) (t : ℕ)
      → ((m : ℕ) (quantity : Float) → rank m < rank t → Expands m (expand m quantity))
      → (materials : List Material) (result : Dict ℕ Float)
      → All (λ (material : Material). rank material.type_id < rank t) materials
      → ((m b : ℕ)
          → any (λ (material : Material). material.type_id == m) materials ≡ true
          → Needs m b
          → Needs t b)
      → AreBase t result
      → Gathers t materials result (expand_each F expand amount materials result)
  unfolding expand_each
  expand_each-Gathers expand amount t ih [] result below reach base =
      (result, refl, base, λ b h. h, λ b m is_low inside more. absurd (ground (arith, inside)))
  expand_each-Gathers expand amount t ih (material ∷ materials) result below reach base =
      let here = material.type_id in
      let (found, e, found_base, all_found) = ih here (amount material) below.0 in
      let wider =
        AllEntries-mono _ (λ b quantity. (is_base b ≡ true) × Needs t b)
          (λ b x h. (h.0, reach here b (ground (arith, beq_self here)) h.1)) found found_base in
      let sums = add_quantities F found result in
      let (all, returned, all_base, old, new) =
        expand_each-Gathers expand amount t ih materials sums below.1
          (λ m b inside. reach m b (ground (arith, inside)))
          (add_quantities-AllEntries _ (λ b x y h. h) found result wider base) in
      (
        all,
        rw (e, expand_each) returned,
        all_base,
        λ b had. old b (is_some-add_quantities found result b ∙ ground (arith, had)),
        λ b m is_low inside more. elim (Bool-cases (here == m)) [
          | inl same ↦
              let got =
                all_found b is_low
                  (subst (λ (k : ℕ). Needs k b) (sym (eq_of_beq here m same)) more) in
              old b (is_some-add_quantities found result b ∙ ground (arith, got))
          | inr other ↦ new b m is_low (ground (arith, inside, other)) more
        ],
      )

  abbrev pub Alone : ℕ → ℕ → Float → Type 0
  Alone limit t quantity =
      expand_to_tier F floor_tier schematics tiers limit t quantity ≡ ok ((t, quantity) ∷ [])

  -- Where the inputs of every schematic have a smaller rank than its output, every schematic makes
  -- something, and as many calls may be nested as the rank of the type and one more, the expansion
  -- returns. It names exactly the types that are reached from the type through types that are
  -- expanded and are not expanded themselves, which means that nothing makes them or that they are of
  -- the floor's tier or below; a type that is not expanded is named with its quantity, alone.
  pub expand_to_tier-Expands :
      IsRanked
      → IsProductive
      → (limit t : ℕ) (quantity : Float) → rank t < limit
      → Expands t (expand_to_tier F floor_tier schematics tiers limit t quantity)
        × (is_base t ≡ true → Alone limit t quantity)
  unfolding expand_to_tier
  expand_to_tier-Expands ranked productive zero t quantity h = absurd (omega arith)
  expand_to_tier-Expands ranked productive (suc limit) t quantity h =
      elim (Option-cases (lookup t schematics)) [
        | inl raw ↦
            let base : is_base t ≡ true = ground (arith, raw) in
            let alone : Alone (suc limit) t quantity = rw (raw, expand_to_tier) in
            (at_base t quantity _ base alone, λ _. alone)
        | inr (schematic, found) ↦ elim (Bool-cases (leb (get_or (lookup t tiers) 0) floor_tier)) [
          | inl low ↦
              let base : is_base t ≡ true = ground (arith, low) in
              let alone : Alone (suc limit) t quantity = rw (found, low, expand_to_tier) in
              (at_base t quantity _ base alone, λ _. alone)
          | inr high ↦
              let expanded : is_base t ≡ false = ground (arith, found, high) in
              let some_made : (schematic.output.quantity == 0) ≡ false =
                ground (arith, productive t schematic found) in
              let (result, e, base, _, all) =
                expand_each-Gathers (expand_to_tier F floor_tier schematics tiers limit)
                  (λ material.
                    mul (div quantity (of_ℕ schematic.output.quantity)) (of_ℕ material.quantity))
                  t
                  (λ k q below.
                    (expand_to_tier-Expands ranked productive limit k q (omega arith)).0)
                  schematic.inputs [] (ranked t schematic found)
                  (λ m b inside. input t m b schematic expanded found inside) tt in
              (
                (
                  result,
                  rw (found, high, some_made, expand_to_tier) e,
                  base,
                  λ b is_low needed.
                      let (m, inside, more) = Needs_inputs schematic found is_low expanded needed in
                      all b m is_low inside more,
                ),
                λ is_low. absurd (ground (arith, is_low, expanded)),
              )
        ]
      ]
