-- ===== src/Pi/Products.antt =====
-- The products of a colony, `_produced_type_ids` of routes/pi.py.
use eve_build.Prelude.{
  ℕ, ◌≡◌, refl, sym, ◌∙◌, Bool, false, ◌||◌, none, some, List, [], ◌∷◌, ◌++◌, nat_eq, ◌==◌,
  contains, IsUnique, any, arith, Bool-cases, Option-cases, inl, inr,
}
use eve_build.Prelude.Dict.{Dict, eq_of_beq}
use eve_build.Pi.{Pin, Schematic, pin_product, produce, produced_type_ids}

contains-append :
    (t : ℕ) (xs ys : List ℕ) → contains t (xs ++ ys) ≡ (contains t xs || contains t ys)
contains-append t [] ys = refl
contains-append t (x ∷ xs) ys = ground (arith, contains-append t xs ys)

IsUnique-snoc :
    (t : ℕ) (xs : List ℕ) → IsUnique xs → contains t xs ≡ false → IsUnique (xs ++ t ∷ [])
IsUnique-snoc t [] h new = (refl, tt)
IsUnique-snoc t (x ∷ xs) h new =
    ground (arith, contains-append x xs (t ∷ []), IsUnique-snoc t xs h.1)

-- Both lists have a further product.
grown :
    (product : ℕ) (seen produced : List ℕ)
    → ((k : ℕ) → contains k seen ≡ contains k produced)
    → (k : ℕ) → contains k (product ∷ seen) ≡ contains k (produced ++ product ∷ [])
grown product seen produced same k =
    ground (arith, contains-append k produced (product ∷ []), same k)

module _ (schematic_by_id : Dict ℕ Schematic) where
  abbrev pub makes : ℕ → Pin → Bool
  makes t pin = elim (pin_product schematic_by_id pin) [
    | none ↦ false
    | some product ↦ product == t
  ]

  module _ (t : ℕ) where
    -- Where `seen` has what `produced` has.
    produce-contains :
        (seen produced : List ℕ) (pins : List Pin)
        → ((k : ℕ) → contains k seen ≡ contains k produced)
        → contains t (produce schematic_by_id seen produced pins)
          ≡ (contains t produced || any (makes t) pins)
    unfolding produce
    produce-contains seen produced [] same = ground arith
    produce-contains seen produced (pin ∷ pins) same =
        elim (Option-cases (pin_product schematic_by_id pin)) [
          | inl idle ↦ rw (idle, produce, any, makes) (produce-contains seen produced pins same)
          | inr (product, made) ↦ elim (Bool-cases (contains product seen)) [
            | inl known ↦
                rw (made, known, produce, any, makes, produce-contains seen produced pins same)
                  (elim (Bool-cases (product == t)) [
                    | inl here ↦
                        let e : product ≡ t = eq_of_beq product t here in
                        ground (arith, same product, e)
                    | inr other ↦ ground arith
                  ])
            | inr new ↦
                rw
                  (
                    made,
                    new,
                    produce,
                    any,
                    makes,
                    produce-contains (product ∷ seen) (produced ++ product ∷ []) pins
                        (grown product seen produced same),
                    contains-append t produced (product ∷ []),
                  )
                  (ground arith)
          ]
        ]

  produce-IsUnique :
      (seen produced : List ℕ) (pins : List Pin)
      → ((k : ℕ) → contains k seen ≡ contains k produced)
      → IsUnique produced
      → IsUnique (produce schematic_by_id seen produced pins)
  unfolding produce
  produce-IsUnique seen produced [] same unique = unique
  produce-IsUnique seen produced (pin ∷ pins) same unique =
      elim (Option-cases (pin_product schematic_by_id pin)) [
        | inl idle ↦ rw (idle, produce) (produce-IsUnique seen produced pins same unique)
        | inr (product, made) ↦ elim (Bool-cases (contains product seen)) [
          | inl known ↦ rw (made, known, produce) (produce-IsUnique seen produced pins same unique)
          | inr new ↦
              rw (made, new, produce)
                (produce-IsUnique (product ∷ seen) (produced ++ product ∷ []) pins
                  (grown product seen produced same)
                  (IsUnique-snoc product produced unique (sym (same product) ∙ new)))
        ]
      ]

  -- The products of a colony are those that its extractors and its factories with a known schematic
  -- make, each of them once.
  pub produced_type_ids-contains :
      (pins : List Pin)
      → IsUnique (produced_type_ids schematic_by_id pins)
        × ((t : ℕ) → contains t (produced_type_ids schematic_by_id pins) ≡ any (makes t) pins)
  unfolding produced_type_ids
  produced_type_ids-contains pins =
      (produce-IsUnique [] [] pins (λ k. refl) tt, λ t. produce-contains t [] [] pins (λ k. refl))
