-- ===== src/BuildChain/Efficiency/Errors.antt =====
-- What `structure_material_bonus` of services/build_chain.py gives for a structure with a rig.
use eve_build.Prelude.{
  ◌≡◌, ◌⊎◌, true, false, none, some, [], ◌∷◌, String, arith, ◌==◌, string_eq, Option-cases, inl,
  inr, contains, ◌&&◌,
}
use eve_build.Prelude.Dict.{lookup}
use eve_build.Prelude.Exc.{Result, ok, err, key_error}
use eve_build.External.Float.{FloatArith}
use eve_build.BuildChain.Efficiency.{
  rig_base_material_bonus, security_rig_multiplier, structure_material_bonus,
}
use eve_build.BuildChain.Efficiency.Laws.{structure_material_bonus_rig}

module _ (F : FloatArith) where
  open F use {Float, of_ℕ, literal, mul, le}

  rig_base-nonneg :
      (rig_tier : String) (base : Float)
      → lookup rig_tier (rig_base_material_bonus F) ≡ some base
      → le (of_ℕ 0) base ≡ true
  rig_base-nonneg rig_tier base h = ground (arith, F.literal_nonneg 20 3, F.literal_nonneg 24 3)

  multiplier-nonneg :
      (security_band : String) (factor : Float)
      → lookup security_band (security_rig_multiplier F) ≡ some factor
      → le (of_ℕ 0) factor ≡ true
  multiplier-nonneg security_band factor h =
      ground (arith, F.literal_nonneg 10 1, F.literal_nonneg 19 1, F.literal_nonneg 21 1)

  -- The tier or the band is not in its table, and the call raises `KeyError`.
  abbrev pub IsUnknown : String → String → Result Float → Type 0
  IsUnknown rig_tier security_band r =
      (r ≡ err key_error)
      × ((contains rig_tier ("t1" ∷ "t2" ∷ [])
            && contains security_band ("high" ∷ "low" ∷ "null_wh" ∷ []))
          ≡ false)

  -- Both are in their tables, and the bonus is no less than without the rig.
  abbrev pub IsBonus : String → String → Result Float → Type 0
  IsBonus rig_tier security_band r =
      (plain : Float) × (bonus : Float) × (r ≡ ok bonus)
      × (structure_material_bonus F true none security_band ≡ ok plain)
      × (le (of_ℕ 0) plain ≡ true)
      × (le plain bonus ≡ true)
      × (contains rig_tier ("t1" ∷ "t2" ∷ []) ≡ true)
      × (contains security_band ("high" ∷ "low" ∷ "null_wh" ∷ []) ≡ true)

  -- With an Engineering Complex and a rig named, the call raises `KeyError` where the tier is not one
  -- of the two that the code knows or the band not one of its three; else it returns a bonus
  -- that is not negative, and at least that of the complex without a rig.
  pub structure_material_bonus_cases :
      (rig_tier security_band : String)
      → (rig_tier == "") ≡ false
      → IsUnknown rig_tier security_band
          (structure_material_bonus F true (some rig_tier) security_band)
        ⊎ IsBonus rig_tier security_band
            (structure_material_bonus F true (some rig_tier) security_band)
  unfolding structure_material_bonus
  structure_material_bonus_cases rig_tier security_band named =
      elim (Option-cases (lookup rig_tier (rig_base_material_bonus F))) [
        | inl no_rig ↦ inl (rw (named, no_rig), ground (arith, no_rig))
        | inr (base, rig) ↦ elim (Option-cases (lookup security_band (security_rig_multiplier F))) [
          | inl no_band ↦ inl (rw (named, rig, no_band), ground (arith, no_band))
          | inr (factor, band) ↦
              let nonneg =
                F.mul_nonneg base factor (rig_base-nonneg rig_tier base rig)
                  (multiplier-nonneg security_band factor band) in
              let (plain, rigged, without, returned, above_zero, above) =
                structure_material_bonus_rig F rig_tier security_band named rig band nonneg in
              inr (
                plain,
                rigged,
                returned,
                without,
                above_zero,
                above,
                ground (arith, rig),
                ground (arith, band),
              )
        ]
      ]
