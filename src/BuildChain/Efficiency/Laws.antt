-- ===== src/BuildChain/Efficiency/Laws.antt =====
-- Bounds and monotonicity of the material discounts of services/build_chain.py.
use eve_build.Prelude.{
  ℕ, ◌^◌, ◌≤◌, ◌≡◌, refl, true, false, none, some, [], ◌∷◌, String, arith, ◌==◌, string_eq,
  Bool-cases, inl, inr, contains, ◌&&◌,
}
use eve_build.Prelude.Dict.{lookup}
use eve_build.Prelude.Exc.{ok, is_ok}
use eve_build.External.Float.{FloatArith}
use eve_build.BuildChain.Efficiency.{
  max, facility_material_bonus, rig_base_material_bonus, security_rig_multiplier,
  structure_material_bonus, security_band_for_status, material_quantity_per_run,
}

max_mono : (a b : ℕ) → a ≤ b → max 1 a ≤ max 1 b
max_mono a b h = ground arith

module _ (F : FloatArith) where
  open F use {Float, of_ℕ, literal, sub, mul, div, ceil, le}

  -- `1 - material_efficiency / 100`
  abbrev left_after : ℕ → Float
  left_after efficiency = sub (of_ℕ 1) (div (of_ℕ efficiency) (of_ℕ 100))

  share_nonneg : (efficiency : ℕ) → le (of_ℕ 0) (div (of_ℕ efficiency) (of_ℕ 100)) ≡ true
  share_nonneg efficiency =
      F.div_nonneg (of_ℕ efficiency) 100 (omega arith) (F.of_ℕ_nonneg efficiency)

  left_after_nonneg :
      (efficiency : ℕ) → efficiency ≤ 100 → le (of_ℕ 0) (left_after efficiency) ≡ true
  left_after_nonneg efficiency h = F.sub_nonneg (of_ℕ 1) (div (of_ℕ efficiency) (of_ℕ 100)) (
      rw (← F.div_self 100 (omega arith))
        (F.div_mono (of_ℕ efficiency) (of_ℕ 100) 100 (omega arith) (F.of_ℕ_mono efficiency 100 h)))

  reduced_nonneg :
      (base efficiency : ℕ)
      → efficiency ≤ 100
      → le (of_ℕ 0) (mul (of_ℕ base) (left_after efficiency)) ≡ true
  reduced_nonneg base efficiency h =
      F.mul_nonneg (of_ℕ base) (left_after efficiency) (F.of_ℕ_nonneg base)
        (left_after_nonneg efficiency h)

  -- The quantity per run is at least 1, and at most the base quantity unless that is 0.
  pub material_quantity_per_run_bounds :
      (base efficiency : ℕ) (bonus : Float)
      → base ≤ 2 ^ 53
      → efficiency ≤ 100
      → le (of_ℕ 0) bonus ≡ true
      → (1 ≤ material_quantity_per_run F base efficiency bonus)
        × (material_quantity_per_run F base efficiency bonus ≤ max 1 base)
  unfolding material_quantity_per_run
  material_quantity_per_run_bounds base efficiency bonus hb he hs =
      let a = mul (of_ℕ base) (left_after efficiency) in
      let a_le =
        F.mul_le (of_ℕ base) (left_after efficiency) (F.of_ℕ_nonneg base)
          (F.sub_le (of_ℕ 1) _ (share_nonneg efficiency)) in
      let b_le =
        F.mul_le a (sub (of_ℕ 1) bonus) (reduced_nonneg base efficiency he)
          (F.sub_le (of_ℕ 1) bonus hs) in
      let small =
        F.ceil_mono (mul a (sub (of_ℕ 1) bonus)) (of_ℕ base)
          (F.le_trans (mul a (sub (of_ℕ 1) bonus)) a (of_ℕ base) b_le a_le) in
      let exact = F.ceil_of_ℕ base hb in
      (
        ground arith,
        max_mono (ceil (mul a (sub (of_ℕ 1) bonus))) base (omega (arith, small, exact)),
      )

  -- Without a discount the base quantity stands, but never below 1.
  pub material_quantity_per_run_plain :
      (base : ℕ) → base ≤ 2 ^ 53 → material_quantity_per_run F base 0 (of_ℕ 0) ≡ max 1 base
  unfolding material_quantity_per_run
  material_quantity_per_run_plain base hb = rw (
    F.zero_div 100 (omega arith),
    F.sub_zero (of_ℕ 1),
    F.mul_one (of_ℕ base),
    F.mul_one (of_ℕ base),
    F.ceil_of_ℕ base hb,
  )

  -- A higher efficiency and a higher bonus never cost more material.
  pub material_quantity_per_run_mono :
      (base e1 e2 : ℕ) (b1 b2 : Float)
      → e1 ≤ e2
      → e2 ≤ 100
      → le b1 b2 ≡ true
      → le b2 (of_ℕ 1) ≡ true
      → material_quantity_per_run F base e2 b2 ≤ material_quantity_per_run F base e1 b1
  unfolding material_quantity_per_run
  material_quantity_per_run_mono base e1 e2 b1 b2 he h2 hb hb2 =
      let a1 = mul (of_ℕ base) (left_after e1) in
      let a2 = mul (of_ℕ base) (left_after e2) in
      let s1 = sub (of_ℕ 1) b1 in
      let s2 = sub (of_ℕ 1) b2 in
      let falls = F.mul_mono (of_ℕ base) (left_after e2) (left_after e1) (F.of_ℕ_nonneg base) (
        F.sub_antitone (of_ℕ 1) _ _
          (F.div_mono (of_ℕ e1) (of_ℕ e2) 100 (omega arith) (F.of_ℕ_mono e1 e2 he))) in
      let first : le (mul a2 s2) (mul a1 s2) ≡ true =
        rw (F.mul_comm a2 s2, F.mul_comm a1 s2)
          (F.mul_mono s2 a2 a1 (F.sub_nonneg (of_ℕ 1) b2 hb2) falls) in
      let second : le (mul a1 s2) (mul a1 s1) ≡ true =
        F.mul_mono a1 s2 s1 (reduced_nonneg base e1 (omega arith))
          (F.sub_antitone (of_ℕ 1) b1 b2 hb) in
      max_mono _ _ (
        F.ceil_mono (mul a2 s2) (mul a1 s1)
          (F.le_trans (mul a2 s2) (mul a1 s2) (mul a1 s1) first second))

module _ (F : FloatArith) where
  open F use {Float, of_ℕ, literal, sub, mul, le}

  abbrev facility_factor : Float
  facility_factor = sub (of_ℕ 1) (facility_material_bonus F)

  facility_factor_nonneg : le (of_ℕ 0) facility_factor ≡ true
  facility_factor_nonneg = F.sub_nonneg (of_ℕ 1) (literal 1 2) (F.literal_le_one 1 2 (omega arith))

  facility_factor_le_one : le facility_factor (of_ℕ 1) ≡ true
  facility_factor_le_one = F.sub_le (of_ℕ 1) (literal 1 2) (F.literal_nonneg 1 2)

  -- A known rig adds to the facility's own bonus, which is not negative.
  pub structure_material_bonus_rig :
      (rig_tier security_band : String) {base factor : Float}
      → (rig_tier == "") ≡ false
      → lookup rig_tier (rig_base_material_bonus F) ≡ some base
      → lookup security_band (security_rig_multiplier F) ≡ some factor
      → le (of_ℕ 0) (mul base factor) ≡ true
      → (plain : Float) × (rigged : Float) × (structure_material_bonus F true none security_band
          ≡ ok plain)
        × (structure_material_bonus F true (some rig_tier) security_band ≡ ok rigged)
        × (le (of_ℕ 0) plain ≡ true)
        × (le plain rigged ≡ true)
  unfolding structure_material_bonus
  structure_material_bonus_rig rig_tier security_band {base} {factor} named rig band nonneg = (
    sub (of_ℕ 1) facility_factor,
    sub (of_ℕ 1) (mul facility_factor (sub (of_ℕ 1) (mul base factor))),
    refl,
    rw (named, rig, band),
    F.sub_nonneg (of_ℕ 1) facility_factor facility_factor_le_one,
    F.sub_antitone (of_ℕ 1) (mul facility_factor (sub (of_ℕ 1) (mul base factor))) facility_factor (
        F.mul_le facility_factor (sub (of_ℕ 1) (mul base factor)) facility_factor_nonneg
          (F.sub_le (of_ℕ 1) (mul base factor) nonneg)),
  )

  -- With an Engineering Complex and a rig named, the bonus raises `KeyError` exactly when the tier is
  -- not one of the two that the code knows or the band not one of its three.
  pub structure_material_bonus-Returns :
      (rig_tier security_band : String)
      → (rig_tier == "") ≡ false
      → is_ok (structure_material_bonus F true (some rig_tier) security_band) ≡ (
          contains rig_tier ("t1" ∷ "t2" ∷ [])
          && contains security_band ("high" ∷ "low" ∷ "null_wh" ∷ []))
  unfolding structure_material_bonus
  structure_material_bonus-Returns rig_tier security_band named = ground arith

  pub security_band-known :
      (status : Float)
      → contains (security_band_for_status F status) ("high" ∷ "low" ∷ "null_wh" ∷ []) ≡ true
  unfolding security_band_for_status
  security_band-known status = elim (Bool-cases (le (literal 5 1) status)) [
    | inl high ↦ rw (high, security_band_for_status)
    | inr other ↦ elim (Bool-cases (le status (of_ℕ 0))) [
      | inl null ↦ rw (other, null, security_band_for_status)
      | inr low ↦ rw (other, low, security_band_for_status)
    ]
  ]

  -- With the band of any security status, a named rig raises `KeyError` only for its tier.
  pub structure_material_bonus-security_band :
      (rig_tier : String) (status : Float)
      → (rig_tier == "") ≡ false
      → is_ok (structure_material_bonus F true (some rig_tier) (security_band_for_status F status))
        ≡ contains rig_tier ("t1" ∷ "t2" ∷ [])
  structure_material_bonus-security_band rig_tier status named = ground (
    arith,
    structure_material_bonus-Returns rig_tier (security_band_for_status F status) named,
    security_band-known status,
  )
