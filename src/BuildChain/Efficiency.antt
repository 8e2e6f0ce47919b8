-- ===== src/BuildChain/Efficiency.antt =====
-- The material discounts of services/build_chain.py.
pub mod Laws
pub mod Errors
use eve_build.Prelude.{
  ℕ, suc, ◌+◌, ◌≤◌, Bool, true, false, not, ◌||◌, Option, none, some, List, [], ◌∷◌, String,
  if◌then◌else◌, leb, ◌==◌, string_eq,
}
use eve_build.Prelude.Dict.{Dict, lookup}
use eve_build.Prelude.Exc.{Result, ok, err, key_error, or_raise, ◌>>=◌}
use eve_build.External.Float.{FloatArith}
use eve_build.BuildChain.Recipe.{Material}

-- `max(a, b)`
abbrev pub max : ℕ → ℕ → ℕ
max a b = if leb a b then b else a

module _ (F : FloatArith) where
  open F use {Float, of_ℕ, literal, sub, mul, div, ceil, le}

  abbrev facility_material_bonus : Float
  facility_material_bonus = literal 1 2

  abbrev rig_base_material_bonus : Dict String Float
  rig_base_material_bonus = ("t1", literal 20 3) ∷ ("t2", literal 24 3) ∷ []

  abbrev security_rig_multiplier : Dict String Float
  security_rig_multiplier =
      ("high", literal 10 1) ∷ ("low", literal 19 1) ∷ ("null_wh", literal 21 1) ∷ []

  -- `if rig_tier` is false for `None` and for the empty string.
  unfoldable pub structure_material_bonus : Bool → Option String → String → Result Float
  structure_material_bonus false rig_tier security_band = ok (of_ℕ 0)
  structure_material_bonus true none security_band =
      ok (sub (of_ℕ 1) (sub (of_ℕ 1) facility_material_bonus))
  structure_material_bonus true (some rig_tier) security_band =
      let multiplier = sub (of_ℕ 1) facility_material_bonus in
      if rig_tier == "" then ok (sub (of_ℕ 1) multiplier) else do
        base ← or_raise key_error (lookup rig_tier rig_base_material_bonus)
        factor ← or_raise key_error (lookup security_band security_rig_multiplier)
        ok (sub (of_ℕ 1) (mul multiplier (sub (of_ℕ 1) (mul base factor))))

  unfoldable pub security_band_for_status : Float → String
  security_band_for_status security_status =
      if le (literal 5 1) security_status
      then "high"
      else if not (le security_status (of_ℕ 0))
      then "low"
      else "null_wh"

  unfoldable pub material_quantity_per_run : ℕ → ℕ → Float → ℕ
  material_quantity_per_run base_quantity material_efficiency structure_bonus =
      let reduced =
        mul (mul (of_ℕ base_quantity) (sub (of_ℕ 1) (div (of_ℕ material_efficiency) (of_ℕ 100))))
          (sub (of_ℕ 1) structure_bonus) in
      max 1 (ceil reduced)
