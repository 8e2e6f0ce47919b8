-- ===== src/Pi.antt =====
-- routes/pi.py: the colonies of a character, and what each of them makes.
pub mod Products
pub mod Scope
mod Tests
use eve_build.Prelude.{
  ℕ, String, Bool, true, false, ◌||◌, Option, none, some, List, [], ◌∷◌, ◌++◌, if◌then◌else◌, not,
  ◌&&◌, nat_eq, ◌==◌, string_eq, contains, is_some,
}
use eve_build.Prelude.Dict.{Dict, lookup}
use eve_build.Prelude.Exc.{Exc, http_status, Result, ok, err}

-- `pin["extractor_details"]`
pub record ExtractorDetails : Type 0 where
  pub product_type_id : Option ℕ

pub record Pin : Type 0 where
  pub extractor_details : Option ExtractorDetails
  pub schematic_id : Option ℕ

-- `schematic["output"]`
pub record Output : Type 0 where
  pub type_id : ℕ
  pub quantity : ℕ

pub record Schematic : Type 0 where
  pub output : Output

-- What a pin makes: an extractor its product, a factory the output of its schematic.
abbrev pub pin_product : Dict ℕ Schematic → Pin → Option ℕ
pin_product schematic_by_id pin = elim pin.extractor_details [
  | some extractor_details ↦ extractor_details.product_type_id
  | none ↦ elim pin.schematic_id [
    | none ↦ none
    | some schematic_id ↦ elim (lookup schematic_id schematic_by_id) [
      | none ↦ none
      | some schematic ↦ some schematic.output.type_id
    ]
  ]
]

-- The loop over the pins, from the lists `seen` and `produced`.
unfoldable pub produce : Dict ℕ Schematic → List ℕ → List ℕ → List Pin → List ℕ
produce schematic_by_id seen produced [] = produced
produce schematic_by_id seen produced (pin ∷ pins) = elim (pin_product schematic_by_id pin) [
  | none ↦ produce schematic_by_id seen produced pins
  | some product_type_id ↦
      let skipped = produce schematic_by_id seen produced pins in
      let added =
        produce schematic_by_id (product_type_id ∷ seen) (produced ++ product_type_id ∷ []) pins in
      if contains product_type_id seen then skipped else added
]

unfoldable pub produced_type_ids : Dict ℕ Schematic → List Pin → List ℕ
produced_type_ids schematic_by_id pins = produce schematic_by_id [] [] pins

abbrev pub pi_scope : String
pi_scope = "esi-planets.manage_planets.v1"

-- The `except` clause of `_get_colonies_or_none`.
abbrev pub on_error {ℓ} : {Colonies : Type ℓ} → Exc → Result (Option Colonies)
on_error (http_status code) = if code == 401 || code == 403 then ok none else err (http_status code)
on_error exc = err exc

-- `fetched` is what `get_character_colonies` returns or raises; the Boolean is whether it is called.
unfoldable pub get_colonies_or_none {ℓ} :
    {Colonies : Type ℓ} → List String → Result Colonies → Bool × Result (Option Colonies)
get_colonies_or_none scopes fetched =
    if contains pi_scope scopes
    then (true, elim fetched [ ok colonies ↦ ok (some colonies) | err exc ↦ on_error exc ])
    else (false, ok none)
