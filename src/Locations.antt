-- ===== src/Locations.antt =====
-- services/locations.py: where an asset is, and the names of the places.
pub mod Chain
pub mod Info
pub mod Names
mod Tests
use eve_build.Prelude.{
  ℕ, zero, suc, Bool, true, false, not, Option, none, some, List, [], ◌∷◌, String, ◌==◌, nat_eq,
  string_eq, if◌then◌else◌, contains, length,
}
use eve_build.Prelude.Dict.{Dict, lookup, keys}

-- services/esi.py
pub record AssetEntry : Type 0 where
  pub item_id : ℕ
  pub type_id : ℕ
  pub location_id : ℕ
  pub location_flag : String
  pub location_type : String
  pub quantity : ℕ
  pub is_singleton : Bool

-- The `while` loop from `current` on, with the set `visited`; `none` means that the fuel ran out.
unfoldable pub follow : Dict ℕ AssetEntry → ℕ → List ℕ → ℕ → Option ℕ
follow assets_by_item_id zero visited current = none
follow assets_by_item_id (suc fuel) visited current = elim (lookup current assets_by_item_id) [
  | none ↦ some current
  | some asset ↦
      let deeper = follow assets_by_item_id fuel (current ∷ visited) asset.location_id in
      if contains current visited
      then some current
      else if not (asset.location_type == "item")
      then some asset.location_id
      else deeper
]

unfoldable pub resolve_container_chain : ℕ → Dict ℕ AssetEntry → Option ℕ
resolve_container_chain location_id assets_by_item_id =
    follow assets_by_item_id (suc (length (keys assets_by_item_id))) [] location_id
