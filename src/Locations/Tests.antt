-- ===== src/Locations/Tests.antt =====
-- A blueprint in a box in a hangar, and each theorem at a concrete input.
use eve_build.Prelude.{
  ℕ, ◌<◌, ◌≡◌, refl, Bool, true, false, none, some, [], ◌∷◌, String, nat_eq, string_eq, ◌==◌,
  if◌then◌else◌, arith,
}
use eve_build.Prelude.Dict.{Dict}
use eve_build.Locations.{AssetEntry, follow, resolve_container_chain}
use eve_build.Locations.Chain.{IsPlace, IsInside, resolve_container_chain-IsPlace}

abbrev asset : ℕ → ℕ → String → AssetEntry
asset id place kind = record {
  item_id = id;
  type_id = 0;
  location_id = place;
  location_flag = "Hangar";
  location_type = kind;
  quantity = 1;
  is_singleton = true;
}

-- Item 3 is in 2, 2 is in 1, and 1 is in the station 60.
abbrev assets : Dict ℕ AssetEntry
assets = (1, asset 1 60 "station") ∷ (2, asset 2 1 "item") ∷ (3, asset 3 2 "item") ∷ []

abbrev cyclic : Dict ℕ AssetEntry
cyclic = (1, asset 1 2 "item") ∷ (2, asset 2 1 "item") ∷ []

found_station : resolve_container_chain 2 assets ≡ some 60
unfolding resolve_container_chain follow
found_station = refl

cycle_stops : resolve_container_chain 1 cyclic ≡ some 1
unfolding resolve_container_chain follow
cycle_stops = refl

entry_rank :
    (item : ℕ) (a : AssetEntry) (b c d : Bool)
    → (1 == item) ≡ b
    → (2 == item) ≡ c
    → (3 == item) ≡ d
    → (if b
        then some (asset 1 60 "station")
        else if c
        then some (asset 2 1 "item")
        else if d
        then some (asset 3 2 "item")
        else none)
      ≡ some a
    → (a.location_type == "item") ≡ true
    → a.location_id < item
entry_rank item a true c d p q r found inside =
    let same : asset 1 60 "station" ≡ a = ground (arith, found) in
    let never : false ≡ true = rw (← same) at inside in absurd (ground (arith, never))
entry_rank item a false true d p q r found inside =
    let same : asset 2 1 "item" ≡ a = ground (arith, found) in rw (← same) (ground (arith, q))
entry_rank item a false false true p q r found inside =
    let same : asset 3 2 "item" ≡ a = ground (arith, found) in rw (← same) (ground (arith, r))
entry_rank item a false false false p q r found inside = absurd (ground (arith, found))

assets_rank : (item container : ℕ) → IsInside assets item container → container < item
assets_rank item container (a, found, inside, same) =
    rw (← same) (entry_rank item a (1 == item) (2 == item) (3 == item) refl refl refl found inside)

resolve_container_chain-IsPlace_example : IsPlace assets 60
resolve_container_chain-IsPlace_example =
    resolve_container_chain-IsPlace assets (λ k. k) assets_rank 2 60 found_station
