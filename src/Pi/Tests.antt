-- ===== src/Pi/Tests.antt =====
-- Colonies on concrete pins.
use eve_build.Prelude.{
  ℕ, ◌≡◌, refl, true, Option, none, some, List, [], ◌∷◌, any, contains, nat_eq, string_eq, IsUnique,
}
use eve_build.Prelude.Dict.{Dict}
use eve_build.Prelude.Exc.{http_status, Result, ok, err}
use eve_build.Pi.{Pin, Schematic, produce, produced_type_ids, pi_scope, get_colonies_or_none}
use eve_build.Pi.Products.{makes, produced_type_ids-contains}

abbrev schematics : Dict ℕ Schematic
schematics = (121, record { output = record { type_id = 2390; quantity = 20 } }) ∷ []

abbrev extractor : Option ℕ → Pin
extractor product = record {
  extractor_details = some (record { product_type_id = product });
  schematic_id = none;
}

abbrev factory : Option ℕ → Pin
factory schematic = record { extractor_details = none; schematic_id = schematic }

-- Two extractors of one product, an idle one, a factory, one with an unknown schematic, and a store.
abbrev pins : List Pin
pins =
    extractor (some 2268)
    ∷ extractor none
    ∷ factory (some 121)
    ∷ extractor (some 2268)
    ∷ factory (some 122)
    ∷ factory none
    ∷ []

produced_type_ids-pins : produced_type_ids schematics pins ≡ 2268 ∷ 2390 ∷ []
unfolding produced_type_ids produce
produced_type_ids-pins = refl

produced_type_ids-contains_example :
    IsUnique (produced_type_ids schematics pins)
    × ((t : ℕ) → contains t (produced_type_ids schematics pins) ≡ any (makes schematics t) pins)
produced_type_ids-contains_example = produced_type_ids-contains schematics pins

abbrev forbidden : Result (List ℕ)
forbidden = err (http_status 403)

get_colonies_or_none-forbidden : get_colonies_or_none (pi_scope ∷ []) forbidden ≡ (true, ok none)
unfolding get_colonies_or_none
get_colonies_or_none-forbidden = refl
