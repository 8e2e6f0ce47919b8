-- ===== src/Locations/Info/Tests.antt =====
-- A station that ESI names, a structure that it does not, and the theorem at this input.
use eve_build.Prelude.{
  ℕ, ◌≡◌, refl, true, Option, none, some, List, [], ◌∷◌, if◌then◌else◌, ◌==◌, is_some, nat_eq,
  arith, Bool-cases, inl, inr,
}
use eve_build.Prelude.Exc.{Result, ok, err, http_error}
use eve_build.External.Memory.{memory}
use eve_build.External.Find.{memory_finds}
use eve_build.External.Upsert.{memory_sets}
use eve_build.External.Redis.{table_cache}
use eve_build.Cache.{get_many_cached}
use eve_build.Locations.Names.{entry_id}
use eve_build.Locations.Info.{
  LocationDetails, location_id, Details, cached_details, stored_details, keep_details,
  fetch_details, resolve_location_system_ids, resolve_location_info,
}
use eve_build.Locations.Info.Whole.{IsAnswer, resolve_location_info-IsAnswer}

abbrev jita : LocationDetails
jita = record { name = some "Jita IV"; system_id = some 30000142; type_id = some 52678 }

abbrev nameless : LocationDetails
nameless = record { name = none; system_id = none; type_id = none }

abbrev truth : ℕ → LocationDetails
truth id = if id == 60003760 then jita else nameless

abbrev secure : ℕ → ℕ
secure id = 9

abbrev fetch : ℕ → Result LocationDetails
fetch id = if id == 7 then err http_error else ok (truth id)

abbrev fetch_status : ℕ → Option ℕ
fetch_status id = some (secure id)

abbrev asked : List ℕ
asked = 60003760 ∷ 1035466617946 ∷ []

honest :
    (id : ℕ) (details : LocationDetails)
    → fetch id ≡ ok details
    → is_some details.name ≡ true
    → details ≡ truth id
honest id details given named = elim (Bool-cases (id == 7)) [
  | inl raised ↦
      let never : err http_error ≡ ok details = rw raised at given in absurd (ground (arith, never))
  | inr other ↦ let known : ok (truth id) ≡ ok details = rw other at given in ground (arith, known)
]

honest_status : (id status : ℕ) → fetch_status id ≡ some status → status ≡ secure id
honest_status id status h = ground (arith, h)

abbrev resolved_details :
    Details
      (memory location_id)
      (memory_finds location_id)
      (memory_sets location_id)
      (table_cache LocationDetails)
      fetch
      60
resolved_details =
    (resolve_location_system_ids (memory location_id) (memory_finds location_id)
      (memory_sets location_id) (table_cache LocationDetails) fetch 60 asked (λ id. none) none).0

named_stored : is_some (resolved_details.stored 60003760) ≡ true
unfolding resolve_location_system_ids fetch_details keep_details stored_details cached_details
    get_many_cached
named_stored = refl

nameless_not_stored : resolved_details.stored 1035466617946 ≡ none
unfolding resolve_location_system_ids fetch_details keep_details stored_details cached_details
    get_many_cached
nameless_not_stored = refl

resolve_location_info-IsAnswer_example :
    IsAnswer
      (memory location_id)
      (memory_finds location_id)
      (memory_sets location_id)
      (table_cache LocationDetails)
      fetch
      (memory entry_id)
      (memory_finds entry_id)
      (memory_sets entry_id)
      (table_cache ℕ)
      fetch_status
      60
      truth
      secure
      honest
      honest_status
      asked
      (resolve_location_info
        (memory location_id)
        (memory_finds location_id)
        (memory_sets location_id)
        (table_cache LocationDetails)
        fetch
        (memory entry_id)
        (memory_finds entry_id)
        (memory_sets entry_id)
        (table_cache ℕ)
        fetch_status
        60
        asked
        (λ id. none)
        (some (λ key. none))
        (λ id. none)
        (some (λ key. none)))
resolve_location_info-IsAnswer_example =
    resolve_location_info-IsAnswer (memory location_id) (memory_finds location_id)
      (memory_sets location_id) (table_cache LocationDetails) fetch (memory entry_id)
      (memory_finds entry_id) (memory_sets entry_id) (table_cache ℕ) fetch_status 60 truth secure
      honest honest_status asked (λ id. none) (some (λ key. none)) (λ id. none) (some (λ key. none))
      (λ id doc h. absurd (ground (arith, h))) (λ id details h. absurd (ground (arith, h)))
      (λ id entry h. absurd (ground (arith, h))) (λ id status h. absurd (ground (arith, h)))
