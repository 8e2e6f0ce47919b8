-- ===== src/Locations/Names/Tests.antt =====
-- Three systems, one of which is stored and one of which ESI does not give, and each theorem at a
-- concrete input.
use eve_build.Prelude.{
  ℕ, ◌≡◌, sym, Option, none, some, [], ◌∷◌, String, if◌then◌else◌, ◌==◌, nat_eq, string_eq, arith,
  Bool-cases, inl, inr,
}
use eve_build.Prelude.Dict.{eq_of_beq}
use eve_build.External.Memory.{memory}
use eve_build.External.Find.{memory_finds}
use eve_build.External.Upsert.{memory_sets}
use eve_build.External.Redis.{table_cache}
use eve_build.Locations.Names.{Entry, entry_id, Names, resolve_names}
use eve_build.Locations.Names.Truth.{IsTrue, resolve_names-IsTrue}

abbrev truth : ℕ → String
truth id = if id == 10 then "Jita" else "Amarr"

abbrev fetch : ℕ → Option String
fetch id = if id == 12 then none else some (truth id)

abbrev stored : ℕ → Option (Entry String)
stored id = if id == 10 then some (record { id = 10; value = "Jita" }) else none

abbrev cold : String → Option String
cold key = none

abbrev AllNames : Type 0
AllNames =
    Names (memory entry_id) (memory_finds entry_id) (memory_sets entry_id) (table_cache String)
      fetch "system_name" 60

abbrev after : AllNames
after =
    resolve_names (memory entry_id) (memory_finds entry_id) (memory_sets entry_id)
      (table_cache String) fetch "system_name" 60 (10 ∷ 11 ∷ 12 ∷ []) stored (some cold)

honest : (id : ℕ) (v : String) → fetch id ≡ some v → v ≡ truth id
honest id v h = elim (Bool-cases (id == 12)) [
  | inl failed ↦ let never : none ≡ some v = rw failed at h in absurd (ground (arith, never))
  | inr given ↦ let known : some (truth id) ≡ some v = rw given at h in ground (arith, known)
]

stored-true :
    (id : ℕ) (entry : Entry String)
    → stored id ≡ some entry
    → (entry.id ≡ id) × (entry.value ≡ truth id)
stored-true id entry h = elim (Bool-cases (id == 10)) [
  | inl first ↦
      let known : some (record { id = 10; value = "Jita" }) ≡ some entry = rw first at h in
      let same : record { id = 10; value = "Jita" } ≡ entry = ground (arith, known) in
      (rw (← same) (sym (eq_of_beq id 10 first)), rw (← same) (rw first))
  | inr other ↦ let never : none ≡ some entry = rw other at h in absurd (ground (arith, never))
]

resolve_names-IsTrue_example :
    IsTrue
      (memory entry_id)
      (memory_finds entry_id)
      (memory_sets entry_id)
      (table_cache String)
      fetch
      "system_name"
      60
      truth
      honest
      after
resolve_names-IsTrue_example =
    resolve_names-IsTrue (memory entry_id) (memory_finds entry_id) (memory_sets entry_id)
      (table_cache String) fetch "system_name" 60 truth honest (10 ∷ 11 ∷ 12 ∷ []) stored
      (some cold) stored-true (λ id v h. absurd (ground (arith, h)))
