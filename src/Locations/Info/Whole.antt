-- ===== src/Locations/Info/Whole.antt =====
-- `resolve_location_info` of services/locations.py, which joins the details of locations with the
-- security statuses of their systems.
use mathlib.Core.Path.{subst}
use eve_build.Prelude.{
  false, ◌⊎◌, if◌then◌else◌, ℕ, ◌≡◌, refl, sym, ap, ◌∙◌, true, Option, none, some, List, [], ◌∷◌,
  ◌==◌, contains, is_some, nat_eq, string_eq, arith, Bool-cases, Option-cases, inl, inr,
}
use eve_build.Prelude.Dict.{Dict, lookup, beq_self}
use eve_build.Prelude.Exc.{Result, ok, err, Result-cases}
use eve_build.Prelude.Text.{cache_key}
use eve_build.External.Mongo.{Collection}
use eve_build.External.Find.{Finds}
use eve_build.External.Upsert.{Sets}
use eve_build.External.Redis.{Redis}
use eve_build.Cache.Documents.Coherence.{Holds}
use eve_build.Locations.Names.{Entry, entry_id, resolve_system_security_statuses}
use eve_build.Locations.Names.Truth.{AreTrue, resolve_names-IsTrue}
use eve_build.Locations.Names.Truth
use eve_build.Locations.Names.Absent.{AreFailed, resolve_names-AreFailed}
use eve_build.Locations.Names.Keys.{resolve_names-keys}
use eve_build.Locations.Info.{
  LocationDetails, LocationDoc, location_id, Details, LocationInfo, status_of, location_info,
  location_infos, system_ids_of, resolve_location_system_ids, Statuses, resolve_location_info,
}
use eve_build.Locations.Info.Truth.{
  AreKnown, StoreIsTrue, CacheIsTrue, IsTrue, resolve_location_system_ids-IsTrue,
}
use eve_build.Locations.Info.Keys.{
  resolve_location_system_ids-keys, resolve_location_system_ids-raised,
}

-- A listed system stays listed when another location is read.
listed_later :
    (k : ℕ) (system_id : Option ℕ) (rest : List ℕ)
    → contains k rest ≡ true
    → contains k (elim system_id [
      | none ↦ rest
      | some other ↦ if contains other rest then rest else other ∷ rest
    ])
      ≡ true
listed_later k none rest h = h
listed_later k (some other) rest h = ground (arith, h)

-- The system of each location is asked for.
system_ids_of-contains :
    (d : Dict ℕ LocationDetails) (id k : ℕ) (details : LocationDetails)
    → lookup id d ≡ some details
    → details.system_id ≡ some k
    → contains k (system_ids_of d) ≡ true
system_ids_of-contains [] id k details found at = absurd (ground (arith, found))
system_ids_of-contains ((j, other) ∷ d) id k details found at = elim (Bool-cases (j == id)) [
  | inl same ↦
      let here : some other ≡ some details = rw same at found in
      let whole : other ≡ details = ground (arith, here) in
      let system : other.system_id ≡ some k = ap (λ o. o.system_id) whole ∙ at in
      rw (system, system_ids_of)
        (elim (Bool-cases (contains k (system_ids_of d))) [
          | inl listed ↦ rw listed listed
          | inr new ↦ rw (new, beq_self k)
        ])
  | inr apart ↦
      let later = system_ids_of-contains d id k details (rw apart at found) at in
      listed_later k other.system_id (system_ids_of d) later
]

module _ {Float : Type 0} where
  -- The status of a system: there is one exactly where ESI or what is stored has it.
  abbrev pub HasStatus : (ℕ → Float) → (ℕ → Option Float) → Option ℕ → Option Float → Type 0
  HasStatus secure fetch_status none status = status ≡ none
  HasStatus secure fetch_status (some system_id) status =
      (status ≡ some (secure system_id)) ⊎ ((status ≡ none) × (fetch_status system_id ≡ none))

  -- What is shown of a location: its true details, or those that ESI gives without a name.
  abbrev pub Describes :
      (ℕ → Result LocationDetails)
      → (ℕ → LocationDetails)
      → (ℕ → Float)
      → (ℕ → Option Float)
      → ℕ
      → LocationInfo Float
      → Type 0
  Describes fetch truth secure fetch_status id info =
      (details : LocationDetails) × ((details ≡ truth id)
        ⊎ ((fetch id ≡ ok details) × (is_some details.name ≡ false)))
      × (info.name ≡ details.name)
      × (info.type_id ≡ details.type_id)
      × HasStatus secure fetch_status details.system_id info.security_status

  is_some-location_infos :
      (by_system : Dict ℕ (Option Float)) (d : Dict ℕ LocationDetails) (id : ℕ)
      → is_some (lookup id (location_infos by_system d)) ≡ is_some (lookup id d)
  is_some-location_infos by_system [] id = refl
  is_some-location_infos by_system ((k, details) ∷ d) id =
      ground (arith, is_some-location_infos by_system d id)

  lookup-location_infos :
      (by_system : Dict ℕ (Option Float)) (d : Dict ℕ LocationDetails) (id : ℕ)
      (info : LocationInfo Float)
      → lookup id (location_infos by_system d) ≡ some info
      → (details : LocationDetails) × (lookup id d ≡ some details)
        × (location_info by_system details ≡ info)
  lookup-location_infos by_system [] id info h = absurd (ground (arith, h))
  lookup-location_infos by_system ((k, details) ∷ d) id info h = elim (Bool-cases (k == id)) [
    | inl same ↦
        let here : some (location_info by_system details) ≡ some info = rw same at h in
        rw same (details, refl, ground (arith, here))
    | inr other ↦ rw other (lookup-location_infos by_system d id info (rw other at h))
  ]

  status_of-HasStatus :
      (secure : ℕ → Float) (fetch_status : ℕ → Option Float) (by_system : Dict ℕ (Option Float))
      (system_id : Option ℕ)
      → AreTrue secure by_system
      → AreFailed fetch_status by_system
      → ((k : ℕ) → system_id ≡ some k → is_some (lookup k by_system) ≡ true)
      → HasStatus secure fetch_status system_id (status_of by_system system_id)
  status_of-HasStatus secure fetch_status by_system none true_ones failed asked = refl
  status_of-HasStatus secure fetch_status by_system (some k) true_ones failed asked =
      elim (Option-cases (lookup k by_system)) [
        | inl absent ↦ absurd (ground (arith, absent, asked k refl))
        | inr (o, found) ↦ elim (Option-cases o) [
          | inl nothing ↦
              let here = found ∙ ap (λ x. some x) nothing in inr (rw here refl, failed k here)
          | inr (status, known) ↦
              let here = found ∙ ap (λ x. some x) known in
              inl (rw here (ap (λ x. some x) (true_ones k status here)))
        ]
      ]

module _ (locations : Collection ℕ LocationDoc location_id) (finds : Finds locations)
    (sets : Sets locations) (redis : Redis LocationDetails) (fetch : ℕ → Result LocationDetails)
    {Float : Type 0} (security : Collection ℕ (Entry Float) entry_id)
    (security_finds : Finds security) (security_sets : Sets security) (statuses : Redis Float)
    (fetch_status : ℕ → Option Float) (ttl : ℕ) (truth : ℕ → LocationDetails) (secure : ℕ → Float)
    (honest : (id : ℕ) (details : LocationDetails)
      → fetch id ≡ ok details
      → is_some details.name ≡ true
      → details ≡ truth id)
    (honest_status : (id : ℕ) (status : Float)
      → fetch_status id ≡ some status
      → status ≡ secure id) where
  abbrev AllStatuses : Type 0
  AllStatuses =
      Statuses locations finds sets redis fetch security security_finds security_sets statuses
        fetch_status ttl

  abbrev StatusesAreTrue : AllStatuses → Type 0
  StatusesAreTrue =
      Truth.IsTrue security security_finds security_sets statuses fetch_status "system_security" ttl
        secure honest_status

  -- What the coroutine leaves, and what it returns or raises.
  abbrev pub IsAnswer :
      List ℕ
      → Details locations finds sets redis fetch ttl
        × Result (AllStatuses × Dict ℕ (LocationInfo Float))
      → Type 0
  IsAnswer ids (n, err raised) =
      IsTrue locations finds sets redis fetch ttl truth honest n
      × ((id : ℕ) × (contains id ids ≡ true) × (fetch id ≡ err raised))
  IsAnswer ids (n, ok (by_system, infos)) =
      IsTrue locations finds sets redis fetch ttl truth honest n
      × (StatusesAreTrue by_system
          × (((id : ℕ) → is_some (lookup id infos) ≡ contains id ids)
              × ((id : ℕ) (info : LocationInfo Float)
                  → lookup id infos ≡ some info
                  → Describes fetch truth secure fetch_status id info)))

  location_infos-Describes :
      (by_system : Dict ℕ (Option Float)) (d : Dict ℕ LocationDetails) (id : ℕ)
      (info : LocationInfo Float)
      → AreTrue secure by_system
      → AreFailed fetch_status by_system
      → ((k : ℕ) → contains k (system_ids_of d) ≡ true → is_some (lookup k by_system) ≡ true)
      → AreKnown fetch truth d
      → lookup id (location_infos by_system d) ≡ some info
      → Describes fetch truth secure fetch_status id info
  location_infos-Describes by_system d id info true_ones failed asked known h =
      let (details, found, same) = lookup-location_infos by_system d id info h in
      (
        details,
        elim (Bool-cases (is_some details.name)) [
          | inl named ↦ inl ((known id details found).0 named)
          | inr nameless ↦ inr ((known id details found).1 nameless, nameless)
        ],
        sym (ap (λ i. i.name) same),
        sym (ap (λ i. i.type_id) same),
        subst (λ i. HasStatus secure fetch_status details.system_id i.security_status) same
            (status_of-HasStatus secure fetch_status by_system details.system_id true_ones failed
              (λ k at. asked k (system_ids_of-contains d id k details found at))),
      )

  -- Let ESI tell no details with a name but the true ones and no status but the true one, and let
  -- MongoDB and the caches hold no others (a document without a name may be there). Then so it is
  -- afterwards, also if the call raises, which it does only with an exception of ESI for a location
  -- asked for. Else the result has an entry for each location asked for and for no other: it shows the
  -- name and the type of the true details, or of those that ESI gives just then without a name, and
  -- the true status of their system, unless they have no system or ESI does not give its status.
  pub resolve_location_info-IsAnswer :
      (ids : List ℕ) (s : Collection.Store locations) (cache : Option (Redis.Cache redis))
      (security_s : Collection.Store security) (security_cache : Option (Redis.Cache statuses))
      → StoreIsTrue locations finds sets redis fetch ttl truth honest s
      → CacheIsTrue locations finds sets redis fetch ttl truth honest cache
      → ((id : ℕ) (entry : Entry Float)
          → Collection.get security id security_s ≡ some entry
          → (entry.id ≡ id) × (entry.value ≡ secure id))
      → ((id : ℕ) (status : Float)
          → Holds statuses (cache_key "system_security" id) status security_cache
          → status ≡ secure id)
      → IsAnswer ids (
          resolve_location_info locations finds sets redis fetch security security_finds
            security_sets statuses fetch_status ttl ids s cache security_s security_cache)
  unfolding resolve_location_info resolve_system_security_statuses
  resolve_location_info-IsAnswer ids s cache security_s security_cache stored cached known held =
      let result = resolve_location_system_ids locations finds sets redis fetch ttl ids s cache in
      let truths =
        resolve_location_system_ids-IsTrue locations finds sets redis fetch ttl truth honest ids s
          cache stored cached in
      elim (Result-cases result.1) [
        | inl (raised, failed) ↦
            rw (failed, resolve_location_info)
              (
                truths,
                resolve_location_system_ids-raised locations finds sets redis fetch ttl ids s cache
                    raised failed,
              )
        | inr (_, finished) ↦
            let systems = system_ids_of result.0.resolved in
            let by_system_true =
              resolve_names-IsTrue security security_finds security_sets statuses fetch_status
                "system_security" ttl secure honest_status systems security_s security_cache known
                held in
            rw (finished, resolve_location_info)
              (
                truths,
                (
                  by_system_true,
                  (
                    λ id.
                        is_some-location_infos _ result.0.resolved id
                        ∙ resolve_location_system_ids-keys locations finds sets redis fetch ttl ids
                            s cache id (λ k doc e. (stored k doc e).0) finished,
                    λ id info.
                        location_infos-Describes _ result.0.resolved id info by_system_true.0
                          (resolve_names-AreFailed security security_finds security_sets statuses
                            fetch_status "system_security" ttl systems security_s security_cache)
                          (λ k listed.
                            resolve_names-keys security security_finds security_sets statuses
                              fetch_status "system_security" ttl systems security_s security_cache k
                              (λ j entry e. (known j entry e).0)
                            ∙ listed)
                          truths.0,
                  ),
                ),
              )
      ]
