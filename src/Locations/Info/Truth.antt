-- ===== src/Locations/Info/Truth.antt =====
-- What services/locations.py says of locations is what ESI says of them, wherever it is read from.
use eve_build.Prelude.{
  false, ℕ, ◌≡◌, sym, ap, ◌∙◌, true, Option, none, some, List, [], ◌∷◌, map, ◌==◌, All, is_some,
  nat_eq, string_eq, arith, Bool-cases, inl, inr,
}
use eve_build.Prelude.Dict.{Dict, lookup, insert, lookup-insert, eq_of_beq}
use eve_build.Prelude.Exc.{Result, ok, Result-cases}
use eve_build.Prelude.Text.{cache_key, cache_key-injective}
use eve_build.External.Mongo.{Collection, keep}
use eve_build.External.Find.{Finds}
use eve_build.External.Upsert.{Sets}
use eve_build.External.Redis.{Redis, HasItem}
use eve_build.Cache.{get_many_cached}
use eve_build.Cache.Documents.{missing_ids}
use eve_build.Cache.Documents.Transparent.{List-cases}
use eve_build.Cache.Documents.Coherence.{Holds, get_many-Holds, set_many-Holds, read_cached-lookup}
use eve_build.Locations.Info.{
  LocationDetails, LocationDoc, location_id, is_named, add_locations, keyed_locations, Details,
  cached_details, stored_details, keep_details, fetch_details, resolve_location_system_ids,
}

module _ (fetch : ℕ → Result LocationDetails) (truth : ℕ → LocationDetails) where
  -- Details with a name are the true ones.
  abbrev pub IsKnown : ℕ → LocationDetails → Type 0
  IsKnown id details = is_some details.name ≡ true → details ≡ truth id

  abbrev pub IsKept : ℕ → LocationDetails → Type 0
  IsKept id details = (is_some details.name ≡ true) × (details ≡ truth id)

  -- And those without are what ESI gives just then.
  abbrev pub IsGiven : ℕ → LocationDetails → Type 0
  IsGiven id details = IsKnown id details × (is_some details.name ≡ false → fetch id ≡ ok details)

  abbrev pub AreKnown : Dict ℕ LocationDetails → Type 0
  AreKnown d =
      (id : ℕ) (details : LocationDetails) → lookup id d ≡ some details → IsGiven id details

  insert-AreKnown :
      (id : ℕ) (details : LocationDetails) (d : Dict ℕ LocationDetails)
      → IsGiven id details
      → AreKnown d
      → AreKnown (insert id details d)
  insert-AreKnown id details d new h j other e = elim (Bool-cases (id == j)) [
    | inl same ↦
        let value : some details ≡ some other = sym (lookup-insert id j details d ∙ rw same) ∙ e in
        let whole : details ≡ other = ground (arith, value) in
        rw (← eq_of_beq id j same, ← whole) new
    | inr apart ↦ h j other (sym (lookup-insert id j details d ∙ rw apart) ∙ e)
  ]

  add_locations-AreKnown :
      (docs : List LocationDoc) (d : Dict ℕ LocationDetails)
      → All (λ (doc : LocationDoc). IsKept doc.id doc.details) docs
      → AreKnown d
      → AreKnown (add_locations docs d)
  add_locations-AreKnown [] d all h = h
  add_locations-AreKnown (doc ∷ docs) d all h =
      add_locations-AreKnown docs (insert doc.id doc.details d) all.1 (
        insert-AreKnown doc.id doc.details d
          ((λ named. all.0.1), λ nameless. absurd (ground (arith, all.0.0, nameless))) h)

  keyed_locations-IsKept :
      (docs : List LocationDoc) (id : ℕ) (details : LocationDetails)
      → All (λ (doc : LocationDoc). IsKept doc.id doc.details) docs
      → HasItem (cache_key "location_details" id) details (keyed_locations docs)
      → IsKept id details
  keyed_locations-IsKept [] id details all h = absurd h
  keyed_locations-IsKept (doc ∷ docs) id details all (inl (key, value)) =
      let same = cache_key-injective "location_details" doc.id id key in rw (← same, ← value) all.0
  keyed_locations-IsKept (doc ∷ docs) id details all (inr later) =
      keyed_locations-IsKept docs id details all.1 later

module _ (locations : Collection ℕ LocationDoc location_id) (finds : Finds locations)
    (sets : Sets locations) (redis : Redis LocationDetails) (fetch : ℕ → Result LocationDetails)
    (ttl : ℕ) (truth : ℕ → LocationDetails)
    (honest : (id : ℕ) (details : LocationDetails)
      → fetch id ≡ ok details
      → is_some details.name ≡ true
      → details ≡ truth id) where
  open locations use {Store, get}

  abbrev pub StoreIsTrue : Store → Type 0
  StoreIsTrue s =
      (id : ℕ) (doc : LocationDoc)
      → get id s ≡ some doc
      → (doc.id ≡ id) × IsKnown fetch truth id doc.details

  abbrev pub CacheIsTrue : Option (Redis.Cache redis) → Type 0
  CacheIsTrue cache =
      (id : ℕ) (details : LocationDetails)
      → Holds redis (cache_key "location_details" id) details cache
      → IsKept fetch truth id details

  -- What is resolved or stored is true where it has a name, and nothing else is cached.
  abbrev pub IsTrue : Details locations finds sets redis fetch ttl → Type 0
  IsTrue n = AreKnown fetch truth n.resolved × (StoreIsTrue n.stored × CacheIsTrue n.cache)

  cached_details-IsTrue :
      (ids : List ℕ) (s : Store) (cache : Option (Redis.Cache redis))
      → StoreIsTrue s
      → CacheIsTrue cache
      → IsTrue (cached_details locations finds sets redis fetch ttl ids s cache)
  unfolding cached_details
  cached_details-IsTrue ids s cache stored cached = (
    (λ id details found.
        let keys = map (cache_key "location_details") ids in
        let held =
          read_cached-lookup "location_details" (get_many_cached redis cache keys) ids id details
            found in
        let kept =
          cached id details
            (get_many-Holds redis cache keys (cache_key "location_details" id) details held.0) in
        ((λ named. kept.1), λ nameless. absurd (ground (arith, kept.0, nameless)))),
    (stored, cached),
  )

  keep-named :
      (o : Option LocationDoc) (doc : LocationDoc)
      → keep is_named o ≡ some doc
      → (o ≡ some doc) × (is_some doc.details.name ≡ true)
  keep-named none doc h = absurd (ground (arith, h))
  keep-named (some x) doc h = elim (Bool-cases (is_some x.details.name)) [
    | inl named ↦
        let whole : some x ≡ some doc = rw named at h in
        let same : x ≡ doc = ground (arith, whole) in
        (whole, sym (ap (λ d. is_some d.details.name) same) ∙ named)
    | inr nameless ↦
        let never : none ≡ some doc = rw nameless at h in absurd (ground (arith, never))
  ]

  find_in-IsKept :
      (docs : List LocationDoc) (s : Store)
      → StoreIsTrue s
      → All (λ (d : LocationDoc). keep is_named (get d.id s) ≡ some d) docs
      → All (λ (d : LocationDoc). IsKept fetch truth d.id d.details) docs
  find_in-IsKept [] s stored all = tt
  find_in-IsKept (doc ∷ docs) s stored all =
      let (found, named) = keep-named (get doc.id s) doc all.0 in
      ((named, (stored doc.id doc found).1 named), find_in-IsKept docs s stored all.1)

  stored_details-IsTrue :
      (ids : List ℕ) (n : Details locations finds sets redis fetch ttl)
      → IsTrue n
      → IsTrue (stored_details locations finds sets redis fetch ttl ids n)
  unfolding stored_details
  stored_details-IsTrue ids n h = elim (List-cases (missing_ids ids n.resolved)) [
    | inl nothing ↦ rw (nothing, stored_details) h
    | inr (id, rest, missing) ↦
        let docs = Finds.find_in finds (id ∷ rest) is_named n.stored in
        let all =
          find_in-IsKept docs n.stored h.1.0
            (Finds.find_in-stored finds (id ∷ rest) is_named n.stored (λ k d e. (h.1.0 k d e).0)) in
        rw (missing, stored_details)
          (
            add_locations-AreKnown fetch truth docs n.resolved all h.0,
            (
              h.1.0,
              λ k details held.
                  elim (set_many-Holds redis (keyed_locations docs) ttl n.cache
                    (cache_key "location_details" k) details held) [
                      | inl before ↦ h.1.1 k details before
                      | inr set ↦ keyed_locations-IsKept fetch truth docs k details all set
                    ],
            ),
          )
  ]

  set_one-StoreIsTrue :
      (doc : LocationDoc) (s : Store)
      → IsKnown fetch truth doc.id doc.details
      → StoreIsTrue s
      → StoreIsTrue (Sets.set_one sets doc s)
  set_one-StoreIsTrue new s known stored k doc e =
      let at = Sets.get-set_one sets new s k in
      elim (Bool-cases (new.id == k)) [
        | inl same ↦
            let whole : some new ≡ some doc = sym (at ∙ rw same) ∙ e in
            let value : new ≡ doc = ground (arith, whole) in
            let key = eq_of_beq new.id k same in rw (← value) (key, rw (← key) known)
        | inr other ↦ stored k doc (sym (at ∙ rw other) ∙ e)
      ]

  keep_details-IsTrue :
      (id : ℕ) (details : LocationDetails) (n : Details locations finds sets redis fetch ttl)
      → fetch id ≡ ok details
      → IsTrue n
      → IsTrue (keep_details locations finds sets redis fetch ttl id details n)
  unfolding keep_details
  keep_details-IsTrue id details n given h =
      let resolved =
        insert-AreKnown fetch truth id details n.resolved
          (honest id details given, λ nameless. given) h.0 in
      elim (Bool-cases (is_some details.name)) [
        | inr nameless ↦ rw (nameless, keep_details) (resolved, h.1)
        | inl named ↦
            let doc : LocationDoc = record { id = id; details = details } in
            let kept : IsKept fetch truth id details = (named, honest id details given named) in
            rw (named, keep_details)
              (
                resolved,
                (
                  set_one-StoreIsTrue doc n.stored (λ _. kept.1) h.1.0,
                  λ k other held.
                      elim (set_many-Holds redis (keyed_locations (doc ∷ [])) ttl n.cache
                        (cache_key "location_details" k) other held) [
                          | inl before ↦ h.1.1 k other before
                          | inr set ↦
                              keyed_locations-IsKept fetch truth (doc ∷ []) k other (kept, tt) set
                        ],
                ),
              )
      ]

  fetch_details-IsTrue :
      (ids : List ℕ) (n : Details locations finds sets redis fetch ttl)
      → IsTrue n
      → IsTrue (fetch_details locations finds sets redis fetch ttl ids n).0
  unfolding fetch_details
  fetch_details-IsTrue [] n h = h
  fetch_details-IsTrue (id ∷ ids) n h = elim (Result-cases (fetch id)) [
    | inl (raised, failed) ↦ rw (failed, fetch_details) h
    | inr (details, given) ↦
        rw (given, fetch_details)
          (fetch_details-IsTrue ids _ (keep_details-IsTrue id details n given h))
  ]

  -- Also where ESI raises an exception.
  pub resolve_location_system_ids-IsTrue :
      (ids : List ℕ) (s : Store) (cache : Option (Redis.Cache redis))
      → StoreIsTrue s
      → CacheIsTrue cache
      → IsTrue (resolve_location_system_ids locations finds sets redis fetch ttl ids s cache).0
  unfolding resolve_location_system_ids
  resolve_location_system_ids-IsTrue ids s cache stored cached =
      fetch_details-IsTrue _ _
        (stored_details-IsTrue ids _ (cached_details-IsTrue ids s cache stored cached))
