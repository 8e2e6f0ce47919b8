-- ===== src/Locations/Info/Keys.antt =====
-- Every location that is asked for gets its details from services/locations.py, and no other does.
use eve_build.Prelude.{
  ℕ, ◌≡◌, refl, sym, ap, ◌∙◌, Bool, true, ◌||◌, Option, List, [], ◌∷◌, map, ◌==◌, any, contains,
  is_some, nat_eq, string_eq, arith, Bool-cases, inl, inr, Option-cases,
}
use eve_build.Prelude.Dict.{Dict, lookup, insert, lookup-insert, beq_self}
use eve_build.Prelude.Exc.{Result, ok, err, Exc, Result-cases}
use eve_build.Prelude.Text.{cache_key}
use eve_build.External.Mongo.{Collection}
use eve_build.External.Find.{IsKeyed, Finds}
use eve_build.External.Upsert.{Sets}
use eve_build.External.Redis.{Redis}
use eve_build.Cache.{get_many_cached}
use eve_build.Cache.Documents.{read_cached, missing_ids}
use eve_build.Cache.Documents.Transparent.{List-cases}
use eve_build.Cache.Documents.Coherence.{read_cached-lookup, contains-missing}
use eve_build.Locations.Names.Keys.{asked_of, all_asked}
use eve_build.Locations.Info.{
  LocationDetails, LocationDoc, location_id, is_named, add_locations, Details, cached_details,
  stored_details, keep_details, fetch_details, resolve_location_system_ids,
}

is_some-add_locations :
    (docs : List LocationDoc) (d : Dict ℕ LocationDetails) (id : ℕ)
    → is_some (lookup id (add_locations docs d))
      ≡ (any (λ doc. doc.id == id) docs || is_some (lookup id d))
is_some-add_locations [] d id = refl
is_some-add_locations (doc ∷ docs) d id =
    is_some-add_locations docs (insert doc.id doc.details d) id
    ∙ ground (arith, lookup-insert doc.id id doc.details d)

module _ (locations : Collection ℕ LocationDoc location_id) (finds : Finds locations)
    (sets : Sets locations) (redis : Redis LocationDetails) (fetch : ℕ → Result LocationDetails)
    (ttl : ℕ) where
  abbrev pub has : ℕ → Details locations finds sets redis fetch ttl → Bool
  has id n = is_some (lookup id n.resolved)

  cached_details-has :
      (ids : List ℕ) (s : Collection.Store locations) (cache : Option (Redis.Cache redis)) (id : ℕ)
      → has id (cached_details locations finds sets redis fetch ttl ids s cache) ≡ true
      → contains id ids ≡ true
  unfolding cached_details
  cached_details-has ids s cache id h =
      let cached = get_many_cached redis cache (map (cache_key "location_details") ids) in
      elim (Option-cases (lookup id (read_cached "location_details" cached ids))) [
        | inl absent ↦ absurd (ground (arith, absent, h))
        | inr (v, there) ↦ (read_cached-lookup "location_details" cached ids id v there).1
      ]

  stored_details-has :
      (ids : List ℕ) (n : Details locations finds sets redis fetch ttl) (id : ℕ)
      → IsKeyed locations n.stored
      → (has id n ≡ true → contains id ids ≡ true)
      → has id (stored_details locations finds sets redis fetch ttl ids n) ≡ true
      → contains id ids ≡ true
  unfolding stored_details
  stored_details-has ids n id keyed asked h = elim (List-cases (missing_ids ids n.resolved)) [
    | inl nothing ↦ asked (rw (nothing, stored_details) at h)
    | inr (k, rest, missing) ↦
        let docs = Finds.find_in finds (k ∷ rest) is_named n.stored in
        let here : is_some (lookup id (add_locations docs n.resolved)) ≡ true =
          rw (missing, stored_details) at h in
        asked_of (has id n) _ (contains id (k ∷ rest)) _ (contains id ids)
          (sym (is_some-add_locations docs n.resolved id) ∙ here)
          (Finds.any-find_in finds (k ∷ rest) is_named n.stored id keyed)
          (sym (ap (λ l. contains id l) missing) ∙ contains-missing ids n.resolved id) asked
  ]

  keep_details-has :
      (k : ℕ) (details : LocationDetails) (n : Details locations finds sets redis fetch ttl)
      (id : ℕ)
      → has id (keep_details locations finds sets redis fetch ttl k details n)
        ≡ (k == id || has id n)
  unfolding keep_details
  keep_details-has k details n id = elim (Bool-cases (is_some details.name)) [
    | inl named ↦ rw (named, keep_details) (ground (arith, lookup-insert k id details n.resolved))
    | inr nameless ↦
        rw (nameless, keep_details) (ground (arith, lookup-insert k id details n.resolved))
  ]

  fetch_details-has :
      (ks : List ℕ) (n : Details locations finds sets redis fetch ttl) (id : ℕ)
      → (fetch_details locations finds sets redis fetch ttl ks n).1 ≡ ok tt
      → has id (fetch_details locations finds sets redis fetch ttl ks n).0
        ≡ (contains id ks || has id n)
  unfolding fetch_details
  fetch_details-has [] n id finished = refl
  fetch_details-has (k ∷ ks) n id finished = elim (Result-cases (fetch k)) [
    | inl (raised, failed) ↦
        let never : err raised ≡ ok tt = rw (failed, fetch_details) at finished in
        absurd (ground (arith, never))
    | inr (details, given) ↦
        let later = rw (given, fetch_details) at finished in
        rw (given, fetch_details)
          (fetch_details-has ks _ id later ∙ ground (arith, keep_details-has k details n id))
  ]

  fetch_details-raised :
      (ks : List ℕ) (n : Details locations finds sets redis fetch ttl) (raised : Exc)
      → (fetch_details locations finds sets redis fetch ttl ks n).1 ≡ err raised
      → (id : ℕ) × (contains id ks ≡ true) × (fetch id ≡ err raised)
  unfolding fetch_details
  fetch_details-raised [] n raised h = absurd (ground (arith, h))
  fetch_details-raised (k ∷ ks) n raised h = elim (Result-cases (fetch k)) [
    | inl (e, failed) ↦
        let same : ◌≡◌ {A = Result (Unit {0})} (err e) (err raised) =
          rw (failed, fetch_details) at h in
        (k, ground (arith, beq_self k), failed ∙ ap (λ x. err x) (ground (arith, same)))
    | inr (details, given) ↦
        let later = rw (given, fetch_details) at h in
        let (id, inside, failed) = fetch_details-raised ks _ raised later in
        (id, ground (arith, inside), failed)
  ]

  module _ (ids : List ℕ) (s : Collection.Store locations)
      (cache : Option (Redis.Cache redis)) where
    -- The details are those of the ids asked for, unless ESI raised an exception.
    pub resolve_location_system_ids-keys :
        (id : ℕ)
        → IsKeyed locations s
        → (resolve_location_system_ids locations finds sets redis fetch ttl ids s cache).1 ≡ ok tt
        → has id (resolve_location_system_ids locations finds sets redis fetch ttl ids s cache).0
          ≡ contains id ids
    unfolding resolve_location_system_ids cached_details
    resolve_location_system_ids-keys id keyed finished =
        let n =
          stored_details locations finds sets redis fetch ttl ids
            (cached_details locations finds sets redis fetch ttl ids s cache) in
        fetch_details-has (missing_ids ids n.resolved) n id finished
        ∙ all_asked (has id n) (contains id (missing_ids ids n.resolved)) (contains id ids)
            (contains-missing ids n.resolved id)
            (stored_details-has ids _ id keyed (cached_details-has ids s cache id))

    pub resolve_location_system_ids-raised :
        (raised : Exc)
        → (resolve_location_system_ids locations finds sets redis fetch ttl ids s cache).1
          ≡ err raised
        → (id : ℕ) × (contains id ids ≡ true) × (fetch id ≡ err raised)
    unfolding resolve_location_system_ids
    resolve_location_system_ids-raised raised h =
        let n =
          stored_details locations finds sets redis fetch ttl ids
            (cached_details locations finds sets redis fetch ttl ids s cache) in
        let (id, inside, failed) = fetch_details-raised (missing_ids ids n.resolved) n raised h in
        (id, ground (arith, sym (contains-missing ids n.resolved id) ∙ inside), failed)
