-- ===== src/Locations/Names/Absent.antt =====
-- A name that services/locations.py does not give is one that ESI did not give just then.
use eve_build.Prelude.{
  ℕ, ◌≡◌, sym, ◌∙◌, true, Option, none, some, List, [], ◌∷◌, map, String, ◌==◌, nat_eq, string_eq,
  arith, Bool-cases, Option-cases, inl, inr,
}
use eve_build.Prelude.Dict.{Dict, lookup, insert, lookup-insert, eq_of_beq}
use eve_build.Prelude.Text.{cache_key}
use eve_build.External.Mongo.{Collection}
use eve_build.External.Find.{Finds}
use eve_build.External.Upsert.{Sets}
use eve_build.External.Redis.{Redis}
use eve_build.Cache.{get_many_cached}
use eve_build.Cache.Documents.{read_cached, missing_ids}
use eve_build.Cache.Documents.Transparent.{List-cases}
use eve_build.Locations.Names.{
  Entry, entry_id, some_values, add_entries, Names, resolve_cached, resolve_stored, fetch_one,
  fetch_each, resolve_names,
}

module _ {V : Type 0} (fetch : ℕ → Option V) where
  -- What has no name has none from ESI.
  abbrev pub AreFailed : Dict ℕ (Option V) → Type 0
  AreFailed d = (id : ℕ) → lookup id d ≡ some none → fetch id ≡ none

  some_values-AreFailed : (d : Dict ℕ V) → AreFailed (some_values d)
  some_values-AreFailed [] id h = absurd (ground (arith, h))
  some_values-AreFailed ((i, w) ∷ d) id h = elim (Bool-cases (i == id)) [
    | inl same ↦
        let here : some (some w) ≡ some none = rw same at h in absurd (ground (arith, here))
    | inr other ↦ some_values-AreFailed d id (rw other at h)
  ]

  insert-AreFailed :
      (id : ℕ) (o : Option V) (d : Dict ℕ (Option V))
      → (o ≡ none → fetch id ≡ none)
      → AreFailed d
      → AreFailed (insert id o d)
  insert-AreFailed id o d new h j e = elim (Bool-cases (id == j)) [
    | inl same ↦
        let value : some o ≡ some none = sym (lookup-insert id j o d ∙ rw same) ∙ e in
        rw (← eq_of_beq id j same) (new (ground (arith, value)))
    | inr other ↦ h j (sym (lookup-insert id j o d ∙ rw other) ∙ e)
  ]

  add_entries-AreFailed :
      (docs : List (Entry V)) (d : Dict ℕ (Option V)) → AreFailed d → AreFailed (add_entries docs d)
  add_entries-AreFailed [] d h = h
  add_entries-AreFailed (doc ∷ docs) d h =
      add_entries-AreFailed docs (insert doc.id (some doc.value) d)
        (insert-AreFailed doc.id (some doc.value) d (λ e. absurd (ground (arith, e))) h)

module _ {V : Type 0} (names : Collection ℕ (Entry V) entry_id) (finds : Finds names)
    (sets : Sets names) (redis : Redis V) (fetch : ℕ → Option V) (prefix : String) (ttl : ℕ) where
  resolve_stored-AreFailed :
      (ids : List ℕ) (n : Names names finds sets redis fetch prefix ttl)
      → AreFailed fetch n.resolved
      → AreFailed fetch (resolve_stored names finds sets redis fetch prefix ttl ids n).resolved
  unfolding resolve_stored
  resolve_stored-AreFailed ids n h = elim (List-cases (missing_ids ids n.resolved)) [
    | inl nothing ↦ rw (nothing, resolve_stored) h
    | inr (id, rest, missing) ↦
        rw (missing, resolve_stored)
          (add_entries-AreFailed fetch (Finds.find_in finds (id ∷ rest) (λ doc. true) n.stored)
            n.resolved h)
  ]

  fetch_one-AreFailed :
      (id : ℕ) (n : Names names finds sets redis fetch prefix ttl)
      → AreFailed fetch n.resolved
      → AreFailed fetch (fetch_one names finds sets redis fetch prefix ttl id n).resolved
  unfolding fetch_one
  fetch_one-AreFailed id n h = elim (Option-cases (fetch id)) [
    | inl failed ↦
        rw (failed, fetch_one) (insert-AreFailed fetch id none n.resolved (λ e. failed) h)
    | inr (value, given) ↦
        rw (given, fetch_one)
          (insert-AreFailed fetch id (some value) n.resolved (λ e. absurd (ground (arith, e))) h)
  ]

  fetch_each-AreFailed :
      (ids : List ℕ) (n : Names names finds sets redis fetch prefix ttl)
      → AreFailed fetch n.resolved
      → AreFailed fetch (fetch_each names finds sets redis fetch prefix ttl ids n).resolved
  unfolding fetch_each
  fetch_each-AreFailed [] n h = h
  fetch_each-AreFailed (id ∷ ids) n h = fetch_each-AreFailed ids _ (fetch_one-AreFailed id n h)

  pub resolve_names-AreFailed :
      (ids : List ℕ) (s : Collection.Store names) (cache : Option (Redis.Cache redis))
      → AreFailed fetch (resolve_names names finds sets redis fetch prefix ttl ids s cache).resolved
  unfolding resolve_names resolve_cached
  resolve_names-AreFailed ids s cache = fetch_each-AreFailed _ _ (
      resolve_stored-AreFailed ids
        (resolve_cached names finds sets redis fetch prefix ttl ids s cache)
        (some_values-AreFailed fetch
          (read_cached prefix (get_many_cached redis cache (map (cache_key prefix) ids)) ids)))
