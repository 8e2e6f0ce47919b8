-- ===== src/Locations/Names/Keys.antt =====
-- Every id that is asked for gets an answer from services/locations.py, and no other id does.
use eve_build.Prelude.{
  ℕ, ◌≡◌, refl, sym, ap, ◌∙◌, Bool, true, false, not, ◌&&◌, ◌||◌, Option, none, some, List, [], ◌∷◌,
  map, String, ◌==◌, any, contains, is_some, nat_eq, string_eq, arith, Option-cases, inl, inr,
}
use eve_build.Prelude.Dict.{Dict, lookup, insert, lookup-insert}
use eve_build.Prelude.Text.{cache_key}
use eve_build.External.Mongo.{Collection}
use eve_build.External.Find.{IsKeyed, Finds}
use eve_build.External.Upsert.{Sets}
use eve_build.External.Redis.{Redis}
use eve_build.Cache.{get_many_cached}
use eve_build.Cache.Documents.{read_cached, missing_ids}
use eve_build.Cache.Documents.Transparent.{List-cases}
use eve_build.Cache.Documents.Coherence.{read_cached-lookup, contains-missing}
use eve_build.Locations.Names.{
  Entry, entry_id, some_values, add_entries, Names, resolve_cached, resolve_stored, fetch_one,
  fetch_each, resolve_names,
}

-- `h` stands for had before, `a` for found now, `m` for missing, `p` for stored, `c` for asked.
pub asked_of :
    (h a m p c : Bool)
    → (a || h) ≡ true
    → a ≡ (m && p)
    → m ≡ (c && not h)
    → (h ≡ true → c ≡ true)
    → c ≡ true
asked_of true a m p c e f g k = k refl
asked_of false a m p c e f g k = ground (arith, e, f, g)

pub all_asked : (h m c : Bool) → m ≡ (c && not h) → (h ≡ true → c ≡ true) → (m || h) ≡ c
all_asked true m c e k = ground (arith, k refl)
all_asked false m c e k = ground (arith, e)

module _ {V : Type 0} where
  is_some-some_values :
      (d : Dict ℕ V) (id : ℕ) → is_some (lookup id (some_values d)) ≡ is_some (lookup id d)
  is_some-some_values [] id = refl
  is_some-some_values ((i, w) ∷ d) id = ground (arith, is_some-some_values d id)

  is_some-add_entries :
      (docs : List (Entry V)) (d : Dict ℕ (Option V)) (id : ℕ)
      → is_some (lookup id (add_entries docs d))
        ≡ (any (λ doc. doc.id == id) docs || is_some (lookup id d))
  is_some-add_entries [] d id = refl
  is_some-add_entries (doc ∷ docs) d id =
      is_some-add_entries docs (insert doc.id (some doc.value) d) id
      ∙ ground (arith, lookup-insert doc.id id (some doc.value) d)

module _ {V : Type 0} (names : Collection ℕ (Entry V) entry_id) (finds : Finds names)
    (sets : Sets names) (redis : Redis V) (fetch : ℕ → Option V) (prefix : String) (ttl : ℕ) where
  abbrev has : ℕ → Names names finds sets redis fetch prefix ttl → Bool
  has id n = is_some (lookup id n.resolved)

  resolve_cached-has :
      (ids : List ℕ) (s : Collection.Store names) (cache : Option (Redis.Cache redis)) (id : ℕ)
      → has id (resolve_cached names finds sets redis fetch prefix ttl ids s cache) ≡ true
      → contains id ids ≡ true
  unfolding resolve_cached
  resolve_cached-has ids s cache id h =
      let cached = get_many_cached redis cache (map (cache_key prefix) ids) in
      let found = sym (is_some-some_values (read_cached prefix cached ids) id) ∙ h in
      elim (Option-cases (lookup id (read_cached prefix cached ids))) [
        | inl absent ↦ absurd (ground (arith, absent, found))
        | inr (v, there) ↦ (read_cached-lookup prefix cached ids id v there).1
      ]

  resolve_cached-IsKeyed :
      (ids : List ℕ) (s : Collection.Store names) (cache : Option (Redis.Cache redis))
      → IsKeyed names s
      → IsKeyed names (resolve_cached names finds sets redis fetch prefix ttl ids s cache).stored
  unfolding resolve_cached
  resolve_cached-IsKeyed ids s cache keyed = keyed

  resolve_stored-has :
      (ids : List ℕ) (n : Names names finds sets redis fetch prefix ttl) (id : ℕ)
      → IsKeyed names n.stored
      → (has id n ≡ true → contains id ids ≡ true)
      → has id (resolve_stored names finds sets redis fetch prefix ttl ids n) ≡ true
      → contains id ids ≡ true
  unfolding resolve_stored
  resolve_stored-has ids n id keyed asked h = elim (List-cases (missing_ids ids n.resolved)) [
    | inl nothing ↦ asked (rw (nothing, resolve_stored) at h)
    | inr (k, rest, missing) ↦
        let docs = Finds.find_in finds (k ∷ rest) (λ doc. true) n.stored in
        let here : is_some (lookup id (add_entries docs n.resolved)) ≡ true =
          rw (missing, resolve_stored) at h in
        let split = sym (is_some-add_entries docs n.resolved id) ∙ here in
        let fetched = Finds.any-find_in finds (k ∷ rest) (λ doc. true) n.stored id keyed in
        let lacking = sym (ap (λ l. contains id l) missing) ∙ contains-missing ids n.resolved id in
        asked_of (has id n) _ (contains id (k ∷ rest)) _ (contains id ids) split fetched lacking
          asked
  ]

  fetch_one-has :
      (k : ℕ) (n : Names names finds sets redis fetch prefix ttl) (id : ℕ)
      → has id (fetch_one names finds sets redis fetch prefix ttl k n) ≡ (k == id || has id n)
  unfolding fetch_one
  fetch_one-has k n id = elim (Option-cases (fetch k)) [
    | inl failed ↦ rw (failed, fetch_one) (ground (arith, lookup-insert k id none n.resolved))
    | inr (w, given) ↦
        rw (given, fetch_one) (ground (arith, lookup-insert k id (some w) n.resolved))
  ]

  fetch_each-has :
      (ks : List ℕ) (n : Names names finds sets redis fetch prefix ttl) (id : ℕ)
      → has id (fetch_each names finds sets redis fetch prefix ttl ks n)
        ≡ (contains id ks || has id n)
  unfolding fetch_each
  fetch_each-has [] n id = refl
  fetch_each-has (k ∷ ks) n id = fetch_each-has ks _ id ∙ ground (arith, fetch_one-has k n id)

  -- The result has an entry for each id that is asked for, and for no other.
  pub resolve_names-keys :
      (ids : List ℕ) (s : Collection.Store names) (cache : Option (Redis.Cache redis)) (id : ℕ)
      → IsKeyed names s
      → is_some
          (lookup id (resolve_names names finds sets redis fetch prefix ttl ids s cache).resolved)
        ≡ contains id ids
  unfolding resolve_names
  resolve_names-keys ids s cache id keyed =
      let n =
        resolve_stored names finds sets redis fetch prefix ttl ids
          (resolve_cached names finds sets redis fetch prefix ttl ids s cache) in
      fetch_each-has (missing_ids ids n.resolved) n id
      ∙ all_asked (has id n) (contains id (missing_ids ids n.resolved)) (contains id ids)
          (contains-missing ids n.resolved id)
          (resolve_stored-has ids _ id (resolve_cached-IsKeyed ids s cache keyed)
            (resolve_cached-has ids s cache id))
