-- ===== src/Locations/Names/Truth.antt =====
-- Names read through the cache and MongoDB are those that ESI gives, since they never change.
use eve_build.Prelude.{
  ℕ, ◌≡◌, refl, sym, ap, ◌∙◌, true, Option, none, some, List, [], ◌∷◌, map, String, ◌==◌, All,
  nat_eq, string_eq, arith, Bool-cases, Option-cases, inl, inr,
}
use eve_build.Prelude.Dict.{Dict, lookup, insert, lookup-insert, eq_of_beq}
use eve_build.Prelude.Text.{cache_key, cache_key-injective}
use eve_build.External.Mongo.{Collection, keep}
use eve_build.External.Find.{Finds}
use eve_build.External.Upsert.{Sets}
use eve_build.External.Redis.{Redis, HasItem}
use eve_build.Cache.{get_many_cached}
use eve_build.Cache.Documents.{read_cached, missing_ids}
use eve_build.Cache.Documents.Transparent.{List-cases}
use eve_build.Cache.Documents.Coherence.{Holds, get_many-Holds, set_many-Holds, read_cached-lookup}
use eve_build.Locations.Names.{
  Entry, entry_id, some_values, add_entries, keyed_entries, Names, resolve_cached, resolve_stored,
  fetch_one, fetch_each, resolve_names,
}

module _ {V : Type 0} (truth : ℕ → V) where
  -- Every name that is given is the true one.
  abbrev pub AreTrue : Dict ℕ (Option V) → Type 0
  AreTrue d = (id : ℕ) (v : V) → lookup id d ≡ some (some v) → v ≡ truth id

  lookup-some_values :
      (d : Dict ℕ V) (id : ℕ) (o : Option V)
      → lookup id (some_values d) ≡ some o
      → (v : V) × (lookup id d ≡ some v) × (o ≡ some v)
  lookup-some_values [] id o h = absurd (ground (arith, h))
  lookup-some_values ((i, w) ∷ d) id o h = elim (Bool-cases (i == id)) [
    | inl same ↦
        let here : some (some w) ≡ some o = rw same at h in rw same (w, refl, ground (arith, here))
    | inr other ↦ rw other (lookup-some_values d id o (rw other at h))
  ]

  insert-AreTrue :
      (id : ℕ) (o : Option V) (d : Dict ℕ (Option V))
      → ((v : V) → o ≡ some v → v ≡ truth id)
      → AreTrue d
      → AreTrue (insert id o d)
  insert-AreTrue id o d new h j v e = elim (Bool-cases (id == j)) [
    | inl same ↦
        let value : some o ≡ some (some v) = sym (lookup-insert id j o d ∙ rw same) ∙ e in
        rw (← eq_of_beq id j same) (new v (ground (arith, value)))
    | inr other ↦ h j v (sym (lookup-insert id j o d ∙ rw other) ∙ e)
  ]

  add_entries-AreTrue :
      (docs : List (Entry V)) (d : Dict ℕ (Option V))
      → All (λ (doc : Entry V). doc.value ≡ truth doc.id) docs
      → AreTrue d
      → AreTrue (add_entries docs d)
  add_entries-AreTrue [] d all h = h
  add_entries-AreTrue (doc ∷ docs) d all h =
      add_entries-AreTrue docs (insert doc.id (some doc.value) d) all.1 (
        insert-AreTrue doc.id (some doc.value) d
          (λ v e. let value : doc.value ≡ v = ground (arith, e) in sym value ∙ all.0) h)

  keyed_entries-true :
      (prefix : String) (docs : List (Entry V)) (id : ℕ) (v : V)
      → All (λ (doc : Entry V). doc.value ≡ truth doc.id) docs
      → HasItem (cache_key prefix id) v (keyed_entries prefix docs)
      → v ≡ truth id
  keyed_entries-true prefix [] id v all h = absurd h
  keyed_entries-true prefix (doc ∷ docs) id v all (inl (key, value)) =
      sym value ∙ all.0 ∙ ap truth (cache_key-injective prefix doc.id id key)
  keyed_entries-true prefix (doc ∷ docs) id v all (inr later) =
      keyed_entries-true prefix docs id v all.1 later

module _ {V : Type 0} (names : Collection ℕ (Entry V) entry_id) (finds : Finds names)
    (sets : Sets names) (redis : Redis V) (fetch : ℕ → Option V) (prefix : String) (ttl : ℕ)
    (truth : ℕ → V) (honest : (id : ℕ) (v : V) → fetch id ≡ some v → v ≡ truth id) where
  open names use {Store, get}

  -- All that is resolved, stored and cached is true.
  abbrev pub IsTrue : Names names finds sets redis fetch prefix ttl → Type 0
  IsTrue n =
      AreTrue truth n.resolved
      × (((id : ℕ) (entry : Entry V)
            → get id n.stored ≡ some entry
            → (entry.id ≡ id) × (entry.value ≡ truth id))
          × ((id : ℕ) (v : V) → Holds redis (cache_key prefix id) v n.cache → v ≡ truth id))

  resolve_cached-IsTrue :
      (ids : List ℕ) (s : Store) (cache : Option (Redis.Cache redis))
      → ((id : ℕ) (entry : Entry V)
          → get id s ≡ some entry
          → (entry.id ≡ id) × (entry.value ≡ truth id))
      → ((id : ℕ) (v : V) → Holds redis (cache_key prefix id) v cache → v ≡ truth id)
      → IsTrue (resolve_cached names finds sets redis fetch prefix ttl ids s cache)
  unfolding resolve_cached
  resolve_cached-IsTrue ids s cache stored cached = (
    (λ id v h.
        let keys = map (cache_key prefix) ids in
        let (w, found, same) =
          lookup-some_values truth (read_cached prefix (get_many_cached redis cache keys) ids) id
            (some v) h in
        let held = read_cached-lookup prefix (get_many_cached redis cache keys) ids id w found in
        let value : v ≡ w = ground (arith, same) in
        value ∙ cached id w (get_many-Holds redis cache keys (cache_key prefix id) w held.0)),
    (stored, cached),
  )

  find_in-true :
      (docs : List (Entry V)) (s : Store)
      → ((id : ℕ) (entry : Entry V)
          → get id s ≡ some entry
          → (entry.id ≡ id) × (entry.value ≡ truth id))
      → All (λ (d : Entry V). keep (λ doc. true) (get d.id s) ≡ some d) docs
      → All (λ (d : Entry V). d.value ≡ truth d.id) docs
  find_in-true [] s stored all = tt
  find_in-true (d ∷ docs) s stored all =
      ((stored d.id d (keep_stored (get d.id s) d all.0)).1, find_in-true docs s stored all.1)
    where
      keep_stored :
          (o : Option (Entry V)) (d : Entry V) → keep (λ doc. true) o ≡ some d → o ≡ some d
      keep_stored none d h = h
      keep_stored (some x) d h = h

  resolve_stored-IsTrue :
      (ids : List ℕ) (n : Names names finds sets redis fetch prefix ttl)
      → IsTrue n
      → IsTrue (resolve_stored names finds sets redis fetch prefix ttl ids n)
  unfolding resolve_stored
  resolve_stored-IsTrue ids n h = elim (List-cases (missing_ids ids n.resolved)) [
    | inl nothing ↦ rw (nothing, resolve_stored) h
    | inr (id, rest, missing) ↦
        let docs = Finds.find_in finds (id ∷ rest) (λ doc. true) n.stored in
        let all = find_in-true docs n.stored h.1.0 (
          Finds.find_in-stored finds (id ∷ rest) (λ doc. true) n.stored
            (λ k d e. (h.1.0 k d e).0)) in
        rw (missing, resolve_stored)
          (
            add_entries-AreTrue truth docs n.resolved all h.0,
            (
              h.1.0,
              λ k v held.
                  elim (set_many-Holds redis (keyed_entries prefix docs) ttl n.cache
                    (cache_key prefix k) v held) [
                      | inl before ↦ h.1.1 k v before
                      | inr set ↦ keyed_entries-true truth prefix docs k v all set
                    ],
            ),
          )
  ]

  set_one-true :
      (id : ℕ) (w : V) (s : Store)
      → w ≡ truth id
      → ((k : ℕ) (entry : Entry V)
          → get k s ≡ some entry
          → (entry.id ≡ k) × (entry.value ≡ truth k))
      → (k : ℕ) (entry : Entry V)
      → get k (Sets.set_one sets (record { id = id; value = w }) s) ≡ some entry
      → (entry.id ≡ k) × (entry.value ≡ truth k)
  set_one-true id w s true_name stored k entry e =
      let new : Entry V = record { id = id; value = w } in
      let at = Sets.get-set_one sets new s k in
      elim (Bool-cases (id == k)) [
        | inl same ↦
            let whole : some new ≡ some entry = sym (at ∙ rw same) ∙ e in
            let value : new ≡ entry = ground (arith, whole) in
            let key = eq_of_beq id k same in
            (
              sym (ap (λ d. d.id) value) ∙ key,
              sym (ap (λ d. d.value) value) ∙ true_name ∙ ap truth key,
            )
        | inr other ↦ stored k entry (sym (at ∙ rw other) ∙ e)
      ]

  fetch_one-IsTrue :
      (id : ℕ) (n : Names names finds sets redis fetch prefix ttl)
      → IsTrue n
      → IsTrue (fetch_one names finds sets redis fetch prefix ttl id n)
  unfolding fetch_one
  fetch_one-IsTrue id n h = elim (Option-cases (fetch id)) [
    | inl failed ↦
        rw (failed, fetch_one)
          (insert-AreTrue truth id none n.resolved (λ v e. absurd (ground (arith, e))) h.0, h.1)
    | inr (w, given) ↦
        let true_name = honest id w given in
        rw (given, fetch_one)
          (
            insert-AreTrue truth id (some w) n.resolved
                (λ v e. let value : w ≡ v = ground (arith, e) in sym value ∙ true_name) h.0,
            (
              set_one-true id w n.stored true_name h.1.0,
              λ k v held.
                  elim (set_many-Holds redis ((cache_key prefix id, w) ∷ []) ttl n.cache
                    (cache_key prefix k) v held) [
                      | inl before ↦ h.1.1 k v before
                      | inr set ↦
                          keyed_entries-true truth prefix (record { id = id; value = w } ∷ []) k v
                            (true_name, tt) set
                    ],
            ),
          )
  ]

  fetch_each-IsTrue :
      (ids : List ℕ) (n : Names names finds sets redis fetch prefix ttl)
      → IsTrue n
      → IsTrue (fetch_each names finds sets redis fetch prefix ttl ids n)
  unfolding fetch_each
  fetch_each-IsTrue [] n h = h
  fetch_each-IsTrue (id ∷ ids) n h = fetch_each-IsTrue ids _ (fetch_one-IsTrue id n h)

  -- If ESI gives no name but the true one, and MongoDB and the cache hold no other, then this is so of the
  -- result, of MongoDB and of the cache afterwards.
  pub resolve_names-IsTrue :
      (ids : List ℕ) (s : Store) (cache : Option (Redis.Cache redis))
      → ((id : ℕ) (entry : Entry V)
          → get id s ≡ some entry
          → (entry.id ≡ id) × (entry.value ≡ truth id))
      → ((id : ℕ) (v : V) → Holds redis (cache_key prefix id) v cache → v ≡ truth id)
      → IsTrue (resolve_names names finds sets redis fetch prefix ttl ids s cache)
  unfolding resolve_names
  resolve_names-IsTrue ids s cache stored cached =
      fetch_each-IsTrue _ _
        (resolve_stored-IsTrue ids _ (resolve_cached-IsTrue ids s cache stored cached))
