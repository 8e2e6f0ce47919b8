-- ===== src/Cache/Documents/Transparent.antt =====
-- The cache does not show in what `cached_docs_by_id` of services/sde.py returns.
use eve_build.Prelude.{
  ℕ, ◌≡◌, ◌⊎◌, refl, sym, ap, ◌∙◌, Bool, true, false, not, ◌&&◌, ◌||◌, Option, none, some, List, [],
  ◌∷◌, map, String, if◌then◌else◌, ◌==◌, any, contains, is_some, nat_eq, string_eq, arith,
  Bool-cases, Option-cases, inl, inr,
}
use eve_build.Prelude.Dict.{Dict, lookup}
use eve_build.Prelude.Text.{cache_key, cache_key-injective}
use eve_build.External.Mongo.{Collection}
use eve_build.External.Find.{IsKeyed, Finds}
use eve_build.External.Redis.{Redis, HasItem}
use eve_build.Cache.{get_many_cached, set_many_cached}
use eve_build.Cache.Documents.{read_cached, add_docs, keyed_docs, missing_ids, cached_docs_by_id}
use eve_build.Cache.Documents.Coherence.{
  set_many-Holds, IsCoherent, AreStored, add_docs-lookup, is_some-add_docs, contains-missing,
  keep_all, found-stored, AreStored-find_in, same_option,
}

pub List-cases : (l : List ℕ) → (l ≡ []) ⊎ ((x : ℕ) × (rest : List ℕ) × (l ≡ x ∷ rest))
List-cases [] = inl refl
List-cases (x ∷ rest) = inr (x, rest, refl)

-- `f` stands for found, `c` for asked, `g` for stored and `m` for missing.
all_found : (f c g : Bool) → false ≡ (c && not f) → (f ≡ true → (c && g) ≡ true) → f ≡ (c && g)
all_found true c g h k = sym (k refl)
all_found false c g h k = ground (arith, h)

some_fetched :
    (a f c g m : Bool)
    → a ≡ (m && g)
    → m ≡ (c && not f)
    → (f ≡ true → (c && g) ≡ true)
    → (a || f) ≡ (c && g)
some_fetched a true c g m e h k = ground (arith, k refl)
some_fetched a false c g m e h k = ground (arith, e, h)

module _ {Doc : Type 0} {id_of : Doc → ℕ} (collection : Collection ℕ Doc id_of)
    (finds : Finds collection) (redis : Redis Doc) (key_prefix : String)
    (s : Collection.Store collection) (ids : List ℕ) (cache : Option (Redis.Cache redis))
    (ttl : ℕ) where
  open collection use {get}

  abbrev pub result : Dict ℕ Doc × Option (Redis.Cache redis)
  result = cached_docs_by_id collection finds redis s key_prefix ttl ids cache

  abbrev cached : Dict ℕ Doc
  cached = read_cached key_prefix (get_many_cached redis cache (map (cache_key key_prefix) ids)) ids

  abbrev fetched : List Doc
  fetched = Finds.find_in finds (missing_ids ids cached) (λ doc. true) s

  fetched-AreStored : IsKeyed collection s → AreStored collection finds redis key_prefix s fetched
  fetched-AreStored keyed =
      AreStored-find_in collection finds redis key_prefix s fetched
        (Finds.find_in-stored finds (missing_ids ids cached) (λ doc. true) s keyed)

  result_cases :
      ((missing_ids ids cached ≡ []) × (result ≡ (cached, cache)))
      ⊎ (result ≡ (
        add_docs id_of fetched cached,
        set_many_cached redis (keyed_docs key_prefix id_of fetched) ttl cache,
      ))
  unfolding cached_docs_by_id
  result_cases = elim (List-cases (missing_ids ids cached)) [
    | inl nothing ↦ inl (nothing, rw (nothing, cached_docs_by_id))
    | inr (x, rest, some_missing) ↦ inr (rw (some_missing, cached_docs_by_id))
  ]

  module _ (keyed : IsKeyed collection s)
      (coherent : IsCoherent collection finds redis key_prefix s cache) where
    cached_sound : (id : ℕ) (doc : Doc) → lookup id cached ≡ some doc → get id s ≡ some doc
    cached_sound id doc h =
        (found-stored collection finds redis key_prefix s cache ids coherent id doc h).0

    result_sound : (id : ℕ) (doc : Doc) → lookup id result.0 ≡ some doc → get id s ≡ some doc
    result_sound id doc h = elim result_cases [
      | inl (nothing, same) ↦ cached_sound id doc (sym (ap (λ r. lookup id r.0) same) ∙ h)
      | inr same ↦
          add_docs-lookup collection finds redis key_prefix s fetched cached
            (fetched-AreStored keyed) cached_sound id doc (sym (ap (λ r. lookup id r.0) same) ∙ h)
    ]

    is_some-cached :
        (id : ℕ)
        → is_some (lookup id cached) ≡ true
        → (contains id ids && is_some (get id s)) ≡ true
    is_some-cached id h = elim (Option-cases (lookup id cached)) [
      | inl absent ↦ absurd (ground (arith, h, absent))
      | inr (doc, found) ↦
          let (stored, inside) =
            found-stored collection finds redis key_prefix s cache ids coherent id doc found in
          rw (stored, inside)
    ]

    is_some-result :
        (id : ℕ) → is_some (lookup id result.0) ≡ (contains id ids && is_some (get id s))
    is_some-result id =
        let missing = contains-missing ids cached id in
        let known = is_some-cached id in
        elim result_cases [
          | inl (nothing, same) ↦
              ap (λ r. is_some (lookup id r.0)) same
              ∙ all_found _ (contains id ids) (is_some (get id s))
                  (sym (ap (λ l. contains id l) nothing) ∙ missing) known
          | inr same ↦
              ap (λ r. is_some (lookup id r.0)) same
              ∙ is_some-add_docs collection finds redis key_prefix fetched cached id
              ∙ some_fetched (any (λ d. id_of d == id) fetched) _ (contains id ids)
                  (is_some (get id s)) _
                  (Finds.any-find_in finds (missing_ids ids cached) (λ doc. true) s id keyed
                    ∙ ap (λ o. contains id (missing_ids ids cached) && is_some o)
                        (keep_all collection finds redis key_prefix (get id s)))
                  missing known
        ]

    -- Where the cache agrees with the collection, the result has each document that is asked for, as the
    -- collection has it, and no other.
    pub cached_docs_by_id-lookup :
        (id : ℕ) → lookup id result.0 ≡ (if contains id ids then get id s else none)
    cached_docs_by_id-lookup id = elim (Bool-cases (contains id ids)) [
      | inl asked ↦ rw asked (
          same_option collection finds redis key_prefix (lookup id result.0) (get id s)
            (result_sound id) (is_some-result id ∙ rw asked))
      | inr other ↦ rw other (
          same_option collection finds redis key_prefix (lookup id result.0) none
            (λ doc h.
              let found : is_some (lookup id result.0) ≡ true = rw h in
              absurd (ground (arith, found, is_some-result id, other)))
            (is_some-result id ∙ rw other))
    ]

    keyed-stored :
        (docs : List Doc)
        → AreStored collection finds redis key_prefix s docs
        → (id : ℕ) (doc : Doc)
        → HasItem (cache_key key_prefix id) doc (keyed_docs key_prefix id_of docs)
        → get id s ≡ some doc
    keyed-stored (d ∷ docs) stored id doc (inl (key, same)) =
        rw (← cache_key-injective key_prefix (id_of d) id key) (stored.0 ∙ ap some same)
    keyed-stored (d ∷ docs) stored id doc (inr later) = keyed-stored docs stored.1 id doc later
    keyed-stored [] stored id doc h = absurd h

    -- The cache agrees with the collection afterwards, too.
    pub cached_docs_by_id-IsCoherent : IsCoherent collection finds redis key_prefix s result.1
    cached_docs_by_id-IsCoherent id doc h = elim result_cases [
      | inl (nothing, same) ↦ coherent id doc (rw (ap (λ r. r.1) same) at h)
      | inr same ↦
          elim (set_many-Holds redis (keyed_docs key_prefix id_of fetched) ttl cache
            (cache_key key_prefix id) doc (rw (ap (λ r. r.1) same) at h)) [
              | inl before ↦ coherent id doc before
              | inr set ↦ keyed-stored fetched (fetched-AreStored keyed) id doc set
            ]
    ]
