-- ===== src/Cache/EntryLists/Branches.antt =====
-- What a read and an invalidation of services/esi_cache.py do, on each branch.
use eve_build.Prelude.{
  ℕ, ◌≡◌, ◌⊎◌, refl, sym, ap, ◌∙◌, Option, none, some, List, [], ◌∷◌, map, String, if◌then◌else◌,
  ◌==◌, nat_eq, string_eq, arith, Bool-cases, Option-cases, inl, inr,
}
use eve_build.Prelude.Dict.{lookup, beq_self}
use eve_build.Prelude.Exc.{Exc, Result, ok, err, Result-cases}
use eve_build.Prelude.Text.{cache_key}
use eve_build.External.Redis.{Redis}
use eve_build.External.Rows.{Rows}
use eve_build.Cache.{get_many_cached, delete_cached}
use eve_build.Cache.Documents.Coherence.{Holds, get_many-Holds}
use eve_build.Cache.EntryLists.{
  load_entries, load_cached, State, replace_rows, store_entries, cached_list, invalidate_list,
}

module _ {Entry Row : Type 0} (asdict : Entry → Row) (entry_type : Row → Option Entry)
    (collection : Rows Row) (redis : Redis (List Row)) (prefix : String) (owner ttl : ℕ) where
  open collection use {Store, rows}

  -- The owner has these rows, and the others have what they had.
  abbrev pub IsReplaced : List Row → Store → Store → Type 0
  IsReplaced l s s' = (k : ℕ) → rows k s' ≡ (if owner == k then l else rows k s)

  replace_rows-IsReplaced :
      (l : List Row) (s : Store)
      → IsReplaced l s (replace_rows asdict entry_type collection redis owner l s)
  replace_rows-IsReplaced [] s k = collection.rows-delete_many owner k s
  replace_rows-IsReplaced (row ∷ l) s k =
      collection.rows-insert_many owner k (row ∷ l) (collection.delete_many owner s)
      ∙ rw (collection.rows-delete_many owner k s)
          (elim (Bool-cases (owner == k)) [ inl mine ↦ rw mine | inr other ↦ rw other ])

  abbrev StateType : Type 0
  StateType = State asdict entry_type collection redis

  -- A hit: the cache holds rows of the right shape.
  abbrev pub IsHit : Result (List Entry) → StateType → StateType × Result (List Entry) → Type 0
  IsHit fetch st (st', result) =
      (held : List Row) × (entries : List Entry) × Holds redis (cache_key prefix owner) held
        st.cache
      × (load_entries entry_type held ≡ some entries)
      × (result ≡ ok entries)
      × (st' ≡ st)

  abbrev pub IsFailure : Result (List Entry) → StateType → StateType × Result (List Entry) → Type 0
  IsFailure fetch st (st', result) = (e : Exc) × (fetch ≡ err e) × (result ≡ err e) × (st' ≡ st)

  abbrev pub IsFetched : Result (List Entry) → StateType → StateType × Result (List Entry) → Type 0
  IsFetched fetch st (st', result) =
      (entries : List Entry) × (fetch ≡ ok entries)
      × (result ≡ ok entries)
      × IsReplaced (map asdict entries) st.stored st'.stored

  loaded_from :
      (found : Option (List Row)) (entries : List Entry)
      → load_cached entry_type found ≡ some entries
      → (held : List Row) × (found ≡ some held) × (load_entries entry_type held ≡ some entries)
  loaded_from none entries h = absurd (ground (arith, h))
  loaded_from (some held) entries h = (held, refl, h)

  -- A read returns cached rows of the right shape and changes nothing; or it raises what the fetch
  -- raises and changes nothing; or it returns what is fetched, which are then the rows of the owner,
  -- and changes the rows of no other.
  pub cached_list_cases :
      (fetch : Result (List Entry)) (st : State asdict entry_type collection redis)
      → let after = cached_list asdict entry_type collection redis prefix owner ttl fetch st in
        IsHit fetch st after ⊎ (IsFailure fetch st after ⊎ IsFetched fetch st after)
  unfolding cached_list
  cached_list_cases fetch st =
      let key = cache_key prefix owner in
      let run = cached_list asdict entry_type collection redis prefix owner ttl fetch st in
      let found = lookup key (get_many_cached redis st.cache (key ∷ [])) in
      elim (Option-cases (load_cached entry_type found)) [
        | inl miss ↦ elim (Result-cases fetch) [
          | inl (e, raised) ↦
              let ran : run ≡ (st, err e) = rw (miss, raised, cached_list) in
              inr (inl (e, raised, ap (λ r. r.1) ran, ap (λ r. r.0) ran))
          | inr (entries, fetched) ↦
              let kept =
                store_entries asdict entry_type collection redis key owner ttl entries st in
              let ran : run ≡ (kept, ok entries) = rw (miss, fetched, cached_list) in
              inr (
                inr (
                  entries,
                  fetched,
                  ap (λ r. r.1) ran,
                  λ k.
                      ap (λ r. rows k r.0.stored) ran
                      ∙ replace_rows-IsReplaced (map asdict entries) st.stored k,
                ))
        ]
        | inr (entries, loaded) ↦
            let (held, there, shaped) = loaded_from found entries loaded in
            let ran : run ≡ (st, ok entries) = rw (loaded, cached_list) in
            inl (
              held,
              entries,
              get_many-Holds redis st.cache (key ∷ []) key held there,
              shaped,
              ap (λ r. r.1) ran,
              ap (λ r. r.0) ran,
            )
      ]

  nothing_held :
      (cache : Option (Redis.Cache redis))
      → ((held : List Row) → Holds redis (cache_key prefix owner) held cache → ⊥)
      → lookup (cache_key prefix owner) (get_many_cached redis cache (cache_key prefix owner ∷ []))
        ≡ none
  nothing_held cache none_held =
      let key = cache_key prefix owner in
      elim (Option-cases (lookup key (get_many_cached redis cache (key ∷ [])))) [
        | inl absent ↦ absent
        | inr (held, there) ↦
            absurd (none_held held (get_many-Holds redis cache (key ∷ []) key held there))
      ]

  deleted-Holds :
      (c : Redis.Cache redis) (held : List Row)
      → (redis.delete (cache_key prefix owner ∷ []) c).1 ≡ ok tt
      → Holds redis
          (cache_key prefix owner)
          held
          (delete_cached redis (cache_key prefix owner ∷ []) (some c))
      → ⊥
  unfolding delete_cached
  deleted-Holds c held done h =
      let key = cache_key prefix owner in
      let gone = redis.delete-gone (key ∷ []) c key done (ground (arith, beq_self key)) in
      ground (arith, sym gone ∙ h)

  -- After an invalidation in which Redis does not fail, a read does not return an old list: it fetches.
  pub cached_list-invalidate_list :
      (s : Store) (c : Redis.Cache redis) (entries : List Entry)
      → (redis.delete (cache_key prefix owner ∷ []) c).1 ≡ ok tt
      → (cached_list asdict entry_type collection redis prefix owner ttl (ok entries) (
          invalidate_list asdict entry_type collection redis prefix owner
            (record { stored = s; cache = some c }))).1
        ≡ ok entries
  unfolding cached_list invalidate_list get_many_cached delete_cached
  cached_list-invalidate_list s c entries done = rw (
      nothing_held (delete_cached redis (cache_key prefix owner ∷ []) (some c))
        (λ held. deleted-Holds c held done))
