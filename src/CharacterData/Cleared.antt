-- ===== src/CharacterData/Cleared.antt =====
-- What `refresh_character_data` and `clear_character_data` of services/character_data.py remove.
use mathlib.Core.Path.{subst}
use eve_build.Prelude.{
  string_eq, false, sym, String, Option-cases, ℕ, ◌≡◌, refl, ap, ◌∙◌, Bool, true, ◌&&◌, Option,
  none, some, List, [], ◌∷◌, if◌then◌else◌, ◌==◌, nat_eq, any, arith, Bool-cases, inl, inr,
}
use eve_build.Prelude.Dict.{lookup, eq_of_beq, beq_self}
use eve_build.Prelude.Exc.{Result, ok, err}
use eve_build.Prelude.Text.{cache_key}
use eve_build.External.Json.{Builtins, Value}
use eve_build.External.Mongo.{Collection, drop_if}
use eve_build.External.Redis.{Redis}
use eve_build.External.Rows.{Rows}
use eve_build.Cache.{get_many_cached, delete_cached}
use eve_build.Cache.Documents.Coherence.{Holds, get_many-Holds}
use eve_build.Cache.EntryLists.{State, cached_list, invalidate_list}
use eve_build.Esi.Entries.{Entry}
use eve_build.Tokens.{CharacterDocument, document_id}
use eve_build.CharacterData.{
  Source, assets, blueprints, industry_jobs, colonies, corp_assets, corp_blueprints,
  corp_industry_jobs, source_eq, personal_sources, cache_key_prefix, cache_ttl_seconds, at_source,
  Data, read_source, invalidate_source, invalidate_sources, clear_character_data,
}

pub source_eq-eq : (a b : Source) → source_eq a b ≡ true → a ≡ b
source_eq-eq assets assets h = refl
source_eq-eq blueprints blueprints h = refl
source_eq-eq industry_jobs industry_jobs h = refl
source_eq-eq colonies colonies h = refl
source_eq-eq corp_assets corp_assets h = refl
source_eq-eq corp_blueprints corp_blueprints h = refl
source_eq-eq corp_industry_jobs corp_industry_jobs h = refl
source_eq-eq a b h = absurd (ground (arith, h))

drop_all : (o : Option CharacterDocument) → drop_if (λ doc. true) o ≡ none
drop_all none = refl
drop_all (some doc) = refl

abbrev pub among : Source → List Source → Bool
among source sources = any (λ s. source_eq s source) sources

cached_list-fetched :
    {Entry Row : Type 0} (asdict : Entry → Row) (entry_type : Row → Option Entry)
    (collection : Rows Row) (redis : Redis (List Row)) (prefix : String) (owner ttl : ℕ)
    (fetch : Result (List Entry)) (st : State asdict entry_type collection redis)
    → lookup (cache_key prefix owner) (get_many_cached redis st.cache (cache_key prefix owner ∷ []))
      ≡ none
    → (cached_list asdict entry_type collection redis prefix owner ttl fetch st).1 ≡ fetch
unfolding cached_list
cached_list-fetched asdict entry_type collection redis prefix owner ttl (err raised) st missing =
    rw (missing, cached_list) refl
cached_list-fetched asdict entry_type collection redis prefix owner ttl (ok entries) st missing =
    rw (missing, cached_list) refl

module _ (python : Builtins) (collection : Rows (Value python))
    (redis : Redis (List (Value python))) where
  open collection use {rows}

  abbrev DataType : Type 0
  DataType = Data python collection redis

  invalidate_source-rows :
      (source kind : Source) (owner k : ℕ) (d : Data python collection redis)
      → rows k ((invalidate_source python collection redis source owner d).stored kind) ≡ (
          if source_eq source kind
          then (if owner == k then [] else rows k (d.stored kind))
          else rows k (d.stored kind))
  unfolding invalidate_source invalidate_list
  invalidate_source-rows source kind owner k d = elim (Bool-cases (source_eq source kind)) [
    | inl here ↦
        let e : source ≡ kind = source_eq-eq source kind here in
        rw here (rw e (collection.rows-delete_many owner k (d.stored kind)))
    | inr other ↦ rw other refl
  ]

  -- What the owner has of the sources goes, and nothing else.
  invalidate_sources-rows :
      (sources : List Source) (kind : Source) (owner k : ℕ) (d : Data python collection redis)
      → rows k ((invalidate_sources python collection redis sources owner d).stored kind)
        ≡ (if among kind sources && owner == k then [] else rows k (d.stored kind))
  unfolding invalidate_sources
  invalidate_sources-rows [] kind owner k d = refl
  invalidate_sources-rows (source ∷ sources) kind owner k d =
      invalidate_sources-rows sources kind owner k
        (invalidate_source python collection redis source owner d)
      ∙ rw (invalidate_source-rows source kind owner k d) (ground arith)

  open redis use {Cache, delete}

  -- Nothing appears in the cache by a deletion.
  delete_cached-Holds :
      (keys : List String) (cache : Option Cache) (key : String) (v : List (Value python))
      → Holds redis key v (delete_cached redis keys cache)
      → Holds redis key v cache
  unfolding delete_cached
  delete_cached-Holds keys none key v h = h
  delete_cached-Holds [] (some c) key v h = h
  delete_cached-Holds (j ∷ keys) (some c) key v h = redis.peek-delete (j ∷ keys) c key v h

  -- `delete` does not raise.
  abbrev pub DeletesAll : Type 0
  DeletesAll = (keys : List String) (c : Cache) → (delete keys c).1 ≡ ok tt

  module _ (reliable : DeletesAll) where
    delete_cached-gone :
        (key : String) (cache : Option Cache) (v : List (Value python))
        → Holds redis key v (delete_cached redis (key ∷ []) cache)
        → ⊥
    unfolding delete_cached
    delete_cached-gone key none v h = h
    delete_cached-gone key (some c) v h =
        let gone =
          redis.delete-gone (key ∷ []) c key (reliable (key ∷ []) c)
            (ground (arith, beq_self key)) in
        ground (arith, sym gone ∙ h)

    -- What the cache still holds of a list it held before, and it is none of those removed.
    invalidate_sources-Holds :
        (sources : List Source) (kind : Source) (owner k : ℕ) (d : Data python collection redis)
        (v : List (Value python))
        → Holds redis
            (cache_key (cache_key_prefix kind) k)
            v
            (invalidate_sources python collection redis sources owner d).cache
        → Holds redis (cache_key (cache_key_prefix kind) k) v d.cache
          × ((among kind sources && owner == k) ≡ false)
    unfolding invalidate_sources invalidate_source invalidate_list
    invalidate_sources-Holds [] kind owner k d v h = (h, refl)
    invalidate_sources-Holds (source ∷ sources) kind owner k d v h =
        let removed = cache_key (cache_key_prefix source) owner in
        let (before, others) =
          invalidate_sources-Holds sources kind owner k
            (invalidate_source python collection redis source owner d) v h in
        (
          delete_cached-Holds (removed ∷ []) d.cache (cache_key (cache_key_prefix kind) k) v before,
          elim (Bool-cases (source_eq source kind)) [
            | inr other ↦ ground (arith, other, others)
            | inl same ↦ elim (Bool-cases (owner == k)) [
              | inr apart ↦ ground (arith, apart)
              | inl own ↦
                  let key : cache_key (cache_key_prefix kind) k ≡ removed =
                    ap (λ x. cache_key (cache_key_prefix x) k) (sym (source_eq-eq source kind same))
                    ∙ ap (λ x. cache_key (cache_key_prefix source) x)
                        (sym (eq_of_beq owner k own)) in
                  absurd (
                    delete_cached-gone removed d.cache v (
                      subst (λ j. Holds redis j v (delete_cached redis (removed ∷ []) d.cache)) key
                        before))
            ]
          ],
        )

  -- A list that the cache does not hold is fetched.
  read_source-fetched :
      (kind : Source) (k : ℕ) (fetch : Result (List (Entry python)))
      (d : Data python collection redis)
      → ((v : List (Value python))
          → Holds redis (cache_key (cache_key_prefix kind) k) v d.cache
          → ⊥)
      → (read_source python collection redis kind k fetch d).1 ≡ fetch
  unfolding read_source
  read_source-fetched kind k fetch d nothing =
      let key = cache_key (cache_key_prefix kind) k in
      cached_list-fetched _ _ collection redis (cache_key_prefix kind) k (cache_ttl_seconds kind)
        fetch (at_source python collection redis kind d)
        (elim (Option-cases (lookup key (get_many_cached redis d.cache (key ∷ [])))) [
          | inr (v, found) ↦
              absurd (nothing v (get_many-Holds redis d.cache (key ∷ []) key v found))
          | inl missing ↦ missing
        ])

  module _ (characters : Collection ℕ CharacterDocument document_id) where
    -- Where Redis deletes without an error: clearing a character removes its rows of the personal
    -- sources and its document. The rows of other owners, the rows of corporations, and the other
    -- documents stay. What the cache holds of any list it held before, and it holds none of the
    -- character's personal lists, so that each is fetched when it is read next.
    pub clear_character_data_lem :
        (character : CharacterDocument) (d : Data python collection redis)
        (s : Collection.Store characters) (kind : Source) (k : ℕ)
        → DeletesAll
        → let after = clear_character_data python collection redis characters character (d, s) in
          let cleared = among kind personal_sources && character.character_id == k in
          (rows k (after.0.stored kind) ≡ (if cleared then [] else rows k (d.stored kind)))
          × (characters.get k after.1
              ≡ (if character.character_id == k then none else characters.get k s))
          × ((v : List (Value python))
              → Holds redis (cache_key (cache_key_prefix kind) k) v after.0.cache
              → Holds redis (cache_key (cache_key_prefix kind) k) v d.cache × (cleared ≡ false))
          × ((fetch : Result (List (Entry python)))
              → cleared ≡ true
              → (read_source python collection redis kind k fetch after.0).1 ≡ fetch)
    unfolding clear_character_data
    clear_character_data_lem character d s kind k reliable =
        let held =
          invalidate_sources-Holds reliable personal_sources kind character.character_id k d in
        (
          invalidate_sources-rows personal_sources kind character.character_id k d,
          characters.get-delete_one character.character_id (λ doc. true) s k
              ∙ ap (λ o. if character.character_id == k then o else characters.get k s)
                  (drop_all (characters.get k s)),
          held,
          λ fetch cleared.
              read_source-fetched kind k fetch _ (λ v h. ground (arith, cleared, (held v h).1)),
        )
