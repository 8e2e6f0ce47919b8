-- ===== src/Cache/Documents/Coherence.antt =====
-- What `cached_docs_by_id` of services/sde.py returns, where the cache holds nothing but what the
-- collection does.
use eve_build.Prelude.{
  ℕ, ◌≡◌, ◌⊎◌, refl, sym, ap, ◌∙◌, true, false, not, ◌&&◌, ◌||◌, Option, none, some, List, [], ◌∷◌,
  map, String, ◌==◌, any, contains, is_some, All, nat_eq, string_eq, arith, Bool-cases,
  Option-cases, inl, inr,
}
use eve_build.Prelude.Dict.{Dict, lookup, insert, lookup-insert, eq_of_beq}
use eve_build.Prelude.Exc.{Result-cases}
use eve_build.Prelude.Text.{cache_key}
use eve_build.External.Mongo.{Collection, keep}
use eve_build.External.Find.{Finds}
use eve_build.External.Redis.{Redis, HasItem}
use eve_build.Cache.{present, get_many_cached, set_many_cached}
use eve_build.Cache.Documents.{read_cached, add_docs, missing_ids}

module _ {V : Type 0} (redis : Redis V) where
  open redis use {Cache, peek}

  -- A key of the cache holds the value.
  abbrev pub Holds : String → V → Option Cache → Type 0
  Holds key v none = ⊥
  Holds key v (some c) = peek key c ≡ some v

  insert-Holds :
      (c : Cache) (k : String) (w : V) (found : Dict String V) (key : String)
      → peek k c ≡ some w
      → ((x : V) → lookup key found ≡ some x → peek key c ≡ some x)
      → (x : V) → lookup key (insert k w found) ≡ some x
      → peek key c ≡ some x
  insert-Holds c k w found key held before x e = elim (Bool-cases (k == key)) [
    | inl same ↦
        let value : some w ≡ some x = sym (lookup-insert k key w found ∙ rw same) ∙ e in
        rw (← eq_of_beq k key same) (held ∙ value)
    | inr other ↦
        let old : lookup key found ≡ some x = sym (lookup-insert k key w found ∙ rw other) ∙ e in
        before x old
  ]

  present-Holds :
      (c : Cache) (keys : List String) (found : Dict String V) (key : String) (v : V)
      → ((w : V) → lookup key found ≡ some w → peek key c ≡ some w)
      → lookup key (present keys (map (λ k. peek k c) keys) found) ≡ some v
      → peek key c ≡ some v
  present-Holds c [] found key v before h = before v h
  present-Holds c (k ∷ keys) found key v before h =
      let values = map (λ j. peek j c) keys in
      elim (Option-cases (peek k c)) [
        | inl absent ↦
            let next : present (k ∷ keys) (map (λ j. peek j c) (k ∷ keys)) found
                ≡ present keys values found =
              rw (absent, present) in
            present-Holds c keys found key v before (sym (ap (λ d. lookup key d) next) ∙ h)
        | inr (w, held) ↦
            let next : present (k ∷ keys) (map (λ j. peek j c) (k ∷ keys)) found
                ≡ present keys values (insert k w found) =
              rw (held, present) in
            present-Holds c keys (insert k w found) key v (insert-Holds c k w found key held before)
              (sym (ap (λ d. lookup key d) next) ∙ h)
      ]

  pub get_many-Holds :
      (cache : Option Cache) (keys : List String) (key : String) (v : V)
      → lookup key (get_many_cached redis cache keys) ≡ some v
      → Holds key v cache
  unfolding get_many_cached
  get_many-Holds none keys key v h = ground (arith, h)
  get_many-Holds (some c) [] key v h = absurd (ground (arith, h))
  get_many-Holds (some c) (k ∷ keys) key v h = elim (Result-cases (redis.mget (k ∷ keys) c)) [
    | inl (e, raised) ↦
        let nothing : get_many_cached redis (some c) (k ∷ keys) ≡ [] =
          rw (raised, get_many_cached) in
        let missing : none ≡ some v = sym (ap (λ d. lookup key d) nothing) ∙ h in
        absurd (ground (arith, missing))
    | inr (values, read) ↦
        let all : get_many_cached redis (some c) (k ∷ keys)
            ≡ present (k ∷ keys) (map (λ j. peek j c) (k ∷ keys)) [] =
          rw (read, get_many_cached)
            (ap (λ l. present (k ∷ keys) l []) (redis.mget-peek (k ∷ keys) c values read)) in
        present-Holds c (k ∷ keys) [] key v (λ w e. absurd (ground (arith, e)))
          (sym (ap (λ d. lookup key d) all) ∙ h)
  ]

  pub set_many-Holds :
      (items : Dict String V) (ttl : ℕ) (cache : Option Cache) (key : String) (v : V)
      → Holds key v (set_many_cached redis items ttl cache)
      → Holds key v cache ⊎ HasItem key v items
  unfolding set_many_cached
  set_many-Holds items ttl none key v h = absurd h
  set_many-Holds [] ttl (some c) key v h = inl h
  set_many-Holds (item ∷ items) ttl (some c) key v h =
      redis.peek-execute (item ∷ items) ttl c key v h

module _ {V : Type 0} (key_prefix : String) where
  pub read_cached-lookup :
      (cached : Dict String V) (ids : List ℕ) (id : ℕ) (doc : V)
      → lookup id (read_cached key_prefix cached ids) ≡ some doc
      → (lookup (cache_key key_prefix id) cached ≡ some doc) × (contains id ids ≡ true)
  read_cached-lookup cached [] id doc h = absurd (ground (arith, h))
  read_cached-lookup cached (i ∷ ids) id doc h =
      elim (Option-cases (lookup (cache_key key_prefix i) cached)) [
        | inl absent ↦
            let next : read_cached key_prefix cached (i ∷ ids) ≡ read_cached key_prefix cached ids =
              rw (absent, read_cached) in
            let (found, inside) =
              read_cached-lookup cached ids id doc (sym (ap (λ d. lookup id d) next) ∙ h) in
            (found, ground (arith, inside))
        | inr (d, held) ↦
            let next : read_cached key_prefix cached (i ∷ ids)
                ≡ (i, d) ∷ read_cached key_prefix cached ids =
              rw (held, read_cached) in
            let here = sym (ap (λ d. lookup id d) next) ∙ h in
            elim (Bool-cases (i == id)) [
              | inl same ↦
                  let value : some d ≡ some doc = ground (arith, same, here) in
                  (rw (← eq_of_beq i id same) (held ∙ value), ground (arith, same))
              | inr other ↦
                  let rest : lookup id (read_cached key_prefix cached ids) ≡ some doc =
                    ground (arith, other, here) in
                  let (found, inside) = read_cached-lookup cached ids id doc rest in
                  (found, ground (arith, inside))
            ]
      ]

module _ {V : Type 0} where
  pub contains-missing :
      (ids : List ℕ) (found : Dict ℕ V) (id : ℕ)
      → contains id (missing_ids ids found) ≡ (contains id ids && not (is_some (lookup id found)))
  contains-missing [] found id = refl
  contains-missing (i ∷ ids) found id = elim (Bool-cases (is_some (lookup i found))) [
    | inl known ↦ rw known (
        contains-missing ids found id ∙ elim (Bool-cases (i == id)) [
          | inl same ↦
              let here : is_some (lookup id found) ≡ true = rw (← eq_of_beq i id same) known in
              rw here (ground arith)
          | inr other ↦ ground (arith, other)
        ])
    | inr new ↦ rw new (
        rw (contains-missing ids found id) (elim (Bool-cases (i == id)) [
          | inl same ↦
              let here : is_some (lookup id found) ≡ false = rw (← eq_of_beq i id same) new in
              ground (arith, here, same)
          | inr other ↦ ground (arith, other)
        ]))
  ]

module _ {Doc : Type 0} {id_of : Doc → ℕ} (collection : Collection ℕ Doc id_of)
    (finds : Finds collection) (redis : Redis Doc) (key_prefix : String) where
  open collection use {Store, get}

  -- Each cached document is the one of the collection.
  abbrev pub IsCoherent : Store → Option (Redis.Cache redis) → Type 0
  IsCoherent s cache =
      (id : ℕ) (doc : Doc) → Holds redis (cache_key key_prefix id) doc cache → get id s ≡ some doc

  -- The documents of a list are those that the collection has.
  abbrev pub AreStored : Store → List Doc → Type 0
  AreStored s = All (λ (doc : Doc). get (id_of doc) s ≡ some doc)

  pub add_docs-lookup :
      (s : Store) (docs : List Doc) (found : Dict ℕ Doc)
      → AreStored s docs
      → ((id : ℕ) (doc : Doc) → lookup id found ≡ some doc → get id s ≡ some doc)
      → (id : ℕ) (doc : Doc) → lookup id (add_docs id_of docs found) ≡ some doc
      → get id s ≡ some doc
  add_docs-lookup s [] found stored before id doc h = before id doc h
  add_docs-lookup s (d ∷ docs) found stored before id doc h =
      add_docs-lookup s docs (insert (id_of d) d found) stored.1
        (λ i x e. elim (Bool-cases (id_of d == i)) [
          | inl same ↦
              let value : some d ≡ some x = sym (lookup-insert (id_of d) i d found ∙ rw same) ∙ e in
              rw (← eq_of_beq (id_of d) i same) (stored.0 ∙ value)
          | inr other ↦
              let old : lookup i found ≡ some x =
                sym (lookup-insert (id_of d) i d found ∙ rw other) ∙ e in
              before i x old
        ])
        id doc h

  pub is_some-add_docs :
      (docs : List Doc) (found : Dict ℕ Doc) (id : ℕ)
      → is_some (lookup id (add_docs id_of docs found))
        ≡ (any (λ d. id_of d == id) docs || is_some (lookup id found))
  is_some-add_docs [] found id = refl
  is_some-add_docs (d ∷ docs) found id =
      is_some-add_docs docs (insert (id_of d) d found) id
      ∙ ground (arith, lookup-insert (id_of d) id d found)

  pub keep_all : (found : Option Doc) → keep (λ doc. true) found ≡ found
  keep_all none = refl
  keep_all (some d) = refl

  -- The cached part of the result is in the collection.
  pub found-stored :
      (s : Store) (cache : Option (Redis.Cache redis)) (ids : List ℕ)
      → IsCoherent s cache
      → let cached = get_many_cached redis cache (map (cache_key key_prefix) ids) in
        (id : ℕ) (doc : Doc)
        → lookup id (read_cached key_prefix cached ids) ≡ some doc
        → (get id s ≡ some doc) × (contains id ids ≡ true)
  found-stored s cache ids coherent id doc h =
      let cached = get_many_cached redis cache (map (cache_key key_prefix) ids) in
      let (there, inside) = read_cached-lookup key_prefix cached ids id doc h in
      (
        coherent id doc (
            get_many-Holds redis cache (map (cache_key key_prefix) ids) (cache_key key_prefix id)
              doc there),
        inside,
      )

  pub AreStored-find_in :
      (s : Store) (docs : List Doc)
      → All (λ (d : Doc). keep (λ doc. true) (get (id_of d) s) ≡ some d) docs
      → AreStored s docs
  AreStored-find_in s [] h = tt
  AreStored-find_in s (d ∷ docs) h =
      (sym (keep_all (get (id_of d) s)) ∙ h.0, AreStored-find_in s docs h.1)

  pub same_option :
      (a b : Option Doc)
      → ((doc : Doc) → a ≡ some doc → b ≡ some doc)
      → is_some a ≡ is_some b
      → a ≡ b
  same_option none none h k = refl
  same_option none (some d) h k = absurd (ground arith)
  same_option (some d) b h k = sym (h d refl)
