-- ===== src/External/Upsert.antt =====
-- `find_one_and_update(..., upsert=True, return_document=AFTER)` of a MongoDB collection, on a
-- filter that fixes `_id`.
use eve_build.Prelude.{◌≡◌, refl, Bool, true, false, Option, none, some, if◌then◌else◌, Eq, ◌==◌}
use eve_build.Prelude.Exc.{Result, ok, err, duplicate_key}
use eve_build.External.Mongo.{Collection}
use eve_build.External.Memory.{memory, put}

-- The update is given as what it makes of a document, and the document that it inserts.
pub record Upserts {K : Type 0} ⦃e : Eq K⦄ {Doc : Type 0} {id_of : Doc → K}
    (c : Collection K Doc id_of) : Type 0 where
  pub find_one_and_update :
      K → (Doc → Bool) → (Doc → Doc) → Doc → Collection.Store c → Result (Collection.Store c × Doc)
  pub inserts :
      (k : K) (p : Doc → Bool) (f : Doc → Doc) (new : Doc) (s : Collection.Store c)
      → Collection.get c k s ≡ none
      → id_of new ≡ k
      → (s' : Collection.Store c) × (find_one_and_update k p f new s ≡ ok (s', new))
        × ((j : K) → Collection.get c j s' ≡ (if k == j then some new else Collection.get c j s))
  pub updates :
      (k : K) (p : Doc → Bool) (f : Doc → Doc) (new : Doc) (s : Collection.Store c) (doc : Doc)
      → Collection.get c k s ≡ some doc
      → p doc ≡ true
      → id_of (f doc) ≡ id_of doc
      → (s' : Collection.Store c) × (find_one_and_update k p f new s ≡ ok (s', f doc))
        × ((j : K)
            → Collection.get c j s' ≡ (if k == j then some (f doc) else Collection.get c j s))
  -- The document is there and does not match: the insertion collides on `_id`.
  pub collides :
      (k : K) (p : Doc → Bool) (f : Doc → Doc) (new : Doc) (s : Collection.Store c) (doc : Doc)
      → Collection.get c k s ≡ some doc
      → p doc ≡ false
      → find_one_and_update k p f new s ≡ err duplicate_key

module _ {K : Type 0} ⦃e : Eq K⦄ {Doc : Type 0} (id_of : Doc → K) where
  abbrev table_upsert :
      K → (Doc → Bool) → (Doc → Doc) → Doc → (K → Option Doc) → Result ((K → Option Doc) × Doc)
  table_upsert k p f new s = elim (s k) [
    | none ↦ ok (put id_of k (some new) s, new)
    | some doc ↦ if p doc then ok (put id_of k (some (f doc)) s, f doc) else err duplicate_key
  ]

  abbrev pub memory_upserts : Upserts (memory id_of)
  memory_upserts = record {
    find_one_and_update = table_upsert;
    inserts = λ k p f new s absent same.
        let empty : s k ≡ none = absent in
        (put id_of k (some new) s, rw (empty, table_upsert), λ j. refl);
    updates = λ k p f new s doc found matches same.
        let here : s k ≡ some doc = found in
        (put id_of k (some (f doc)) s, rw (here, matches, table_upsert), λ j. refl);
    collides = λ k p f new s doc found other.
        let here : s k ≡ some doc = found in rw (here, other, table_upsert);
  }

-- `update_one({"_id": ...}, {"$set": ...}, upsert=True)` with every field of the document.
pub record Sets {K : Type 0} ⦃e : Eq K⦄ {Doc : Type 0} {id_of : Doc → K}
    (c : Collection K Doc id_of) : Type 0 where
  pub set_one : Doc → Collection.Store c → Collection.Store c
  pub get-set_one :
      (doc : Doc) (s : Collection.Store c) (k : K)
      → Collection.get c k (set_one doc s)
        ≡ (if id_of doc == k then some doc else Collection.get c k s)

module _ {K : Type 0} ⦃e : Eq K⦄ {Doc : Type 0} (id_of : Doc → K) where
  abbrev pub memory_sets : Sets (memory id_of)
  memory_sets = record {
    set_one = λ doc s. put id_of (id_of doc) (some doc) s;
    get-set_one = λ doc s k. refl;
  }
