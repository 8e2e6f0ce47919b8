-- ===== src/External/Docs.antt =====
-- A MongoDB collection that the program reads as a whole, `find({})`, beside single documents.
use eve_build.Prelude.{
  ◌≡◌, refl, sym, ap, ◌∙◌, true, ◌&&◌, Option, none, some, List, [], ◌∷◌, Eq, ◌==◌, any, All,
  contains, is_some, if◌then◌else◌, arith,
}
use eve_build.External.Memory.{put}
use eve_build.External.Find.{table_find, table_find-stored, any-table_find}
use eve_build.External.Mongo.{keep}

pub record Docs (K : Type 0) ⦃e : Eq K⦄ (Doc : Type 0) (id_of : Doc → K) : Type 1 where
  pub Store : Type 0
  pub get : K → Store → Option Doc
  -- `replace_one({"_id": ...}, doc, upsert=True)`
  pub replace_one : Doc → Store → Store
  -- `delete_one({"_id": k})`
  pub delete_one : K → Store → Store
  pub find_all : Store → List Doc
  pub get-replace_one :
      (d : Doc) (s : Store) (k : K)
      → get k (replace_one d s) ≡ (if id_of d == k then some d else get k s)
  pub get-delete_one :
      (j : K) (s : Store) (k : K) → get k (delete_one j s) ≡ (if j == k then none else get k s)
  -- MongoDB keeps a document under its own `_id`.
  pub find_all-stored :
      (s : Store)
      → ((k : K) (d : Doc) → get k s ≡ some d → id_of d ≡ k)
      → All (λ (d : Doc). get (id_of d) s ≡ some d) (find_all s)
  pub any-find_all :
      (s : Store) (k : K)
      → ((j : K) (d : Doc) → get j s ≡ some d → id_of d ≡ j)
      → any (λ d. id_of d == k) (find_all s) ≡ is_some (get k s)

module _ {K : Type 0} ⦃e : Eq K⦄ {Doc : Type 0} (id_of : Doc → K) where
  -- The keys that were ever written, and what is stored under each.
  abbrev Table : Type 0
  Table = List K × (K → Option Doc)

  abbrev pub table_get : Table → K → Option Doc
  table_get (ks, f) k = if contains k ks then f k else none

  keep_all : (o : Option Doc) → keep (λ d. true) o ≡ o
  keep_all none = refl
  keep_all (some d) = refl

  pub table_replace_get :
      (d : Doc) (s : Table) (k : K)
      → table_get (id_of d ∷ s.0, put id_of (id_of d) (some d) s.1) k
        ≡ (if id_of d == k then some d else table_get s k)
  table_replace_get d s k = ground arith

  pub table_delete_get :
      (j : K) (s : Table) (k : K)
      → table_get (s.0, put id_of j none s.1) k ≡ (if j == k then none else table_get s k)
  table_delete_get j s k = ground arith

  All-kept :
      (s : Table) (docs : List Doc)
      → All (λ (d : Doc). keep (λ x. true) (table_get s (id_of d)) ≡ some d) docs
      → All (λ (d : Doc). table_get s (id_of d) ≡ some d) docs
  All-kept s [] h = tt
  All-kept s (d ∷ docs) h = (sym (keep_all (table_get s (id_of d))) ∙ h.0, All-kept s docs h.1)

  in_table :
      (s : Table) (k : K) → (contains k s.0 && is_some (table_get s k)) ≡ is_some (table_get s k)
  in_table s k = ground arith

  pub table-All-stored :
      (s : Table)
      → ((k : K) (d : Doc) → table_get s k ≡ some d → id_of d ≡ k)
      → All
          (λ (d : Doc). table_get s (id_of d) ≡ some d)
          (table_find id_of s.0 (λ d. true) (table_get s))
  table-All-stored s keyed =
      All-kept s (table_find id_of s.0 (λ d. true) (table_get s))
        (table_find-stored id_of s.0 (λ d. true) (table_get s) keyed)

  pub table_any-all :
      (s : Table) (k : K)
      → ((j : K) (d : Doc) → table_get s j ≡ some d → id_of d ≡ j)
      → any (λ d. id_of d == k) (table_find id_of s.0 (λ d. true) (table_get s))
        ≡ is_some (table_get s k)
  table_any-all s k keyed =
      any-table_find id_of s.0 (λ d. true) (table_get s) k keyed
      ∙ ap (λ o. contains k s.0 && is_some o) (keep_all (table_get s k))
      ∙ in_table s k

  abbrev pub memory_docs : Docs K Doc id_of
  memory_docs = record {
    Store = Table;
    get = λ k s. table_get s k;
    replace_one = λ d s. (id_of d ∷ s.0, put id_of (id_of d) (some d) s.1);
    delete_one = λ k s. (s.0, put id_of k none s.1);
    find_all = λ s. table_find id_of s.0 (λ d. true) (table_get s);
    get-replace_one = λ d s k. table_replace_get d s k;
    get-delete_one = λ j s k. table_delete_get j s k;
    find_all-stored = λ s keyed. table-All-stored s keyed;
    any-find_all = λ s k keyed. table_any-all s k keyed;
  }
