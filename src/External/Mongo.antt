-- ===== src/External/Mongo.antt =====
-- A MongoDB collection, seen as a map from `_id` to documents. Filters always fix `_id`, beside a
-- test of the other fields, so at most one document matches, and `matched_count` and
-- `deleted_count` are given as whether they are positive. An update is the function that its update
-- document describes.
use eve_build.Prelude.{◌≡◌, Bool, true, false, Option, none, some, if◌then◌else◌, Eq, ◌==◌, is_some}
use eve_build.Prelude.Exc.{Result, ok, err, duplicate_key}

-- The document, if it passes the test.
abbrev pub keep {ℓ} : {A : Type ℓ} → (A → Bool) → Option A → Option A
keep p none = none
keep p (some d) = if p d then some d else none

abbrev pub apply_if {ℓ} : {A : Type ℓ} → (A → Bool) → (A → A) → Option A → Option A
apply_if p f none = none
apply_if p f (some d) = some (if p d then f d else d)

abbrev pub drop_if {ℓ} : {A : Type ℓ} → (A → Bool) → Option A → Option A
drop_if p none = none
drop_if p (some d) = if p d then none else some d

pub record Collection (K : Type 0) ⦃e : Eq K⦄ (Doc : Type 0) (id_of : Doc → K) : Type 1 where
  pub Store : Type 0
  -- The document with an `_id`.
  pub get : K → Store → Option Doc
  -- `find_one({"_id": k, ...})`
  pub find_one : K → (Doc → Bool) → Store → Option Doc
  -- `insert_one(doc)`
  pub insert_one : Doc → Store → Result Store
  -- `update_one({"_id": k, ...}, ...)` and its `matched_count`
  pub update_one : K → (Doc → Bool) → (Doc → Doc) → Store → Store × Bool
  -- `delete_one({"_id": k, ...})` and its `deleted_count`
  pub delete_one : K → (Doc → Bool) → Store → Store × Bool
  pub find_one-get : (k : K) (p : Doc → Bool) (s : Store) → find_one k p s ≡ keep p (get k s)
  -- A document whose `_id` is taken is refused.
  pub insert_one-taken :
      (d : Doc) (s : Store) → is_some (get (id_of d) s) ≡ true → insert_one d s ≡ err duplicate_key
  pub insert_one-new :
      (d : Doc) (s : Store)
      → is_some (get (id_of d) s) ≡ false
      → (s' : Store) × (insert_one d s ≡ ok s')
        × ((k : K) → get k s' ≡ (if id_of d == k then some d else get k s))
  -- An update that keeps the `_id` (MongoDB refuses another).
  pub get-update_one :
      (k : K) (p : Doc → Bool) (f : Doc → Doc) (s : Store) (j : K)
      → ((d : Doc) → id_of (f d) ≡ id_of d)
      → get j (update_one k p f s).0 ≡ (if k == j then apply_if p f (get j s) else get j s)
  pub matched_count :
      (k : K) (p : Doc → Bool) (f : Doc → Doc) (s : Store)
      → (update_one k p f s).1 ≡ is_some (keep p (get k s))
  pub get-delete_one :
      (k : K) (p : Doc → Bool) (s : Store) (j : K)
      → get j (delete_one k p s).0 ≡ (if k == j then drop_if p (get j s) else get j s)
  pub deleted_count :
      (k : K) (p : Doc → Bool) (s : Store) → (delete_one k p s).1 ≡ is_some (keep p (get k s))
