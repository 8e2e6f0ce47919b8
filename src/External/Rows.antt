-- ===== src/External/Rows.antt =====
-- A MongoDB collection of rows that belong to an owner, named by a field of the row, and that have no
-- `_id` of the program's own.
use eve_build.Prelude.{ℕ, ◌≡◌, refl, List, [], ◌++◌, ◌==◌, nat_eq, if◌then◌else◌}

pub record Rows (Row : Type 0) : Type 1 where
  pub Store : Type 0
  -- The rows of an owner, in natural order.
  pub rows : ℕ → Store → List Row
  -- `delete_many({"character_id": owner})`
  pub delete_many : ℕ → Store → Store
  -- `insert_many([{"character_id": owner, ...}, ...])`
  pub insert_many : ℕ → List Row → Store → Store
  pub rows-delete_many :
      (owner k : ℕ) (s : Store)
      → rows k (delete_many owner s) ≡ (if owner == k then [] else rows k s)
  pub rows-insert_many :
      (owner k : ℕ) (l : List Row) (s : Store)
      → rows k (insert_many owner l s) ≡ (if owner == k then rows k s ++ l else rows k s)

module _ (Row : Type 0) where
  abbrev pub memory_rows : Rows Row
  memory_rows = record {
    Store = ℕ → List Row;
    rows = λ k s. s k;
    delete_many = λ owner s k. if owner == k then [] else s k;
    insert_many = λ owner l s k. if owner == k then s k ++ l else s k;
    rows-delete_many = λ owner k s. refl;
    rows-insert_many = λ owner k l s. refl;
  }
