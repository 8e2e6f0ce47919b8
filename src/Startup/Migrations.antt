-- ===== src/Startup/Migrations.antt =====
-- migrations/runner.py: the migrations, each recorded in the collection `_migrations` once it is
-- applied. What a migration does to the database, and whether it raises, is a parameter.
pub mod Progress
use eve_build.Prelude.{
  ℕ, ◌≡◌, Bool, true, false, Option, none, some, List, [], ◌∷◌, String, is_some, string_eq,
}
use eve_build.Prelude.Exc.{Result, ok, err}
use eve_build.External.Mongo.{Collection}

pub record MigrationDoc : Type 0 where
  pub id : String
  pub applied_at : ℕ

abbrev pub doc_id : MigrationDoc → String
doc_id doc = doc.id

-- A migration that raises may have changed the database before.
pub record Migration (Db : Type 0) : Type 0 where
  pub migration_id : String
  pub apply : Db → Db × Result (Unit {0})

module _ (migrations : Collection String MigrationDoc doc_id) (Db : Type 0) where
  open migrations use {Store, get, insert_one}

  pub record State : Type 0 where
    pub db : Db
    pub log : Store

  abbrev pub is_applied : Store → String → Bool
  is_applied log id = is_some (get id log)

  -- The loop over the migrations; `applied_ids` is read before it.
  unfoldable pub run_each :
      ℕ → (String → Bool) → List (Migration Db) → State → State × Result (Unit {0})
  run_each now applied_ids [] s = (s, ok tt)
  run_each now applied_ids (migration ∷ rest) s = elim (applied_ids migration.migration_id) [
    | true ↦ run_each now applied_ids rest s
    | false ↦
        let (db, outcome) = migration.apply s.db in
        elim outcome [
          | err e ↦ (record { db = db; log = s.log }, err e)
          | ok _ ↦
              elim (insert_one (record { id = migration.migration_id; applied_at = now }) s.log) [
                | err e ↦ (record { db = db; log = s.log }, err e)
                | ok log ↦ run_each now applied_ids rest (record { db = db; log = log })
              ]
        ]
  ]

  unfoldable pub run_migrations : ℕ → List (Migration Db) → State → State × Result (Unit {0})
  run_migrations now discovered s = run_each now (is_applied s.log) discovered s
