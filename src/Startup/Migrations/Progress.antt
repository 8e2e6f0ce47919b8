-- ===== src/Startup/Migrations/Progress.antt =====
-- What a run of migrations/runner.py does, described without its log.
use eve_build.Prelude.{
  ℕ, ◌≡◌, refl, sym, ap, ◌∙◌, Bool, true, false, not, ◌||◌, List, [], ◌∷◌, map, String, ◌==◌,
  nat_eq, string_eq, filter, contains, IsUnique, arith, Bool-cases, inl, inr,
}
use eve_build.Prelude.Dict.{eq_of_beq, beq_self}
use eve_build.Prelude.Exc.{Result, ok, err, Result-cases}
use eve_build.External.Mongo.{Collection}
use eve_build.Startup.Migrations.{
  MigrationDoc, doc_id, Migration, State, is_applied, run_each, run_migrations,
}

module _ (Db : Type 0) where
  -- How far a list of migrations gets: the ids of those that return, the database, and the outcome.
  abbrev pub progress : List (Migration Db) → Db → List String × (Db × Result (Unit {0}))
  progress [] db = ([], (db, ok tt))
  progress (migration ∷ rest) db =
      let later = progress rest (migration.apply db).0 in
      elim (migration.apply db).1 [
        | err e ↦ ([], ((migration.apply db).0, err e))
        | ok _ ↦ (migration.migration_id ∷ later.0, later.1)
      ]

  abbrev pub ids : List (Migration Db) → List String
  ids = map (λ migration. migration.migration_id)

  abbrev pub pending : (String → Bool) → List (Migration Db) → List (Migration Db)
  pending applied_ids = filter (λ migration. not (applied_ids migration.migration_id))

contains-apart :
    (k j : String) (l : List String) → contains k l ≡ true → contains j l ≡ false → (j == k) ≡ false
contains-apart k j l here gone = elim (Bool-cases (j == k)) [
  | inl same ↦
      let eq = eq_of_beq j k same in
      let yes : contains j l ≡ true = rw eq here in absurd (ground arith)
  | inr other ↦ other
]

module _ (migrations : Collection String MigrationDoc doc_id) (Db : Type 0) where
  open migrations use {Store, get}

  abbrev pub IsProgress :
      (String → Bool)
      → List (Migration Db)
      → State migrations Db
      → State migrations Db × Result (Unit {0})
      → Type 0
  IsProgress applied_ids ms s (s', result) =
      (s'.db ≡ (progress Db (pending Db applied_ids ms) s.db).1.0)
      × (result ≡ (progress Db (pending Db applied_ids ms) s.db).1.1)
      × ((k : String)
          → is_applied migrations Db s'.log k ≡ (
              contains k (progress Db (pending Db applied_ids ms) s.db).0
              || is_applied migrations Db s.log k))

  run_each-IsProgress :
      (now : ℕ) (applied_ids : String → Bool) (ms : List (Migration Db)) (s : State migrations Db)
      → IsUnique (ids Db ms)
      → ((k : String)
          → contains k (ids Db ms) ≡ true
          → is_applied migrations Db s.log k ≡ applied_ids k)
      → IsProgress applied_ids ms s (run_each migrations Db now applied_ids ms s)
  unfolding run_each
  run_each-IsProgress now applied_ids [] s unique agrees = (refl, refl, λ k. refl)
  run_each-IsProgress now applied_ids (m ∷ ms) s unique agrees =
      elim (Bool-cases (applied_ids m.migration_id)) [
        | inl skip ↦
            rw (skip, run_each)
              (run_each-IsProgress now applied_ids ms s unique.1 (λ k h. agrees k (ground arith)))
        | inr new ↦ elim (Result-cases (m.apply s.db).1) [
          | inl (e, failed) ↦ rw (new, failed, run_each) (refl, refl, λ k. refl)
          | inr (v, applied) ↦
              let absent = agrees m.migration_id (ground (arith, beq_self m.migration_id)) ∙ new in
              let (log, inserted, after) =
                migrations.insert_one-new (record { id = m.migration_id; applied_at = now }) s.log
                  absent in
              let rest =
                run_each-IsProgress now applied_ids ms (record { db = (m.apply s.db).0; log = log })
                  unique.1
                  (λ k h. rw (after k) (
                    rw (contains-apart k m.migration_id (ids Db ms) h unique.0)
                      (agrees k (ground arith)))) in
              rw (new, applied, inserted, run_each)
                (
                  rest.0,
                  rest.1,
                  λ k.
                      rest.2 k
                      ∙ rw (after k) (elim (Bool-cases (m.migration_id == k)) [
                        | inl same ↦ rw same (ground arith)
                        | inr other ↦ rw other
                      ]),
                )
        ]
      ]

  -- A run ends with the database and the outcome of the migrations that are not applied, run in
  -- order up to the first that raises, and it records those that return and no others.
  pub run_migrations-IsProgress :
      (now : ℕ) (ms : List (Migration Db)) (s : State migrations Db)
      → IsUnique (ids Db ms)
      → IsProgress (is_applied migrations Db s.log) ms s (run_migrations migrations Db now ms s)
  unfolding run_migrations
  run_migrations-IsProgress now ms s unique =
      run_each-IsProgress now (is_applied migrations Db s.log) ms s unique (λ k h. refl)

  progress-ids :
      (ms : List (Migration Db)) (db : Db)
      → (progress Db ms db).1.1 ≡ ok tt
      → (progress Db ms db).0 ≡ ids Db ms
  progress-ids [] db h = refl
  progress-ids (m ∷ ms) db h = elim (Result-cases (m.apply db).1) [
    | inl (e, failed) ↦
        let raised : (progress Db (m ∷ ms) db).1.1 ≡ err e = rw (failed, progress) in
        absurd (ground (arith, sym raised ∙ h))
    | inr (v, applied) ↦
        let rest = progress Db ms (m.apply db).0 in
        let unfolded : progress Db (m ∷ ms) db ≡ (m.migration_id ∷ rest.0, rest.1) =
          rw (applied, progress) in
        ap (λ r. r.0) unfolded
        ∙ ap (λ l. m.migration_id ∷ l)
            (progress-ids ms (m.apply db).0 (sym (ap (λ r. r.1.1) unfolded) ∙ h))
  ]

  contains-pending :
      (f : String → Bool) (ms : List (Migration Db)) (k : String)
      → contains k (ids Db ms) ≡ true
      → (contains k (ids Db (pending Db f ms)) || f k) ≡ true
  contains-pending f [] k h = absurd (ground arith)
  contains-pending f (m ∷ ms) k h = elim (Bool-cases (m.migration_id == k)) [
    | inl same ↦ elim (Bool-cases (f m.migration_id)) [
      | inl skip ↦ rw (← eq_of_beq m.migration_id k same) (ground (arith, skip))
      | inr new ↦ rw (new, same)
    ]
    | inr other ↦ elim (Bool-cases (f m.migration_id)) [
      | inl skip ↦ rw skip (contains-pending f ms k (ground arith))
      | inr new ↦ rw (new, other) (contains-pending f ms k (ground arith))
    ]
  ]

  run_each_skips :
      (now : ℕ) (applied_ids : String → Bool) (ms : List (Migration Db)) (s : State migrations Db)
      → ((k : String) → contains k (ids Db ms) ≡ true → applied_ids k ≡ true)
      → run_each migrations Db now applied_ids ms s ≡ (s, ok tt)
  unfolding run_each
  run_each_skips now applied_ids [] s h = refl
  run_each_skips now applied_ids (m ∷ ms) s h =
      rw (h m.migration_id (ground (arith, beq_self m.migration_id)), run_each)
        (run_each_skips now applied_ids ms s (λ k g. h k (ground arith)))

  -- After a run that returns, running the same migrations again changes nothing.
  pub run_migrations_again :
      (now later : ℕ) (ms : List (Migration Db)) (s s' : State migrations Db)
      → IsUnique (ids Db ms)
      → run_migrations migrations Db now ms s ≡ (s', ok tt)
      → run_migrations migrations Db later ms s' ≡ (s', ok tt)
  unfolding run_migrations
  run_migrations_again now later ms s s' unique ran =
      let (db, result, log) = run_migrations-IsProgress now ms s unique in
      let all =
        progress-ids (pending Db (is_applied migrations Db s.log) ms) s.db
          (sym result ∙ ap (λ r. r.1) ran) in
      run_each_skips later (is_applied migrations Db s'.log) ms s' (λ k h.
        ap (λ r. is_applied migrations Db r.0.log k) (sym ran)
        ∙ log k
        ∙ rw all (contains-pending (is_applied migrations Db s.log) ms k h))
