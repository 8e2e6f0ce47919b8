-- ===== src/Startup/Tests.antt =====
-- Two pods that start up one after the other, migrations of which one raises, and each theorem at a concrete input.
use eve_build.Prelude.{ℕ, ◌+◌, ◌<◌, ◌≡◌, refl, List, [], ◌∷◌, arith, none, String, string_eq, false}
use eve_build.Prelude.Exc.{ok, err, value_error}
use eve_build.External.Memory.{memory}
use eve_build.External.Upsert.{memory_upserts}
use eve_build.Startup.Lock.{
  doc_id, Settings, outside, waiting, sleeping, holding, crashed, World, set_pod, attempt,
  try_acquire, Step, tick, enter, poll, crash, Reach, start, step,
}
use eve_build.Startup.Lock.Exclusion.{lock_excludes}
use eve_build.Startup.Lock.Takeover.{Lull, stay, pass, attempt_takes_over}
use eve_build.Startup.Migrations.{
  Migration, MigrationDoc, State, is_applied, run_each, run_migrations,
}
use eve_build.Startup.Migrations.Progress.{IsProgress, run_migrations-IsProgress}
use eve_build.Startup.Migrations

abbrev settings : Settings
settings = record { startup_lock_ttl_seconds = 480; startup_lock_wait_timeout_seconds = 420 }

abbrev PodWorld : Type 0
PodWorld = World (memory doc_id) (memory_upserts doc_id) settings

abbrev first : PodWorld
first = record { now = 0; stored = λ id. none; pods = λ holder. outside }

abbrev second : PodWorld
second = attempt (memory doc_id) (memory_upserts doc_id) settings "pod-a" 420 first

abbrev third : PodWorld
third = attempt (memory doc_id) (memory_upserts doc_id) settings "pod-b" 420 second

second-reached : Reach (memory doc_id) (memory_upserts doc_id) settings first second
second-reached = step start (enter first "pod-a" refl)

third-reached : Reach (memory doc_id) (memory_upserts doc_id) settings first third
unfolding attempt try_acquire
third-reached = step (step start (enter first "pod-a" refl)) (enter second "pod-b" refl)

first_pod_holds : third.pods "pod-a" ≡ holding 480
unfolding attempt try_acquire
first_pod_holds = refl

second_pod_waits : third.pods "pod-b" ≡ waiting 420
unfolding attempt try_acquire
second_pod_waits = refl

third-live : third.now < 480
unfolding attempt
third-live = omega arith

lock_excludes_example : ◌≡◌ {A = String} "pod-a" "pod-a"
lock_excludes_example =
    lock_excludes (memory doc_id) (memory_upserts doc_id) settings first third "pod-a" "pod-a" 480
      480 (λ holder. refl) third-reached first_pod_holds first_pod_holds third-live third-live

-- The first pod crashes in the `with`, and the second, which started after it, sleeps.
abbrev polled : PodWorld
polled = set_pod (memory doc_id) (memory_upserts doc_id) settings "pod-b" (sleeping 420) third

abbrev orphaned : PodWorld
orphaned = set_pod (memory doc_id) (memory_upserts doc_id) settings "pod-a" crashed polled

abbrev asleep : PodWorld
asleep = record orphaned { now = orphaned.now + 481 }

asleep-Lull : Lull (memory doc_id) (memory_upserts doc_id) settings second asleep
unfolding attempt try_acquire
asleep-Lull =
    pass
      (pass (pass (pass stay (enter second "pod-b" refl) refl) (poll third "pod-b" 420 refl) tt)
        (crash polled "pod-a") tt)
      (tick orphaned 481) tt

asleep-late : second.now + 480 < asleep.now
unfolding attempt
asleep-late = omega arith

attempt_takes_over_example :
    let w' = attempt (memory doc_id) (memory_upserts doc_id) settings "pod-b" 420 asleep in
    Step (memory doc_id) (memory_upserts doc_id) settings asleep w'
    × (w'.pods "pod-b" ≡ holding 961)
unfolding attempt
attempt_takes_over_example =
    attempt_takes_over (memory doc_id) (memory_upserts doc_id) settings first second asleep "pod-b"
      420 (λ doc at. cc) second-reached asleep-Lull asleep-late refl

-- A database that is a number, and migrations that add to it.
abbrev adding : String → ℕ → Migration ℕ
adding id n = record { migration_id = id; apply = λ db. (db + n, ok tt) }

abbrev failing : String → Migration ℕ
failing id = record { migration_id = id; apply = λ db. (db, err (value_error "no data")) }

abbrev log_id : MigrationDoc → String
log_id = Migrations.doc_id

abbrev empty_state : State (memory log_id) ℕ
empty_state = record { db = 5; log = λ id. none }

abbrev planned : List (Migration ℕ)
planned = adding "0001" 10 ∷ failing "0002" ∷ adding "0003" 30 ∷ []

run_migrations-IsProgress_example :
    IsProgress
      (memory log_id)
      ℕ
      (λ id. false)
      planned
      empty_state
      (run_migrations (memory log_id) ℕ 7 planned empty_state)
run_migrations-IsProgress_example =
    run_migrations-IsProgress (memory log_id) ℕ 7 planned empty_state (refl, (refl, (refl, tt)))

abbrev harmless : List (Migration ℕ)
harmless = adding "0001" 10 ∷ adding "0003" 30 ∷ []

abbrev migrated : State (memory log_id) ℕ
migrated = (run_migrations (memory log_id) ℕ 7 harmless empty_state).0

migrated_db : migrated.db ≡ 45
unfolding run_migrations run_each
migrated_db = refl

harmless-ran : run_migrations (memory log_id) ℕ 7 harmless empty_state ≡ (migrated, ok tt)
unfolding run_migrations run_each
harmless-ran = refl
