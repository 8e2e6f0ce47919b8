-- ===== src/Plan.antt =====
-- services/plan.py: the plans of each character, in the collection `plans`. `now` is the time of the
-- call, and `uuid` and `job_uuid` are what `uuid.uuid4()` returns.
pub mod Doc
pub mod Jobs
pub mod Ops
pub mod Owner
pub mod Invariant
pub mod Sorted
pub mod Transfer
mod Tests
use eve_build.Prelude.{
  ℕ, Bool, true, false, not, ◌&&◌, ◌||◌, Option, none, some, List, [], ◌∷◌, ◌++◌, String, map,
  filter, find, any, length, leb, if◌then◌else◌, ◌==◌, nat_eq, string_eq,
}
use eve_build.Prelude.Int.{ℤ}
use eve_build.Prelude.Exc.{Result, ok, err, ◌>>=◌}
use eve_build.External.Mongo.{Collection}
use eve_build.Plan.Doc.{Job, Plan, plan_id, job_doc}
use eve_build.Plan.Jobs.{has_id, set_first, flagged, with_flag, with_structure}

-- The filter `{"_id": plan_id, "character_id": character_id}`, beside `_id`.
abbrev pub owned : ℕ → Plan → Bool
owned character_id doc = doc.character_id == character_id

-- The filter with `"jobs.job_id": job_id`, too.
abbrev pub owned_with_job : ℕ → String → Plan → Bool
owned_with_job character_id job_id doc = owned character_id doc && any (has_id job_id) doc.jobs

module _ (plans : Collection String Plan plan_id) where
  open plans use {Store, find_one, insert_one, update_one, delete_one}

  unfoldable pub create_plan :
      String → String → ℕ → ℕ → ℤ → ℤ → List ℤ → Store → Result (String × Store)
  create_plan uuid job_uuid now character_id target_type_id target_quantity build_set s =
      insert_one
        (record {
          id = uuid;
          character_id = character_id;
          name = "";
          jobs = job_doc job_uuid target_type_id target_quantity build_set none ∷ [];
          created_at = now;
          updated_at = now;
        })
        s
      >>= λ s'. ok (uuid, s')

  unfoldable pub create_empty_plan : String → ℕ → ℕ → Store → Result (String × Store)
  create_empty_plan uuid now character_id s =
      insert_one
        (record {
          id = uuid;
          character_id = character_id;
          name = "";
          jobs = [];
          created_at = now;
          updated_at = now;
        })
        s
      >>= λ s'. ok (uuid, s')

  unfoldable pub add_job :
      String → ℕ → String → ℕ → ℤ → ℤ → List ℤ → Option ℤ → Store → Store × Option String
  add_job job_uuid now id character_id target_type_id target_quantity build_set blueprint_item_id
        s =
      let job = job_doc job_uuid target_type_id target_quantity build_set blueprint_item_id in
      let (s', matched) =
        update_one id (owned character_id)
          (λ doc. record doc { jobs = doc.jobs ++ job ∷ []; updated_at = now }) s in
      (s', if matched then some job.job_id else none)

  unfoldable pub update_job_quantity : ℕ → String → ℕ → String → ℤ → Store → Store × Bool
  update_job_quantity now id character_id job_id target_quantity s =
      update_one id (owned_with_job character_id job_id)
        (λ doc. record doc {
          jobs =
              set_first job_id (λ job. record job { target_quantity = target_quantity }) doc.jobs;
          updated_at = now;
        })
        s

  unfoldable pub update_job_build_flag : ℕ → String → ℕ → String → ℤ → Bool → Store → Store × Bool
  update_job_build_flag now id character_id job_id type_id build s =
      elim (find_one id (owned character_id) s) [
        | none ↦ (s, false)
        | some doc ↦ elim (find (has_id job_id) doc.jobs) [
          | none ↦ (s, false)
          | some job ↦
              update_one id (owned_with_job character_id job_id)
                (λ current. record current {
                  jobs =
                      set_first job_id
                        (λ j. record j { build_set = flagged type_id build job.build_set })
                        current.jobs;
                  updated_at = now;
                })
                s
        ]
      ]

  unfoldable pub update_job_structure :
      ℕ → String → ℕ → String → Bool → Option String → String → Store → Store × Bool
  update_job_structure now id character_id job_id has_engineering_complex rig_tier security_band s =
      update_one id (owned_with_job character_id job_id)
        (λ doc. record doc {
          jobs =
              set_first job_id (with_structure has_engineering_complex rig_tier security_band)
                doc.jobs;
          updated_at = now;
        })
        s

  -- Both operations on all jobs read the plan, change its jobs and write them back.
  unfoldable pub set_structure_for_all_jobs :
      ℕ → String → ℕ → Bool → Option String → String → Store → Store × Bool
  set_structure_for_all_jobs now id character_id has_engineering_complex rig_tier security_band s =
      elim (find_one id (owned character_id) s) [
        | none ↦ (s, false)
        | some doc ↦
            let jobs =
              map (with_structure has_engineering_complex rig_tier security_band) doc.jobs in
            (
              (update_one id (owned character_id)
                  (λ current. record current { jobs = jobs; updated_at = now }) s).0,
              true,
            )
      ]

  unfoldable pub set_build_flag_for_all_jobs : ℕ → String → ℕ → ℤ → Bool → Store → Store × Bool
  set_build_flag_for_all_jobs now id character_id type_id build s =
      elim (find_one id (owned character_id) s) [
        | none ↦ (s, false)
        | some doc ↦
            let jobs = map (with_flag type_id build) doc.jobs in
            (
              (update_one id (owned character_id)
                  (λ current. record current { jobs = jobs; updated_at = now }) s).0,
              true,
            )
      ]

  -- `none` is a plan that is not found, `some false` a job that cannot be removed.
  unfoldable pub remove_job : ℕ → String → ℕ → String → Store → Store × Option Bool
  remove_job now id character_id job_id s = elim (find_one id (owned character_id) s) [
    | none ↦ (s, none)
    | some doc ↦
        if leb (length doc.jobs) 1 || not (any (has_id job_id) doc.jobs) then (s, some false) else (
          (update_one id (owned character_id)
              (λ current. record current {
                jobs = filter (λ job. not (has_id job_id job)) current.jobs;
                updated_at = now;
              })
              s).0,
          some true,
        )
  ]

  unfoldable pub rename_plan : ℕ → String → ℕ → String → Store → Store × Bool
  rename_plan now id character_id name s =
      update_one id (owned character_id) (λ doc. record doc { name = name; updated_at = now }) s

  unfoldable pub delete_plan : String → ℕ → Store → Store × Bool
  delete_plan id character_id s = delete_one id (owned character_id) s

  unfoldable pub get_plan : String → ℕ → Store → Option Plan
  get_plan id character_id s = find_one id (owned character_id) s
