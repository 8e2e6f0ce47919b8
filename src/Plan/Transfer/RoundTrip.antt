-- ===== src/Plan/Transfer/RoundTrip.antt =====
-- What an exported plan of services/plan.py is, once it is imported again.
use eve_build.Prelude.{
  ℕ, suc, ◌≡◌, refl, ◌∙◌, false, Option, none, some, List, [], ◌∷◌, String, string_eq, nat_eq,
  is_some,
}
use eve_build.Prelude.Int.{ℤ}
use eve_build.Prelude.Dict.{beq_self}
use eve_build.Prelude.SortedSet.{sorted_set-of_IsAscending}
use eve_build.Prelude.Exc.{ok, map_m}
use eve_build.External.Mongo.{Collection}
use eve_build.Plan.{get_plan}
use eve_build.Plan.Doc.{Job, Plan, plan_id, job_doc}
use eve_build.Plan.Sorted.{IsSortedJob, AreSorted}
use eve_build.External.Json.{Builtins, Value, integer, text, values_list, get_field, int_of}
use eve_build.Plan.Transfer.{
  take_chars, array_of, or_null, blueprint_of, rig_of, export_job, export_doc, job_doc_from_import,
  import_jobs, read_plan, export_plan, import_plan,
}

-- The jobs with new identifiers.
abbrev pub renamed : (ℕ → String) → ℕ → List Job → List Job
renamed job_uuid position [] = []
renamed job_uuid position (job ∷ jobs) =
    record job { job_id = job_uuid position } ∷ renamed job_uuid (suc position) jobs

module _ (python : Builtins) (repr : Value python → String) where
  map_m-integer :
      (l : List ℤ)
      → map_m (int_of python) (values_list python (array_of python repr (λ n. integer n) l)) ≡ ok l
  map_m-integer [] = refl
  map_m-integer (n ∷ l) = rw (map_m-integer l) refl

  blueprint_of-or_null :
      (o : Option ℤ)
      → blueprint_of python repr (some (or_null python repr (λ n. integer n) o)) ≡ ok o
  blueprint_of-or_null none = refl
  blueprint_of-or_null (some id) = refl

  rig_of-or_null :
      (o : Option String) → rig_of python repr (some (or_null python repr (λ s. text s) o)) ≡ o
  rig_of-or_null none = refl
  rig_of-or_null (some rig) = refl

  job_doc_from_import-export_job :
      (uuid : String) (job : Job)
      → IsSortedJob job
      → job_doc_from_import python repr uuid (export_job python repr job)
        ≡ ok (record job { job_id = uuid })
  unfolding job_doc_from_import get_field job_doc
  job_doc_from_import-export_job uuid job sorted =
      rw
        (
          map_m-integer job.build_set,
          blueprint_of-or_null job.blueprint_item_id,
          rig_of-or_null job.rig_tier,
          sorted_set-of_IsAscending job.build_set sorted,
        )
        refl

  import_jobs-export_job :
      (job_uuid : ℕ → String) (position : ℕ) (jobs : List Job)
      → AreSorted jobs
      → import_jobs python repr job_uuid position
          (values_list python (array_of python repr (export_job python repr) jobs))
        ≡ ok (renamed job_uuid position jobs)
  unfolding import_jobs
  import_jobs-export_job job_uuid position [] sorted = refl
  import_jobs-export_job job_uuid position (job ∷ jobs) sorted =
      rw
        (
          job_doc_from_import-export_job (job_uuid position) job sorted.0,
          import_jobs-export_job job_uuid (suc position) jobs sorted.1,
        )
        refl

  -- The name and the jobs of an exported plan that has a job.
  read_plan-export_doc :
      (job_uuid : ℕ → String) (doc : Plan) (first : Job) (others : List Job)
      → AreSorted doc.jobs
      → doc.jobs ≡ first ∷ others
      → read_plan python repr job_uuid (export_doc python repr doc)
        ≡ ok (doc.name, renamed job_uuid 0 doc.jobs)
  unfolding read_plan get_field
  read_plan-export_doc job_uuid doc first others sorted nonempty =
      rw (nonempty, import_jobs-export_job job_uuid 0 (first ∷ others) (rw nonempty at sorted)) refl

  module _ (plans : Collection String Plan plan_id) where
    open plans use {Store, get}

    -- A plan that has a job and whose build sets are sorted is exported, and what is exported can be
    -- imported by any character under a new id: the new plan has the same jobs, up to their
    -- identifiers, and the first hundred characters of the name.
    pub import_plan-export_plan :
        (uuid id : String) (job_uuid : ℕ → String) (now owner importer : ℕ) (s : Store) (doc : Plan)
        (first : Job) (others : List Job)
        → get_plan plans id owner s ≡ some doc
        → doc.jobs ≡ first ∷ others
        → AreSorted doc.jobs
        → is_some (get uuid s) ≡ false
        → (value : Value python) × (export_plan python repr plans id owner s ≡ some value)
          × (s' : Store) × (import_plan python repr plans uuid job_uuid now importer value s
              ≡ ok (uuid, s'))
          × (get uuid s'
              ≡ some (record {
                id = uuid;
                character_id = importer;
                name = take_chars 100 doc.name;
                jobs = renamed job_uuid 0 doc.jobs;
                created_at = now;
                updated_at = now;
              }))
    unfolding export_plan import_plan
    import_plan-export_plan uuid id job_uuid now owner importer s doc first others stored nonempty
          sorted fresh =
        let plan : Plan = record {
          id = uuid;
          character_id = importer;
          name = take_chars 100 doc.name;
          jobs = renamed job_uuid 0 doc.jobs;
          created_at = now;
          updated_at = now;
        } in
        let (s', inserted, has) = plans.insert_one-new plan s fresh in
        (
          export_doc python repr doc,
          rw (stored, export_plan) refl,
          s',
          rw (read_plan-export_doc job_uuid doc first others sorted nonempty, inserted) refl,
          has uuid ∙ rw (beq_self uuid) refl,
        )
