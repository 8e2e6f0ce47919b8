-- ===== src/Plan/Jobs.antt =====
-- What the update documents of services/plan.py do to the jobs of a plan: the positional operator
-- `jobs.$` names the first job that the filter's `jobs.job_id` matches.
use eve_build.Prelude.{
  Bool, true, false, not, Option, List, [], ◌∷◌, String, if◌then◌else◌, ◌==◌, string_eq, filter,
}
use eve_build.Prelude.Int.{ℤ, int_beq}
use eve_build.Prelude.SortedSet.{sorted_set}
use eve_build.Plan.Doc.{Job}

abbrev pub has_id : String → Job → Bool
has_id job_id job = job.job_id == job_id

-- `"$set": {"jobs.$": ...}`
abbrev pub set_first : String → (Job → Job) → List Job → List Job
set_first job_id f [] = []
set_first job_id f (job ∷ jobs) =
    if has_id job_id job then f job ∷ jobs else job ∷ set_first job_id f jobs

-- `build_set.add(type_id)` or `build_set.discard(type_id)`, and `sorted`.
abbrev pub flagged : ℤ → Bool → List ℤ → List ℤ
flagged type_id true build_set = sorted_set (type_id ∷ build_set)
flagged type_id false build_set = sorted_set (filter (λ t. not (int_beq t type_id)) build_set)

abbrev pub with_flag : ℤ → Bool → Job → Job
with_flag type_id build job = record job { build_set = flagged type_id build job.build_set }

abbrev pub with_structure : Bool → Option String → String → Job → Job
with_structure has_engineering_complex rig_tier security_band job = record job {
  has_engineering_complex = has_engineering_complex;
  rig_tier = rig_tier;
  security_band = security_band;
}
