-- ===== src/Plan/Ops.antt =====
-- The requests that change a plan, each as one call of services/plan.py.
use eve_build.Prelude.{ℕ, Bool, Option, List, String, string_eq}
use eve_build.Prelude.Int.{ℤ}
use eve_build.Prelude.Exc.{Result, ok, err}
use eve_build.External.Mongo.{Collection}
use eve_build.Plan.Doc.{Plan, plan_id}
use eve_build.Plan.{
  create_plan, create_empty_plan, add_job, update_job_quantity, update_job_build_flag,
  update_job_structure, set_structure_for_all_jobs, set_build_flag_for_all_jobs, remove_job,
  rename_plan, delete_plan,
}

-- The arguments of each call, beside the time and the character.
pub data Op : Type 0 where
  create : String → String → ℤ → ℤ → List ℤ → Op
  create_empty : String → Op
  add : String → String → ℤ → ℤ → List ℤ → Option ℤ → Op
  quantity : String → String → ℤ → Op
  flag : String → String → ℤ → Bool → Op
  structure : String → String → Bool → Option String → String → Op
  all_structures : String → Bool → Option String → String → Op
  all_flags : String → ℤ → Bool → Op
  remove : String → String → Op
  rename : String → String → Op
  delete : String → Op

-- The plan that a call is about.
abbrev pub subject : Op → String
subject (create uuid _ _ _ _) = uuid
subject (create_empty uuid) = uuid
subject (add id _ _ _ _ _) = id
subject (quantity id _ _) = id
subject (flag id _ _ _) = id
subject (structure id _ _ _ _) = id
subject (all_structures id _ _ _) = id
subject (all_flags id _ _) = id
subject (remove id _) = id
subject (rename id _) = id
subject (delete id) = id

module _ (plans : Collection String Plan plan_id) where
  -- A call that raises leaves the collection as it was.
  abbrev pub kept :
      Collection.Store plans → Result (String × Collection.Store plans) → Collection.Store plans
  kept s (ok (_, s')) = s'
  kept s (err _) = s

  unfoldable pub run : ℕ → ℕ → Op → Collection.Store plans → Collection.Store plans
  run now character (create uuid job_uuid type n build_set) s =
      kept s (create_plan plans uuid job_uuid now character type n build_set s)
  run now character (create_empty uuid) s = kept s (create_empty_plan plans uuid now character s)
  run now character (add id job_uuid type n build_set blueprint) s =
      (add_job plans job_uuid now id character type n build_set blueprint s).0
  run now character (quantity id job_id n) s =
      (update_job_quantity plans now id character job_id n s).0
  run now character (flag id job_id type build) s =
      (update_job_build_flag plans now id character job_id type build s).0
  run now character (structure id job_id complex rig band) s =
      (update_job_structure plans now id character job_id complex rig band s).0
  run now character (all_structures id complex rig band) s =
      (set_structure_for_all_jobs plans now id character complex rig band s).0
  run now character (all_flags id type build) s =
      (set_build_flag_for_all_jobs plans now id character type build s).0
  run now character (remove id job_id) s = (remove_job plans now id character job_id s).0
  run now character (rename id name) s = (rename_plan plans now id character name s).0
  run now character (delete id) s = (delete_plan plans id character s).0
