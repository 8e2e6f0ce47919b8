-- ===== src/Plan/Transfer/Tests.antt =====
-- A plan that is exported and imported again, and one that cannot be.
use eve_build.Prelude.{
  ℕ, ◌≡◌, refl, true, Option, none, some, [], ◌∷◌, String, if◌then◌else◌, ◌==◌, string_eq, nat_eq,
}
use eve_build.Prelude.Int.{pos}
use eve_build.Prelude.Exc.{ok, err, value_error}
use eve_build.External.Memory.{memory}
use eve_build.Plan.{get_plan}
use eve_build.Plan.Doc.{Job, Plan, plan_id}
use eve_build.External.Json.{
  Builtins, whole_numbers, Value, array, object, nil, cons, end, field, get_field,
}
use eve_build.Plan.Transfer.{
  take_chars, export_doc, job_doc_from_import, import_jobs, read_plan, export_plan, import_plan,
}
use eve_build.Plan.Transfer.RoundTrip.{import_plan-export_plan}

abbrev python : Builtins
python = whole_numbers

abbrev repr : Value python → String
repr value = "?"

abbrev job : Job
job = record {
  job_id = "j";
  target_type_id = pos 587;
  target_quantity = pos 4;
  build_set = pos 20 ∷ pos 30 ∷ [];
  blueprint_item_id = some (pos 1001);
  has_engineering_complex = true;
  rig_tier = some "t1";
  security_band = "low";
}

abbrev plan : Plan
plan = record {
  id = "a";
  character_id = 1;
  name = "Rifters";
  jobs = job ∷ [];
  created_at = 3;
  updated_at = 4;
}

abbrev stored : String → Option Plan
stored id = if id == "a" then some plan else none

abbrev job_uuid : ℕ → String
job_uuid position = "k"

-- Python's `[{}]`, as the jobs of a plan.
abbrev without_type : Value python
without_type = object (field "jobs" (array (cons (object end) nil)) end)

import_plan-without_type :
    import_plan python repr (memory plan_id) "b" job_uuid 9 2 without_type stored
    ≡ err (value_error "Malformed job entry")
unfolding import_plan read_plan import_jobs job_doc_from_import get_field
import_plan-without_type = refl

import_plan_empty :
    import_plan python repr
      (memory plan_id)
      "b"
      job_uuid
      9
      2
      (export_doc python repr (record plan { jobs = [] }))
      stored
    ≡ err (value_error "jobs must be a non-empty list")
unfolding import_plan read_plan get_field
import_plan_empty = refl

abbrev imported : Plan
imported = record {
  id = "b";
  character_id = 2;
  name = "Rifters";
  jobs = record job { job_id = "k" } ∷ [];
  created_at = 9;
  updated_at = 9;
}

found : get_plan (memory plan_id) "a" 1 stored ≡ some plan
unfolding get_plan
found = refl

import_plan-export_plan_example :
    (value : Value python) × (export_plan python repr (memory plan_id) "a" 1 stored ≡ some value)
    × (s' : String → Option Plan) × (import_plan python repr
          (memory plan_id)
          "b"
          job_uuid
          9
          2
          value
          stored
        ≡ ok ("b", s'))
    × (s' "b" ≡ some imported)
unfolding take_chars
import_plan-export_plan_example =
    import_plan-export_plan python repr (memory plan_id) "b" "a" job_uuid 9 1 2 stored plan job []
      found refl ((refl, tt), tt) refl
