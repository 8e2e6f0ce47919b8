-- ===== src/PlanPages/Tests.antt =====
-- Requests that make a plan and change its structure, and requests that are refused.
use eve_build.Prelude.{
  ℕ, ◌≡◌, refl, true, none, some, List, [], ◌∷◌, String, if◌then◌else◌, ◌==◌, string_eq, Option,
}
use eve_build.Prelude.Int.{pos}
use eve_build.External.Memory.{memory}
use eve_build.External.Json.{whole_numbers}
use eve_build.Plan.Doc.{Plan, plan_id, job_doc}
use eve_build.Plan.{
  create_plan, update_job_quantity, update_job_structure, set_structure_for_all_jobs,
}
use eve_build.PlanPages.{
  status, is_plan_id, normalized_rig_tier, Request, from_build, quantity, structure, all_structures,
  require, or_404, on_created, handle, handle_all, import_request,
}

abbrev Store : Type 0
Store = String → Option Plan

abbrev empty : Store
empty id = none

abbrev strip : String → String
strip name = name

-- A rig that is not known counts as none.
abbrev requests : List (ℕ × ℕ × Request)
requests =
    (10, 7, from_build "p" "j" (pos 587) (pos 2) [])
    ∷ (11, 7, structure "p" "j" true "t9" "low")
    ∷ (12, 7, all_structures "p" true "t2" "low")
    ∷ []

abbrev made : Plan
made = record {
  id = "p";
  character_id = 7;
  name = "";
  jobs =
      record {
        job_id = "j";
        target_type_id = pos 587;
        target_quantity = pos 2;
        build_set = [];
        blueprint_item_id = none;
        has_engineering_complex = true;
        rig_tier = some "t2";
        security_band = "low";
      }
      ∷ [];
  created_at = 10;
  updated_at = 12;
}

made-found : handle_all (memory plan_id) strip requests empty "p" ≡ some made
unfolding handle_all handle require or_404 on_created is_plan_id normalized_rig_tier create_plan
    job_doc update_job_structure set_structure_for_all_jobs
made-found = refl

-- Another character asks for the plan.
abbrev stored : Store
stored id = if id == "p" then some made else none

other_refused :
    (handle (memory plan_id) strip 13 8 (quantity "p" "j" (pos 3)) stored).1 ≡ status 404
unfolding handle require or_404 is_plan_id update_job_quantity
other_refused = refl

zero_refused : (handle (memory plan_id) strip 13 7 (quantity "p" "j" (pos 0)) stored).1 ≡ status 422
unfolding handle require
zero_refused = refl

body_refused :
    (import_request (memory plan_id) whole_numbers (λ value. "") "q" (λ n. "k") 13 7 none stored).1
    ≡ status 400
unfolding import_request
body_refused = refl
