-- ===== src/PlanPages/Blueprints/Tests.antt =====
-- A job from a copy of a blueprint, whose structure is then detected, and each theorem at a concrete
-- input.
use eve_build.Prelude.{
  ℕ, ◌≡◌, refl, true, Option, none, some, List, [], ◌∷◌, String, All, if◌then◌else◌, ◌==◌,
  string_eq, nat_eq, arith, inl, inr, Bool-cases,
}
use eve_build.Prelude.Dict.{Dict}
use eve_build.Prelude.Int.{pos}
use eve_build.Prelude.Exc.{Result, ok}
use eve_build.External.Float.{FloatArith}
use eve_build.External.Fixed.{fixed_point}
use eve_build.External.Memory.{memory}
use eve_build.BuildChain.Efficiency.{security_band_for_status}
use eve_build.Locations.{follow, resolve_container_chain}
use eve_build.Locations.Info.{LocationInfo}
use eve_build.Plan.Doc.{Plan, plan_id, job_doc}
use eve_build.Plan.{create_plan, get_plan, add_job, update_job_structure}
use eve_build.PlanPages.{status, from_build, handle, require, on_created, is_plan_id}
use eve_build.PlanPages.Safe.{AllSafe, IsUsable}
use eve_build.PlanPages.Blueprints.{
  Blueprint, ProductDoc, product_of, detected, add_each, on_blueprints, add_jobs_from_blueprints,
  on_detected, on_job, detect_job_structure, Call, request, from_blueprints, detect, answer,
  answer_all,
}
use eve_build.PlanPages.Blueprints.Usable.{IsSound, AllMake, answer_all-AreUsable}
use eve_build.PlanPages.Blueprints.Unchanged.{answer-Same}

abbrev Store : Type 0
Store = String → Option Plan

abbrev empty : Store
empty id = none

abbrev strip : String → String
strip name = name

abbrev copied : List Blueprint
copied = record { item_id = 5; type_id = 688; location_id = 60; runs = pos 3 } ∷ []

abbrev incursus : ProductDoc
incursus = record { product_type_id = some 594; product_quantity = none }

abbrev sde_by_type_id : ℕ → Option ProductDoc
sde_by_type_id type_id = if type_id == 688 then some incursus else none

abbrev locate : ℕ → Result (Dict ℕ (LocationInfo (FloatArith.Float fixed_point)))
locate place = ok (
    (
      place,
      record {
        name = some "Raitaru";
        security_status = some (FloatArith.literal fixed_point 3 1);
        type_id = some 35825;
      },
    )
    ∷ [])

abbrev group_of : ℕ → Option ℕ
group_of type_id = some 1404

abbrev from_copy : Call fixed_point
from_copy = from_blueprints "p" (pos 5 ∷ []) (λ k. "k") (ok copied) sde_by_type_id

abbrev detection : Call fixed_point
detection = detect "p" "k" (ok copied) (ok []) locate group_of

abbrev calls : List (ℕ × ℕ × Call fixed_point)
calls =
    (10, 7, request (from_build "p" "j" (pos 587) (pos 2) []))
    ∷ (11, 7, from_copy)
    ∷ (12, 7, detection)
    ∷ []

abbrev made : Plan
made = record {
  id = "p";
  character_id = 7;
  name = "";
  jobs =
      job_doc "j" (pos 587) (pos 2) [] none
      ∷ record {
        job_id = "k";
        target_type_id = pos 594;
        target_quantity = pos 3;
        build_set = [];
        blueprint_item_id = some (pos 5);
        has_engineering_complex = true;
        rig_tier = none;
        security_band = "low";
      }
      ∷ [];
  created_at = 10;
  updated_at = 12;
}

made-found : answer_all (memory plan_id) fixed_point strip calls empty "p" ≡ some made
unfolding answer_all answer handle require on_created is_plan_id create_plan job_doc get_plan
    add_jobs_from_blueprints on_blueprints add_each product_of add_job detect_job_structure on_job
    detected resolve_container_chain follow security_band_for_status on_detected
    update_job_structure
made-found = refl

incursus-Makes : AllMake sde_by_type_id
incursus-Makes type_id sde_doc h = elim (Bool-cases (type_id == 688)) [
  | inl here ↦
      let found : some incursus ≡ some sde_doc = rw here at h in
      let same : incursus ≡ sde_doc = ground (arith, found) in rw (← same) (omega arith)
  | inr other ↦ let never : none ≡ some sde_doc = rw other at h in absurd (ground (arith, never))
]

calls-IsSound : All (λ (c : ℕ × ℕ × Call fixed_point). IsSound c.2) calls
calls-IsSound = (tt, (((inr refl, tt), incursus-Makes), (tt, tt)))

empty-AllSafe : AllSafe (memory plan_id) empty
empty-AllSafe id doc found = absurd (cc)

answer_all-AreUsable_example : All (IsUsable (memory plan_id) fixed_point) made.jobs
answer_all-AreUsable_example =
    answer_all-AreUsable (memory plan_id) fixed_point strip calls empty calls-IsSound empty-AllSafe
      "p" made made-found

-- Another character asks for it.
abbrev stored : Store
stored id = if id == "p" then some made else none

other_refused : (answer (memory plan_id) fixed_point strip 13 8 from_copy stored).1 ≡ status 404
unfolding answer add_jobs_from_blueprints require is_plan_id get_plan
other_refused = refl

answer-Same_example :
    (answer (memory plan_id) fixed_point strip 13 8 from_copy stored).0 "p" ≡ some made
answer-Same_example =
    answer-Same (memory plan_id) stored fixed_point strip 13 8 from_copy 404 other_refused "p"
