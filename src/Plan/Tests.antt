-- ===== src/Plan/Tests.antt =====
-- Calls of services/plan.py on two plans in memory, and each theorem at a concrete input.
use eve_build.Prelude.{
  ℕ, ◌≡◌, refl, Bool, true, false, Option, none, some, [], ◌∷◌, String, if◌then◌else◌, ◌==◌,
  string_eq, nat_eq, arith,
}
use eve_build.Prelude.Int.{pos}
use eve_build.External.Memory.{memory}
use eve_build.Plan.Doc.{Job, Plan, plan_id}
use eve_build.Plan.Ops.{Op, flag, delete, run}
use eve_build.Plan.Owner.{run-Leaves}
use eve_build.Plan.Sorted.{AllSorted, AreSorted, run-AllSorted}

abbrev job : Job
job = record {
  job_id = "j";
  target_type_id = pos 10;
  target_quantity = pos 4;
  build_set = pos 20 ∷ pos 30 ∷ [];
  blueprint_item_id = none;
  has_engineering_complex = false;
  rig_tier = none;
  security_band = "high";
}

abbrev plan : String → ℕ → Plan
plan id character = record {
  id = id;
  character_id = character;
  name = "";
  jobs = job ∷ [];
  created_at = 0;
  updated_at = 0;
}

-- Character 1 has the document `a`, and character 2 has `b`.
abbrev plans : String → Option Plan
plans id = if id == "a" then some (plan "a" 1) else (if id == "b" then some (plan "b" 2) else none)

abbrev after : Op → String → Option Plan
after op = run (memory plan_id) 7 1 op plans

run-Leaves_example : after (delete "b") "b" ≡ some (plan "b" 2)
run-Leaves_example = run-Leaves (memory plan_id) 1 7 (delete "b") plans "b" (plan "b" 2) refl refl

when-AreSorted :
    (b c : Bool) (doc : Plan)
    → (if b then some (plan "a" 1) else (if c then some (plan "b" 2) else none)) ≡ some doc
    → AreSorted doc.jobs
when-AreSorted true c doc e =
    let same : plan "a" 1 ≡ doc = ground arith in rw (← same) ((refl, tt), tt)
when-AreSorted false true doc e =
    let same : plan "b" 2 ≡ doc = ground arith in rw (← same) ((refl, tt), tt)
when-AreSorted false false doc e = absurd (ground arith)

plans-AllSorted : AllSorted (memory plan_id) plans
plans-AllSorted j doc e = when-AreSorted (j == "a") (j == "b") doc e

run-AllSorted_example : AllSorted (memory plan_id) (after (flag "a" "j" (pos 15) true))
run-AllSorted_example =
    run-AllSorted (memory plan_id) 1 7 (flag "a" "j" (pos 15) true) plans plans-AllSorted
