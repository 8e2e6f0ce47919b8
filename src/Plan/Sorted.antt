-- ===== src/Plan/Sorted.antt =====
-- Every stored build set of services/plan.py is sorted and free of repetition.
use eve_build.Prelude.{
  ℕ, ◌≡◌, Bool, true, false, not, Option, none, some, List, ◌∷◌, String, filter, nat_eq, string_eq,
  All,
}
use eve_build.Prelude.Int.{ℤ, int_beq}
use eve_build.Prelude.SortedSet.{IsAscending, sorted_set-IsAscending}
use eve_build.External.Mongo.{Collection}
use eve_build.Plan.Doc.{Job, Plan, plan_id, job_doc}
use eve_build.Plan.Jobs.{flagged}
use eve_build.Plan.{}
use eve_build.Plan.Invariant.{Allows, run-AllPlans}
use eve_build.Plan.Ops.{
  Op, create, create_empty, add, quantity, flag, structure, all_structures, all_flags, remove,
  rename, delete, run,
}

abbrev pub IsSortedJob : Job → Type 0
IsSortedJob job = IsAscending job.build_set

abbrev pub AreSorted : List Job → Type 0
AreSorted = All IsSortedJob

job_doc-IsSortedJob :
    (uuid : String) (type n : ℤ) (build_set : List ℤ) (blueprint : Option ℤ)
    → IsSortedJob (job_doc uuid type n build_set blueprint)
unfolding job_doc
job_doc-IsSortedJob uuid type n build_set blueprint = sorted_set-IsAscending build_set

flagged-IsAscending : (type : ℤ) (build : Bool) (l : List ℤ) → IsAscending (flagged type build l)
flagged-IsAscending type true l = sorted_set-IsAscending (type ∷ l)
flagged-IsAscending type false l = sorted_set-IsAscending (filter (λ t. not (int_beq t type)) l)

module _ (plans : Collection String Plan plan_id) where
  open plans use {Store, get}

  abbrev pub AllSorted : Store → Type 0
  AllSorted s = (j : String) (doc : Plan) → get j s ≡ some doc → AreSorted doc.jobs

  allows : (op : Op) → Allows IsSortedJob op
  allows (create uuid job_uuid type n build_set) =
      job_doc-IsSortedJob job_uuid type n build_set none
  allows (create_empty uuid) = tt
  allows (add id job_uuid type n build_set blueprint) =
      job_doc-IsSortedJob job_uuid type n build_set blueprint
  allows (quantity id job_id n) = λ i g. g
  allows (flag id job_id type build) = λ i l g. flagged-IsAscending type build l
  allows (structure id job_id complex rig band) = λ i g. g
  allows (all_structures id complex rig band) = λ i g. g
  allows (all_flags id type build) = λ i l g. flagged-IsAscending type build l
  allows (remove id job_id) = tt
  allows (rename id name) = tt
  allows (delete id) = tt

  module _ (character now : ℕ) where
    -- Every call keeps every stored build set in ascending order and free of repetition.
    pub run-AllSorted :
        (op : Op) (s : Store) → AllSorted s → AllSorted (run plans now character op s)
    run-AllSorted op s = run-AllPlans IsSortedJob plans character now op s (allows op)
