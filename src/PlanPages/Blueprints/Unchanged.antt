-- ===== src/PlanPages/Blueprints/Unchanged.antt =====
-- A request of routes/plans.py that is refused, whichever it is.
use eve_build.Prelude.{
  ℕ, ◌≡◌, refl, Bool, Option, none, some, List, [], ◌∷◌, String, find, string_eq, arith,
  Option-cases, inl, inr,
}
use eve_build.Prelude.Exc.{Result, ok, err}
use eve_build.External.Float.{FloatArith}
use eve_build.External.Mongo.{Collection}
use eve_build.Plan.Doc.{Job, Plan, plan_id}
use eve_build.Plan.Jobs.{has_id}
use eve_build.Plan.{owned, get_plan}
use eve_build.PlanPages.{status}
use eve_build.PlanPages.Refused.{IsRefusal, require-IsRefusal, handle-Same}
use eve_build.PlanPages.Blueprints.{
  Blueprint, on_blueprints, add_jobs_from_blueprints, on_detected, on_job, detect_job_structure,
  Call, request, from_blueprints, detect, answer,
}

module _ (plans : Collection String Plan plan_id) (s : Collection.Store plans) where
  open plans use {Store, get}

  on_blueprints-IsRefusal :
      (path : String) (add : List Blueprint → Store) (r : Result (List Blueprint))
      → IsRefusal plans s (on_blueprints plans path add s r)
  unfolding on_blueprints
  on_blueprints-IsRefusal path add (err raised) = λ code e. absurd (ground (arith, e))
  on_blueprints-IsRefusal path add (ok bps) = λ code e. absurd (ground (arith, e))

  on_detected-IsRefusal :
      (now character : ℕ) (id job_id : String) (job : Job) (r : Result (Option (Bool × String)))
      → IsRefusal plans s (on_detected plans now character id job_id job s r)
  unfolding on_detected
  on_detected-IsRefusal now character id job_id job (err raised) =
      λ code e. absurd (ground (arith, e))
  on_detected-IsRefusal now character id job_id job (ok none) = λ code e. absurd (ground (arith, e))
  on_detected-IsRefusal now character id job_id job (ok (some (complex, band))) =
      λ code e. absurd (ground (arith, e))

  module _ (F : FloatArith) (strip : String → String) (now character : ℕ) where
    -- A request that is answered with an HTTP error, because FastAPI or the handler refuses an
    -- argument or because there is no such plan or job of the character, changes no plan.
    pub answer-Same :
        (call : Call F) (code : ℕ)
        → (answer plans F strip now character call s).1 ≡ status code
        → (j : String) → get j (answer plans F strip now character call s).0 ≡ get j s
    unfolding answer add_jobs_from_blueprints detect_job_structure get_plan on_job
    answer-Same (request r) = handle-Same plans s now character strip r
    answer-Same (from_blueprints id [] job_uuid owned_blueprints sde_by_type_id) =
        require-IsRefusal plans s _ _ _
          (require-IsRefusal plans s _ _ _ (λ code e. absurd (ground (arith, e))))
    answer-Same (from_blueprints id (i ∷ rest) job_uuid owned_blueprints sde_by_type_id) =
        require-IsRefusal plans s _ _ _
          (require-IsRefusal plans s _ _ _ (on_blueprints-IsRefusal _ _ owned_blueprints))
    answer-Same (detect id job_id owned_blueprints assets locate group_of) =
        require-IsRefusal plans s _ _ _
          (elim (Option-cases (plans.find_one id (owned character) s)) [
            | inl absent ↦ rw absent (λ _ _ j. refl)
            | inr (doc, read) ↦ elim (Option-cases (find (has_id job_id) doc.jobs)) [
              | inl missing ↦ rw (read, missing) (λ _ _ j. refl)
              | inr (job, found) ↦
                  rw (read, found) (on_detected-IsRefusal now character id job_id job _)
            ]
          ])
