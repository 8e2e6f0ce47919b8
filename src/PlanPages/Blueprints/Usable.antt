-- ===== src/PlanPages/Blueprints/Usable.antt =====
-- What all the requests of routes/plans.py can make of the jobs that services/build_chain.py reads.
use eve_build.Prelude.{
  ℕ, suc, ◌≡◌, refl, Bool, true, Option, none, some, List, [], ◌∷◌, String, contains, find, All,
  nat_eq, string_eq, Option-cases, inl, inr,
}
use eve_build.Prelude.Int.{ℤ, pos}
use eve_build.Prelude.Exc.{Result, ok, err}
use eve_build.External.Float.{FloatArith}
use eve_build.External.Mongo.{Collection}
use eve_build.Plan.Doc.{Job, Plan, plan_id}
use eve_build.Plan.Jobs.{has_id}
use eve_build.Plan.{owned, get_plan}
use eve_build.Plan.Ops as Ops
use eve_build.Plan.Ops.{run}
use eve_build.Plan.Invariant.{find_one-stored}
use eve_build.PlanPages.{security_bands}
use eve_build.PlanPages.Safe.{
  IsSafeJob, is_known_rig, job_doc-IsSafeJob, AllSafe, require-AllSafe, after, handle-AllSafe,
  IsUsable, AllJobs-IsUsable,
}
use eve_build.PlanPages.Blueprints.{
  Blueprint, ProductDoc, product_of, add_each, on_blueprints, add_jobs_from_blueprints, on_detected,
  on_job, detect_job_structure, Call, request, from_blueprints, detect, answer, answer_all,
}
use eve_build.PlanPages.Blueprints.Values.{
  HasRuns, Makes, product_of_positive, All-find, All-filter, detected-band,
}

abbrev pub AllRun : Result (List Blueprint) → Type 0
AllRun (err raised) = Unit
AllRun (ok blueprints) = All HasRuns blueprints

abbrev pub AllMake : (ℕ → Option ProductDoc) → Type 0
AllMake sde_by_type_id =
    (type_id : ℕ) (sde_doc : ProductDoc) → sde_by_type_id type_id ≡ some sde_doc → Makes sde_doc

-- What ESI and the SDE say of the blueprints that a call adds.
abbrev pub IsSound : {F : FloatArith} → Call F → Type 0
IsSound (request _) = Unit
IsSound (from_blueprints _ _ _ owned_blueprints sde_by_type_id) =
    AllRun owned_blueprints × AllMake sde_by_type_id
IsSound (detect _ _ _ _ _ _) = Unit

module _ (plans : Collection String Plan plan_id) (F : FloatArith) (strip : String → String) where
  open plans use {Store, get}

  module _ (now character : ℕ) where
    add_each-AllSafe :
        (id : String) (job_uuid : ℕ → String) (sde_by_type_id : ℕ → Option ProductDoc) (k : ℕ)
        (bps : List Blueprint) (s : Store)
        → AllMake sde_by_type_id
        → All HasRuns bps
        → AllSafe plans s
        → AllSafe plans (add_each plans now character id job_uuid sde_by_type_id k bps s)
    unfolding add_each run
    add_each-AllSafe id job_uuid sde_by_type_id k [] s make runs h = h
    add_each-AllSafe id job_uuid sde_by_type_id k (bp ∷ bps) s make runs h =
        elim (Option-cases (product_of sde_by_type_id bp)) [
          | inl skipped ↦
              rw (skipped, add_each)
                (add_each-AllSafe id job_uuid sde_by_type_id k bps s make runs.1 h)
          | inr (product, made) ↦
              let positive =
                product_of_positive sde_by_type_id bp product.0 product.1 runs.0 make made in
              rw (made, add_each)
                (add_each-AllSafe id job_uuid sde_by_type_id (suc k) bps _ make runs.1 (
                  after plans strip now character
                    (Ops.add id (job_uuid k) (pos product.0) product.1 [] (some (pos bp.item_id))) s
                    (job_doc-IsSafeJob (job_uuid k) (pos product.0) product.1 []
                      (some (pos bp.item_id)) positive)
                    h))
        ]

    on_blueprints-AllSafe :
        (path : String) (add : List Blueprint → Store) (s : Store) (r : Result (List Blueprint))
        → ((bps : List Blueprint) → All HasRuns bps → AllSafe plans (add bps))
        → AllRun r
        → AllSafe plans s
        → AllSafe plans (on_blueprints plans path add s r).0
    unfolding on_blueprints
    on_blueprints-AllSafe path add s (err raised) added runs h = h
    on_blueprints-AllSafe path add s (ok bps) added runs h = added bps runs

    add_jobs_from_blueprints-AllSafe :
        (id : String) (item_ids : List ℤ) (job_uuid : ℕ → String) (r : Result (List Blueprint))
        (sde_by_type_id : ℕ → Option ProductDoc) (s : Store)
        → AllRun r
        → AllMake sde_by_type_id
        → AllSafe plans s
        → AllSafe plans
            (add_jobs_from_blueprints plans now character id item_ids job_uuid r sde_by_type_id s).0
    unfolding add_jobs_from_blueprints
    add_jobs_from_blueprints-AllSafe id [] job_uuid r sde_by_type_id s runs make h =
        require-AllSafe plans _ _ s _ h (λ _. require-AllSafe plans _ _ s _ h (λ _. h))
    add_jobs_from_blueprints-AllSafe id (i ∷ rest) job_uuid r sde_by_type_id s runs make h =
        require-AllSafe plans _ _ s _ h (λ _. require-AllSafe plans _ _ s _ h (λ _.
          on_blueprints-AllSafe _ _ s r
            (λ bps each.
              add_each-AllSafe id job_uuid sde_by_type_id 0 _ s make (All-filter HasRuns _ bps each)
                h)
            runs h))

    on_detected-AllSafe :
        (id job_id : String) (job : Job) (s : Store) (r : Result (Option (Bool × String)))
        → is_known_rig job.rig_tier ≡ true
        → ((complex : Bool) (band : String)
            → r ≡ ok (some (complex, band))
            → contains band security_bands ≡ true)
        → AllSafe plans s
        → AllSafe plans (on_detected plans now character id job_id job s r).0
    unfolding on_detected run
    on_detected-AllSafe id job_id job s (err raised) rig bands h = h
    on_detected-AllSafe id job_id job s (ok none) rig bands h = h
    on_detected-AllSafe id job_id job s (ok (some (complex, band))) rig bands h =
        after plans strip now character (Ops.structure id job_id complex job.rig_tier band) s
          (λ other g. record {
            rig = rig;
            band = bands complex band refl;
            some_units = g.some_units;
          })
          h

    detect_job_structure-AllSafe :
        (id job_id : String) (owned_blueprints : _) (assets : _) (locate : _)
        (group_of : ℕ → Option ℕ) (s : Store)
        → AllSafe plans s
        → AllSafe plans
            (detect_job_structure plans F now character id job_id owned_blueprints assets locate
              group_of s).0
    unfolding detect_job_structure get_plan on_job
    detect_job_structure-AllSafe id job_id owned_blueprints assets locate group_of s h =
        require-AllSafe plans _ _ s _ h (λ _.
          elim (Option-cases (plans.find_one id (owned character) s)) [
            | inl absent ↦ rw absent h
            | inr (doc, read) ↦ elim (Option-cases (find (has_id job_id) doc.jobs)) [
              | inl missing ↦ rw (read, missing) h
              | inr (job, found) ↦
                  let stored =
                    (find_one-stored IsSafeJob plans id (owned character) s doc read).0 in
                  let safe =
                    All-find IsSafeJob (has_id job_id) doc.jobs job (h id doc stored) found in
                  rw (read, found)
                    (on_detected-AllSafe id job_id job s _ safe.rig
                      (detected-band F owned_blueprints assets locate group_of job) h)
            ]
          ])

    answer-AllSafe :
        (call : Call F) (s : Store)
        → IsSound call
        → AllSafe plans s
        → AllSafe plans (answer plans F strip now character call s).0
    unfolding answer
    answer-AllSafe (request r) s sound = handle-AllSafe plans strip now character r s
    answer-AllSafe (from_blueprints id item_ids job_uuid r sde_by_type_id) s sound =
        add_jobs_from_blueprints-AllSafe id item_ids job_uuid r sde_by_type_id s sound.0 sound.1
    answer-AllSafe (detect id job_id r assets locate group_of) s sound =
        detect_job_structure-AllSafe id job_id r assets locate group_of s

  answer_all-AllSafe :
      (calls : List (ℕ × ℕ × Call F)) (s : Store)
      → All (λ (c : ℕ × ℕ × Call F). IsSound c.2) calls
      → AllSafe plans s
      → AllSafe plans (answer_all plans F strip calls s)
  unfolding answer_all
  answer_all-AllSafe [] s sound h = h
  answer_all-AllSafe ((now, character, call) ∷ calls) s sound h =
      answer_all-AllSafe calls _ sound.1 (answer-AllSafe now character call s sound.0 h)

  -- Whatever requests other than imports come, also those that take jobs and structures from the
  -- character's blueprints: let every stored job have at least one unit, no rig but "t1" and "t2" and
  -- one of the three bands, and let a blueprint that is added from be an original or have runs
  -- left, and make at least one unit in a run. Then afterwards every job of every plan asks for at
  -- least one unit, and `structure_material_bonus` takes its structure without a `KeyError`.
  pub answer_all-AreUsable :
      (calls : List (ℕ × ℕ × Call F)) (s : Store)
      → All (λ (c : ℕ × ℕ × Call F). IsSound c.2) calls
      → AllSafe plans s
      → (id : String) (doc : Plan) → get id (answer_all plans F strip calls s) ≡ some doc
      → All (IsUsable plans F) doc.jobs
  answer_all-AreUsable calls s sound h id doc found =
      AllJobs-IsUsable plans F doc.jobs (answer_all-AllSafe calls s sound h id doc found)
