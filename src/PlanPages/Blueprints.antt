-- ===== src/PlanPages/Blueprints.antt =====
-- routes/plans.py: the two requests that look at what the character owns, `add_jobs_from_blueprints`
-- and `detect_job_structure`. What the merged lists, the SDE and `resolve_location_info` give at that
-- time are arguments; ids in them are natural numbers.
pub mod Values
pub mod Usable
pub mod Unchanged
mod Tests
use eve_build.Prelude.{
  ℕ, suc, ◌*◌, ◌-◌, Bool, false, ◌&&◌, Option, none, some, List, [], ◌∷◌, String, ◌==◌,
  if◌then◌else◌, nat_eq, string_eq, contains, filter, find, is_some, get_or,
}
use eve_build.Prelude.Dict.{Dict, lookup}
use eve_build.Prelude.Int.{ℤ, pos, negsuc, int_beq, int_eq}
use eve_build.Prelude.Exc.{Result, ok, err, ◌>>=◌}
use eve_build.External.Float.{FloatArith}
use eve_build.External.Mongo.{Collection}
use eve_build.BuildChain.Efficiency.{security_band_for_status}
use eve_build.Cache.Documents.{add_docs}
use eve_build.Locations.{AssetEntry, resolve_container_chain}
use eve_build.Locations.Info.{LocationInfo}
use eve_build.Plan.Doc.{Job, Plan, plan_id}
use eve_build.Plan.Jobs.{has_id}
use eve_build.Plan.{get_plan, add_job, update_job_structure}
use eve_build.PlanPages.{
  Answer, redirect, status, failed, is_plan_id, plan_path, require, Request, handle,
}

-- What is read of a blueprint that the character or its corporation owns.
pub record Blueprint : Type 0 where
  pub item_id : ℕ
  pub type_id : ℕ
  pub location_id : ℕ
  pub runs : ℤ

-- What is read of a document of `sde_blueprints`.
pub record ProductDoc : Type 0 where
  pub product_type_id : Option ℕ
  pub product_quantity : Option ℕ

-- `*` of an integer that is not negative.
abbrev pub multiplied : ℕ → ℤ → ℤ
multiplied quantity (pos n) = pos (quantity * n)
multiplied quantity (negsuc n) = if quantity == 0 then pos 0 else negsuc (quantity * suc n - 1)

-- The product and how much of it the runs that are left make; `none` skips the blueprint.
unfoldable pub product_of : (ℕ → Option ProductDoc) → Blueprint → Option (ℕ × ℤ)
product_of sde_by_type_id bp = elim (sde_by_type_id bp.type_id) [
  | none ↦ none
  | some sde_doc ↦ elim sde_doc.product_type_id [
    | none ↦ none
    | some product_type_id ↦
        let runs_remaining = if int_beq bp.runs (negsuc 0) then pos 1 else bp.runs in
        some (product_type_id, multiplied (get_or sde_doc.product_quantity 1) runs_remaining)
  ]
]

abbrev pub engineering_complex_group_id : ℕ
engineering_complex_group_id = 1404

abbrev pub is_engineering_complex : Option ℕ → Bool
is_engineering_complex none = false
is_engineering_complex (some group_id) = group_id == engineering_complex_group_id

-- `if blueprint_item_id:`
abbrev pub linked : Option ℤ → Option ℤ
linked none = none
linked (some item_id) = if int_beq item_id (pos 0) then none else some item_id

module _ (F : FloatArith) where
  open F use {Float, of_ℕ}

  -- Whether it is an engineering complex, and the band.
  abbrev pub structure_of : (ℕ → Option ℕ) → Option (LocationInfo Float) → Option (Bool × String)
  structure_of group_of none = none
  structure_of group_of (some info) = elim info.type_id [
    | none ↦ none
    | some type_id ↦ some (
      is_engineering_complex (group_of type_id),
      security_band_for_status F (get_or info.security_status (of_ℕ 1)),
    )
  ]

  -- `none` is a location that the loop over the containers does not find within its fuel.
  abbrev pub at_place :
      (ℕ → Result (Dict ℕ (LocationInfo Float)))
      → (ℕ → Option ℕ)
      → Option ℕ
      → Result (Option (Bool × String))
  at_place locate group_of none = ok none
  at_place locate group_of (some place) =
      locate place >>= λ infos. ok (structure_of group_of (lookup place infos))

  abbrev pub at_blueprint :
      Result (List AssetEntry)
      → (ℕ → Result (Dict ℕ (LocationInfo Float)))
      → (ℕ → Option ℕ)
      → Option Blueprint
      → Result (Option (Bool × String))
  at_blueprint assets locate group_of none = ok none
  at_blueprint assets locate group_of (some bp) = assets >>= λ entries.
      at_place locate group_of
        (resolve_container_chain bp.location_id (add_docs (λ asset. asset.item_id) entries []))

  -- What is detected, `none` where the settings are left as they are.
  unfoldable pub detected :
      Result (List Blueprint)
      → Result (List AssetEntry)
      → (ℕ → Result (Dict ℕ (LocationInfo Float)))
      → (ℕ → Option ℕ)
      → Job
      → Result (Option (Bool × String))
  detected owned assets locate group_of job = elim (linked job.blueprint_item_id) [
    | none ↦ ok none
    | some item_id ↦ owned >>= λ blueprints.
        at_blueprint assets locate group_of
          (find (λ bp. int_beq (pos bp.item_id) item_id) blueprints)
  ]

module _ (plans : Collection String Plan plan_id) where
  open plans use {Store}

  -- The loop; `job_uuid k` is the `uuid.uuid4()` of the job that is added after `k` others.
  unfoldable pub add_each :
      ℕ → ℕ → String → (ℕ → String) → (ℕ → Option ProductDoc) → ℕ → List Blueprint → Store → Store
  add_each now character id job_uuid sde_by_type_id k [] s = s
  add_each now character id job_uuid sde_by_type_id k (bp ∷ bps) s =
      elim (product_of sde_by_type_id bp) [
        | none ↦ add_each now character id job_uuid sde_by_type_id k bps s
        | some (product_type_id, quantity) ↦
            add_each now character id job_uuid sde_by_type_id (suc k) bps
              (add_job plans (job_uuid k) now id character (pos product_type_id) quantity []
                (some (pos bp.item_id)) s).0
      ]

  unfoldable pub on_blueprints :
      String → (List Blueprint → Store) → Store → Result (List Blueprint) → Store × Answer
  on_blueprints path add s (err exc) = (s, failed exc)
  on_blueprints path add s (ok blueprints) = (add blueprints, redirect path)

  unfoldable pub add_jobs_from_blueprints :
      ℕ
      → ℕ
      → String
      → List ℤ
      → (ℕ → String)
      → Result (List Blueprint)
      → (ℕ → Option ProductDoc)
      → Store
      → Store × Answer
  add_jobs_from_blueprints now character id item_ids job_uuid owned sde_by_type_id s =
      require plans (is_plan_id id) 400 s (
        require plans (is_some (get_plan plans id character s)) 404 s (elim item_ids [
          | [] ↦ (s, redirect (plan_path id))
          | item_id ∷ rest ↦
              on_blueprints (plan_path id)
                (λ blueprints.
                  add_each now character id job_uuid sde_by_type_id 0
                    (filter (λ bp. contains (pos bp.item_id) (item_id ∷ rest)) blueprints) s)
                s owned
        ]))

  unfoldable pub on_detected :
      ℕ → ℕ → String → String → Job → Store → Result (Option (Bool × String)) → Store × Answer
  on_detected now character id job_id job s (err exc) = (s, failed exc)
  on_detected now character id job_id job s (ok none) = (s, redirect (plan_path id))
  on_detected now character id job_id job s (ok (some (has_engineering_complex, security_band))) = (
    (update_job_structure plans now id character job_id has_engineering_complex job.rig_tier
        security_band s).0,
    redirect (plan_path id),
  )

  unfoldable pub on_job : (Job → Store × Answer) → Store → Option Job → Store × Answer
  on_job detect s none = (s, status 404)
  on_job detect s (some job) = detect job

  unfoldable pub detect_job_structure :
      (F : FloatArith)
      → ℕ
      → ℕ
      → String
      → String
      → Result (List Blueprint)
      → Result (List AssetEntry)
      → (ℕ → Result (Dict ℕ (LocationInfo (FloatArith.Float F))))
      → (ℕ → Option ℕ)
      → Store
      → Store × Answer
  detect_job_structure F now character id job_id owned assets locate group_of s =
      require plans (is_plan_id id && is_plan_id job_id) 400 s
        (elim (get_plan plans id character s) [
          | none ↦ (s, status 404)
          | some doc ↦
              on_job
                (λ job.
                  on_detected now character id job_id job s
                    (detected F owned assets locate group_of job))
                s (find (has_id job_id) doc.jobs)
        ])

-- Every request that changes plans, but for the import.
pub data Call (F : FloatArith) : Type 0 where
  request : Request → Call F
  from_blueprints :
      String → List ℤ → (ℕ → String) → Result (List Blueprint) → (ℕ → Option ProductDoc) → Call F
  detect :
      String
      → String
      → Result (List Blueprint)
      → Result (List AssetEntry)
      → (ℕ → Result (Dict ℕ (LocationInfo (FloatArith.Float F))))
      → (ℕ → Option ℕ)
      → Call F

module _ (plans : Collection String Plan plan_id) (F : FloatArith) (strip : String → String) where
  open plans use {Store}

  unfoldable pub answer : ℕ → ℕ → Call F → Store → Store × Answer
  answer now character (request r) = handle plans strip now character r
  answer now character (from_blueprints id item_ids job_uuid owned sde_by_type_id) =
      add_jobs_from_blueprints plans now character id item_ids job_uuid owned sde_by_type_id
  answer now character (detect id job_id owned assets locate group_of) =
      detect_job_structure plans F now character id job_id owned assets locate group_of

  -- Calls one after the other, each at its time and by its character.
  unfoldable pub answer_all : List (ℕ × ℕ × Call F) → Store → Store
  answer_all [] s = s
  answer_all ((now, character, call) ∷ calls) s = answer_all calls (answer now character call s).0
