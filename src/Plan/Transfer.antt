-- ===== src/Plan/Transfer.antt =====
-- `export_plan` and `import_plan` of services/plan.py.
pub mod RoundTrip
mod Tests
use Prim.Native.String as Chars
use eve_build.Prelude.{
  ℕ, zero, suc, Bool, true, false, Option, none, some, List, [], ◌∷◌, String, if◌then◌else◌, ◌==◌,
  string_eq, get_or,
}
use eve_build.Prelude.Int.{ℤ}
use eve_build.Prelude.Exc.{Exc, value_error, key_error, type_error, Result, ok, err, ◌>>=◌, map_m}
use eve_build.External.Mongo.{Collection}
use eve_build.Plan.{get_plan}
use eve_build.Plan.Doc.{Job, Plan, plan_id, job_doc}
use eve_build.External.Json.{
  Builtins, Value, null, boolean, integer, text, array, object, Values, nil, cons, Fields, end,
  field, get_field, get_item, int_of, bool_of, iterate, values_list,
}

-- The first characters of a text, `name[:count]`.
unfoldable pub take_chars : ℕ → String → String
take_chars zero s = ""
take_chars (suc count) Chars.[] = ""
take_chars (suc count) (Chars.◌∷◌ c s) = Chars.◌∷◌ c (take_chars count s)

-- The `except` clause around the fields that a job must have.
abbrev pub or_malformed {ℓ} : {A : Type ℓ} → Result A → Result A
or_malformed (ok v) = ok v
or_malformed (err key_error) = err (value_error "Malformed job entry")
or_malformed (err type_error) = err (value_error "Malformed job entry")
or_malformed (err (value_error message)) = err (value_error "Malformed job entry")
or_malformed (err exc) = err exc

-- `repr` is the `str` of a value that is no text.
module _ (python : Builtins) (repr : Value python → String) where
  abbrev pub str_of : Value python → String
  str_of (text s) = s
  str_of value = repr value

  abbrev pub or_null : {A : Type 0} → (A → Value python) → Option A → Value python
  or_null show none = null
  or_null show (some a) = show a

  abbrev pub array_of : {A : Type 0} → (A → Value python) → List A → Values python
  array_of show [] = nil
  array_of show (x ∷ xs) = cons (show x) (array_of show xs)

  abbrev pub export_job : Job → Value python
  export_job job = object (
      field "target_type_id" (integer job.target_type_id) (
        field "target_quantity" (integer job.target_quantity) (
          field "build_set" (array (array_of integer job.build_set)) (
            field "blueprint_item_id" (or_null integer job.blueprint_item_id) (
              field "has_engineering_complex" (boolean job.has_engineering_complex) (
                field "rig_tier" (or_null text job.rig_tier)
                  (field "security_band" (text job.security_band) end)))))))

  abbrev pub export_doc : Plan → Value python
  export_doc doc =
      object
        (field "name" (text doc.name) (field "jobs" (array (array_of export_job doc.jobs)) end))

  -- `none` is a missing field, as in `job.get("blueprint_item_id")`.
  abbrev pub blueprint_of : Option (Value python) → Result (Option ℤ)
  blueprint_of none = ok none
  blueprint_of (some null) = ok none
  blueprint_of (some value) = int_of python value >>= λ id. ok (some id)

  abbrev pub rig_of : Option (Value python) → Option String
  rig_of none = none
  rig_of (some null) = none
  rig_of (some value) = some (str_of value)

  abbrev pub band_of : Value python → Result String
  band_of (text band) = ok band
  band_of value = err (value_error "security_band must be a string")

  abbrev pub required_fields : Fields python → Result (ℤ × ℤ × List ℤ)
  required_fields job = do
    target_type_id ← get_item python "target_type_id" job >>= int_of python
    target_quantity ← get_item python "target_quantity" job >>= int_of python
    build_set ← get_item python "build_set" job >>= iterate python >>= map_m (int_of python)
    ok (target_type_id, target_quantity, build_set)

  -- `uuid` is the result of `uuid.uuid4()`.
  unfoldable pub job_doc_from_import : String → Value python → Result Job
  job_doc_from_import uuid (object job) = do
    (target_type_id, target_quantity, build_set) ← or_malformed (required_fields job)
    blueprint_item_id ← blueprint_of (get_field python "blueprint_item_id" job)
    security_band ← band_of (get_or (get_field python "security_band" job) (text "high"))
    let doc = job_doc uuid target_type_id target_quantity build_set blueprint_item_id
    ok (record doc {
      has_engineering_complex =
          bool_of python (get_or (get_field python "has_engineering_complex" job) (boolean false));
      rig_tier = rig_of (get_field python "rig_tier" job);
      security_band = security_band;
    })
  job_doc_from_import uuid value = err (value_error "Each job must be an object")

  -- The job at a position gets the identifier of that position.
  unfoldable pub import_jobs : (ℕ → String) → ℕ → List (Value python) → Result (List Job)
  import_jobs job_uuid position [] = ok []
  import_jobs job_uuid position (value ∷ values) = do
    job ← job_doc_from_import (job_uuid position) value
    jobs ← import_jobs job_uuid (suc position) values
    ok (job ∷ jobs)

  abbrev pub name_of : Value python → Result String
  name_of (text name) = ok name
  name_of value = err (value_error "name must be a string")

  abbrev pub jobs_of : Option (Value python) → Result (List (Value python))
  jobs_of (some (array (cons job jobs))) = ok (job ∷ values_list python jobs)
  jobs_of value = err (value_error "jobs must be a non-empty list")

  -- What is checked before anything is stored: the name and the jobs.
  unfoldable pub read_plan : (ℕ → String) → Value python → Result (String × List Job)
  read_plan job_uuid (object fields) = do
    name ← name_of (get_or (get_field python "name" fields) (text ""))
    raw_jobs ← jobs_of (get_field python "jobs" fields)
    jobs ← import_jobs job_uuid 0 raw_jobs
    ok (name, jobs)
  read_plan job_uuid value = err (value_error "Plan data must be an object")

  module _ (plans : Collection String Plan plan_id) where
    open plans use {Store, insert_one}

    unfoldable pub export_plan : String → ℕ → Store → Option (Value python)
    export_plan id character_id s = elim (get_plan plans id character_id s) [
      | none ↦ none
      | some doc ↦ some (export_doc doc)
    ]

    unfoldable pub import_plan :
        String → (ℕ → String) → ℕ → ℕ → Value python → Store → Result (String × Store)
    import_plan uuid job_uuid now character_id value s = do
      (name, jobs) ← read_plan job_uuid value
      s' ←
          insert_one
            (record {
              id = uuid;
              character_id = character_id;
              name = take_chars 100 name;
              jobs = jobs;
              created_at = now;
              updated_at = now;
            })
            s
      ok (uuid, s')
