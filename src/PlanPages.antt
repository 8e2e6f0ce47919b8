-- ===== src/PlanPages.antt =====
-- routes/plans.py: the requests that change plans, over services/plan.py; those that look at the
-- character's blueprints are in Blueprints. A request has passed `get_current_character`; `now`,
-- `uuid` and `job_uuid` are as in Plan, `build_set` is the set that a request names. The pages
-- themselves are HTML.
pub mod Blueprints
pub mod Safe
pub mod Refused
mod Tests
use Prim.Native.String as Chars
use Prim.Native.Char.{Char, code}
use eve_build.Prelude.{
  ℕ, suc, Bool, true, false, not, ◌&&◌, ◌||◌, Option, none, some, List, [], ◌∷◌, String,
  if◌then◌else◌, ◌==◌, nat_eq, string_eq, leb, contains,
}
use eve_build.Prelude.Int.{ℤ, pos, int_ltb}
use eve_build.Prelude.Text.{append}
use eve_build.Prelude.Exc.{Exc, value_error, Result, ok, err}
use eve_build.External.Json.{Builtins, Value}
use eve_build.External.Mongo.{Collection}
use eve_build.Plan.Doc.{Plan, plan_id}
use eve_build.Plan.{
  create_plan, create_empty_plan, add_job, update_job_quantity, update_job_build_flag,
  update_job_structure, set_structure_for_all_jobs, set_build_flag_for_all_jobs, remove_job,
  rename_plan, delete_plan,
}
use eve_build.Plan.Transfer.{import_plan}

-- A redirect to a path, an HTTP error that the handler or FastAPI answers, or an exception that
-- becomes an internal error.
pub data Answer : Type 0 where
  redirect : String → Answer
  status : ℕ → Answer
  failed : Exc → Answer

-- `[A-Za-z0-9_-]`
abbrev is_id_char : Char → Bool
is_id_char c =
    (leb 65 (code c) && leb (code c) 90)
    || (leb 97 (code c) && leb (code c) 122)
    || (leb 48 (code c) && leb (code c) 57)
    || code c == 95
    || code c == 45

abbrev all_id_chars : String → Bool
all_id_chars Chars.[] = true
all_id_chars (Chars.◌∷◌ c s) = is_id_char c && all_id_chars s

-- `_PLAN_ID_RE.fullmatch(text)`
unfoldable pub is_plan_id : String → Bool
is_plan_id text = not (text == "") && all_id_chars text

abbrev pub rig_tiers : List String
rig_tiers = "t1" ∷ "t2" ∷ []

abbrev pub security_bands : List String
security_bands = "high" ∷ "low" ∷ "null_wh" ∷ []

unfoldable pub normalized_rig_tier : String → Option String
normalized_rig_tier rig_tier = if contains rig_tier rig_tiers then some rig_tier else none

unfoldable pub plan_path : String → String
plan_path id = append "/plans/" id

abbrev text_length : String → ℕ
text_length Chars.[] = 0
text_length (Chars.◌∷◌ c s) = suc (text_length s)

-- The requests, with what their paths and queries say.
pub data Request : Type 0 where
  from_build : String → String → ℤ → ℤ → List ℤ → Request
  new : String → Request
  add : String → String → ℤ → ℤ → List ℤ → Request
  quantity : String → String → ℤ → Request
  structure : String → String → Bool → String → String → Request
  all_structures : String → Bool → String → String → Request
  flag : String → String → ℤ → Bool → Request
  all_flags : String → ℤ → Bool → Request
  remove : String → String → Request
  rename : String → String → Request
  delete : String → Request

module _ (plans : Collection String Plan plan_id) where
  open plans use {Store}

  -- `raise HTTPException(code)` unless the test holds.
  unfoldable pub require : Bool → ℕ → Store → Store × Answer → Store × Answer
  require test code s rest = if test then rest else (s, status code)

  -- What a handler answers to a call that tells whether it matched.
  unfoldable pub or_404 : String → Store × Bool → Store × Answer
  or_404 path (s, true) = (s, redirect path)
  or_404 path (s, false) = (s, status 404)

  unfoldable pub on_created : (String → String) → Store → Result (String × Store) → Store × Answer
  on_created path s (ok (id, s')) = (s', redirect (path id))
  on_created path s (err exc) = (s, failed exc)

  unfoldable pub on_added : String → Store × Option String → Store × Answer
  on_added path (s, some job_id) = (s, redirect path)
  on_added path (s, none) = (s, status 404)

  -- A plan that is not found, and a job that cannot be removed.
  unfoldable pub on_removed : String → Store × Option Bool → Store × Answer
  on_removed path (s, none) = (s, status 404)
  on_removed path (s, some false) = (s, status 400)
  on_removed path (s, some true) = (s, redirect path)

  abbrev pub at_least_one : ℤ → Bool
  at_least_one qty = not (int_ltb qty (pos 1))

  -- The handlers. `strip` is `str.strip`.
  abbrev pub create_plan_from_build :
      ℕ → ℕ → String → String → ℤ → ℤ → List ℤ → Store → Store × Answer
  create_plan_from_build now character uuid job_uuid type_id qty build_set s =
      require (at_least_one qty) 422 s (
        on_created plan_path s
          (create_plan plans uuid job_uuid now character type_id qty build_set s))

  abbrev pub new_plan : ℕ → ℕ → String → Store → Store × Answer
  new_plan now character uuid s =
      on_created (λ id. append (plan_path id) "/add-from-blueprints") s
        (create_empty_plan plans uuid now character s)

  abbrev pub add_job_to_plan : ℕ → ℕ → String → String → ℤ → ℤ → List ℤ → Store → Store × Answer
  add_job_to_plan now character id job_uuid type_id qty build_set s =
      require (at_least_one qty) 422 s (
        require (is_plan_id id) 400 s (
          on_added (plan_path id)
            (add_job plans job_uuid now id character type_id qty build_set none s)))

  abbrev pub quantity_request : ℕ → ℕ → String → String → ℤ → Store → Store × Answer
  quantity_request now character id job_id qty s = require (at_least_one qty) 422 s (
      require (is_plan_id id && is_plan_id job_id) 400 s
        (or_404 (plan_path id) (update_job_quantity plans now id character job_id qty s)))

  abbrev pub set_job_structure :
      ℕ → ℕ → String → String → Bool → String → String → Store → Store × Answer
  set_job_structure now character id job_id complex rig_tier security_band s =
      require (is_plan_id id && is_plan_id job_id && contains security_band security_bands) 400 s (
        or_404 (plan_path id) (
          update_job_structure plans now id character job_id complex (normalized_rig_tier rig_tier)
            security_band s))

  abbrev pub set_plan_structure : ℕ → ℕ → String → Bool → String → String → Store → Store × Answer
  set_plan_structure now character id complex rig_tier security_band s =
      require (is_plan_id id && contains security_band security_bands) 400 s (
        or_404 (plan_path id) (
          set_structure_for_all_jobs plans now id character complex (normalized_rig_tier rig_tier)
            security_band s))

  abbrev pub set_job_build_flag : ℕ → ℕ → String → String → ℤ → Bool → Store → Store × Answer
  set_job_build_flag now character id job_id type_id build s =
      require (is_plan_id id && is_plan_id job_id) 400 s (
        or_404 (plan_path id) (update_job_build_flag plans now id character job_id type_id build s))

  abbrev pub set_material_build_flag_for_all_jobs :
      ℕ → ℕ → String → ℤ → Bool → Store → Store × Answer
  set_material_build_flag_for_all_jobs now character id type_id build s =
      require (is_plan_id id) 400 s
        (or_404 (plan_path id) (set_build_flag_for_all_jobs plans now id character type_id build s))

  abbrev pub remove_job_from_plan : ℕ → ℕ → String → String → Store → Store × Answer
  remove_job_from_plan now character id job_id s =
      require (is_plan_id id) 400 s
        (on_removed (plan_path id) (remove_job plans now id character job_id s))

  abbrev pub rename_request : (String → String) → ℕ → ℕ → String → String → Store → Store × Answer
  rename_request strip now character id name s = require (leb (text_length name) 100) 422 s (
      require (is_plan_id id) 400 s
        (or_404 (plan_path id) (rename_plan plans now id character (strip name) s)))

  abbrev pub delete_request : ℕ → ℕ → String → Store → Store × Answer
  delete_request now character id s =
      require (is_plan_id id) 400 s (or_404 "/plans" (delete_plan plans id character s))

  unfoldable pub handle : (String → String) → ℕ → ℕ → Request → Store → Store × Answer
  handle strip now character (from_build uuid job_uuid type_id qty build_set) =
      create_plan_from_build now character uuid job_uuid type_id qty build_set
  handle strip now character (new uuid) = new_plan now character uuid
  handle strip now character (add id job_uuid type_id qty build_set) =
      add_job_to_plan now character id job_uuid type_id qty build_set
  handle strip now character (quantity id job_id qty) = quantity_request now character id job_id qty
  handle strip now character (structure id job_id complex rig_tier security_band) =
      set_job_structure now character id job_id complex rig_tier security_band
  handle strip now character (all_structures id complex rig_tier security_band) =
      set_plan_structure now character id complex rig_tier security_band
  handle strip now character (flag id job_id type_id build) =
      set_job_build_flag now character id job_id type_id build
  handle strip now character (all_flags id type_id build) =
      set_material_build_flag_for_all_jobs now character id type_id build
  handle strip now character (remove id job_id) = remove_job_from_plan now character id job_id
  handle strip now character (rename id name) = rename_request strip now character id name
  handle strip now character (delete id) = delete_request now character id

  -- Requests one after the other, each at its time and by its character.
  unfoldable pub handle_all : (String → String) → List (ℕ × ℕ × Request) → Store → Store
  handle_all strip [] s = s
  handle_all strip ((now, character, request) ∷ requests) s =
      handle_all strip requests (handle strip now character request s).0

  -- `except ValueError`
  abbrev on_import_error : Store → Exc → Store × Answer
  on_import_error s (value_error message) = (s, status 400)
  on_import_error s exc = (s, failed exc)

  -- `import_plan`; `body` is what `json.loads` gives, if it is JSON.
  unfoldable pub import_request :
      (python : Builtins)
      → (Value python → String)
      → String
      → (ℕ → String)
      → ℕ
      → ℕ
      → Option (Value python)
      → Store
      → Store × Answer
  import_request python repr uuid job_uuid now character none s = (s, status 400)
  import_request python repr uuid job_uuid now character (some value) s =
      elim (import_plan python repr plans uuid job_uuid now character value s) [
        | ok created ↦ (created.1, redirect (plan_path created.0))
        | err exc ↦ on_import_error s exc
      ]
