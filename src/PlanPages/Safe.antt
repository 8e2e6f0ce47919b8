-- ===== src/PlanPages/Safe.antt =====
-- What the requests of routes/plans.py can make of the jobs that services/build_chain.py reads.
use eve_build.Prelude.{
  ℕ, ◌≡◌, refl, Bool, true, false, Option, none, some, List, [], ◌∷◌, String, contains, ◌==◌, All,
  Option-cases, string_eq, arith, Bool-cases, inl, inr, ◌∙◌,
}
use eve_build.Prelude.Dict.{eq_of_beq}
use eve_build.Prelude.Int.{ℤ, pos, int_ltb}
use eve_build.Prelude.Exc.{Result, ok, err, is_ok}
use eve_build.External.Float.{FloatArith}
use eve_build.External.Mongo.{Collection}
use eve_build.BuildChain.Efficiency.{structure_material_bonus}
use eve_build.BuildChain.Efficiency.Laws.{structure_material_bonus-Returns}
use eve_build.Plan.Doc.{Job, Plan, plan_id, job_doc}
use eve_build.Plan.{}
use eve_build.Plan.Ops as Ops
use eve_build.Plan.Ops.{kept, run}
use eve_build.Plan.Jobs.{flagged, with_structure}
use eve_build.Plan.Invariant.{AllJobs, AllPlans, Allows, run-AllPlans}
use eve_build.PlanPages.{
  Answer, rig_tiers, security_bands, normalized_rig_tier, Request, from_build, new, add, quantity,
  structure, all_structures, flag, all_flags, remove, rename, delete, require, or_404, on_created,
  on_added, on_removed, at_least_one, handle, handle_all,
}

abbrev pub is_known_rig : Option String → Bool
is_known_rig none = true
is_known_rig (some rig_tier) = contains rig_tier rig_tiers

-- At least one unit, and a structure that the discounts know.
pub record IsSafeJob (job : Job) : Type 0 where
  pub rig : is_known_rig job.rig_tier ≡ true
  pub band : contains job.security_band security_bands ≡ true
  pub some_units : int_ltb job.target_quantity (pos 1) ≡ false

normalized_rig_tier-known : (rig_tier : String) → is_known_rig (normalized_rig_tier rig_tier) ≡ true
unfolding normalized_rig_tier
normalized_rig_tier-known rig_tier = elim (Bool-cases (contains rig_tier rig_tiers)) [
  | inl known ↦ rw (known, normalized_rig_tier) known
  | inr other ↦ rw (other, normalized_rig_tier)
]

known_named : (rig_tier : String) → contains rig_tier rig_tiers ≡ true → (rig_tier == "") ≡ false
known_named rig_tier known = elim (Bool-cases (rig_tier == "")) [
  | inl empty ↦
      let e : rig_tier ≡ "" = eq_of_beq rig_tier "" empty in
      let never : contains "" rig_tiers ≡ true = rw e at known in absurd (cc)
  | inr named ↦ named
]

pub job_doc-IsSafeJob :
    (uuid : String) (type n : ℤ) (build_set : List ℤ) (blueprint : Option ℤ)
    → int_ltb n (pos 1) ≡ false
    → IsSafeJob (job_doc uuid type n build_set blueprint)
unfolding job_doc
job_doc-IsSafeJob uuid type n build_set blueprint h = record {
  rig = refl;
  band = refl;
  some_units = h;
}

with_structure-IsSafeJob :
    (complex : Bool) (rig_tier band : String)
    → contains band security_bands ≡ true
    → (job : Job) → IsSafeJob job
    → IsSafeJob (with_structure complex (normalized_rig_tier rig_tier) band job)
with_structure-IsSafeJob complex rig_tier band known job h = record {
  rig = normalized_rig_tier-known rig_tier;
  band = known;
  some_units = h.some_units;
}

same_structure :
    (type : ℤ) (build : Bool) (job : Job) (l : List ℤ)
    → IsSafeJob job
    → IsSafeJob (record job { build_set = flagged type build l })
same_structure type build job l h = record { rig = h.rig; band = h.band; some_units = h.some_units }

module _ (plans : Collection String Plan plan_id) where
  open plans use {Store, get}

  abbrev pub AllSafe : Store → Type 0
  AllSafe = AllPlans IsSafeJob plans

  pub require-AllSafe :
      (test : Bool) (code : ℕ) (s : Store) (rest : Store × Answer)
      → AllSafe s
      → (test ≡ true → AllSafe rest.0)
      → AllSafe (require plans test code s rest).0
  unfolding require
  require-AllSafe true code s rest h k = k refl
  require-AllSafe false code s rest h k = h

  or_404-AllSafe :
      (path : String) (r : Store × Bool) → AllSafe r.0 → AllSafe (or_404 plans path r).0
  unfolding or_404
  or_404-AllSafe path (s, true) h = h
  or_404-AllSafe path (s, false) h = h

  on_added-AllSafe :
      (path : String) (r : Store × Option String) → AllSafe r.0 → AllSafe (on_added plans path r).0
  unfolding on_added
  on_added-AllSafe path (s, none) h = h
  on_added-AllSafe path (s, some job_id) h = h

  on_removed-AllSafe :
      (path : String) (r : Store × Option Bool) → AllSafe r.0 → AllSafe (on_removed plans path r).0
  unfolding on_removed
  on_removed-AllSafe path (s, none) h = h
  on_removed-AllSafe path (s, some false) h = h
  on_removed-AllSafe path (s, some true) h = h

  on_created-AllSafe :
      (path : String → String) (s : Store) (r : Result (String × Store))
      → AllSafe (kept plans s r)
      → AllSafe (on_created plans path s r).0
  unfolding on_created
  on_created-AllSafe path s (ok (id, s')) h = h
  on_created-AllSafe path s (err exc) h = h

  positive : (n : ℤ) → at_least_one plans n ≡ true → int_ltb n (pos 1) ≡ false
  positive n h = ground arith

  module _ (strip : String → String) (now character : ℕ) where
    pub after :
        (op : Ops.Op) (s : Store)
        → Allows IsSafeJob op
        → AllSafe s
        → AllSafe (run plans now character op s)
    after op s = run-AllPlans IsSafeJob plans character now op s

    pub handle-AllSafe :
        (request : Request) (s : Store)
        → AllSafe s
        → AllSafe (handle plans strip now character request s).0
    unfolding handle run
    handle-AllSafe (from_build uuid job_uuid type n build_set) s h =
        require-AllSafe _ _ s _ h (λ units. on_created-AllSafe _ s _ (
          after (Ops.create uuid job_uuid type n build_set) s
            (job_doc-IsSafeJob job_uuid type n build_set none (positive n units)) h))
    handle-AllSafe (new uuid) s h = on_created-AllSafe _ s _ (after (Ops.create_empty uuid) s tt h)
    handle-AllSafe (add id job_uuid type n build_set) s h = require-AllSafe _ _ s _ h (λ units.
        require-AllSafe _ _ s _ h (λ _. on_added-AllSafe _ _ (
          after (Ops.add id job_uuid type n build_set none) s
            (job_doc-IsSafeJob job_uuid type n build_set none (positive n units)) h)))
    handle-AllSafe (quantity id job_id n) s h = require-AllSafe _ _ s _ h (λ units.
        require-AllSafe _ _ s _ h (λ _. or_404-AllSafe _ _ (
          after (Ops.quantity id job_id n) s
            (λ job g. record { rig = g.rig; band = g.band; some_units = positive n units }) h)))
    handle-AllSafe (structure id job_id complex rig_tier band) s h =
        require-AllSafe _ _ s _ h (λ valid. or_404-AllSafe _ _ (
          after (Ops.structure id job_id complex (normalized_rig_tier rig_tier) band) s
            (with_structure-IsSafeJob complex rig_tier band (ground (arith, valid))) h))
    handle-AllSafe (all_structures id complex rig_tier band) s h =
        require-AllSafe _ _ s _ h (λ valid. or_404-AllSafe _ _ (
          after (Ops.all_structures id complex (normalized_rig_tier rig_tier) band) s
            (with_structure-IsSafeJob complex rig_tier band (ground (arith, valid))) h))
    handle-AllSafe (flag id job_id type build) s h = require-AllSafe _ _ s _ h (λ _.
        or_404-AllSafe _ _ (after (Ops.flag id job_id type build) s (same_structure type build) h))
    handle-AllSafe (all_flags id type build) s h = require-AllSafe _ _ s _ h (λ _.
        or_404-AllSafe _ _ (after (Ops.all_flags id type build) s (same_structure type build) h))
    handle-AllSafe (remove id job_id) s h =
        require-AllSafe _ _ s _ h
          (λ _. on_removed-AllSafe _ _ (after (Ops.remove id job_id) s tt h))
    handle-AllSafe (rename id name) s h = require-AllSafe _ _ s _ h (λ _.
        require-AllSafe _ _ s _ h
          (λ _. or_404-AllSafe _ _ (after (Ops.rename id (strip name)) s tt h)))
    handle-AllSafe (delete id) s h =
        require-AllSafe _ _ s _ h (λ _. or_404-AllSafe _ _ (after (Ops.delete id) s tt h))

  -- A job that the discounts take, with at least one unit.
  abbrev pub IsUsable : (F : FloatArith) → Job → Type 0
  IsUsable F job =
      (int_ltb job.target_quantity (pos 1) ≡ false)
      × (is_ok
            (structure_material_bonus F job.has_engineering_complex job.rig_tier job.security_band)
          ≡ true)

  IsSafeJob-IsUsable : (F : FloatArith) (job : Job) → IsSafeJob job → IsUsable F job
  unfolding structure_material_bonus
  IsSafeJob-IsUsable F job h = elim (Bool-cases job.has_engineering_complex) [
    | inr without ↦ (h.some_units, rw (without, structure_material_bonus))
    | inl complex ↦ elim (Option-cases job.rig_tier) [
      | inl no_rig ↦ (h.some_units, rw (complex, no_rig, structure_material_bonus))
      | inr (rig_tier, rig) ↦
          let known : contains rig_tier rig_tiers ≡ true = rw rig at h.rig in
          let named : (rig_tier == "") ≡ false = known_named rig_tier known in
          (
            h.some_units,
            rw (complex, rig)
                (structure_material_bonus-Returns F rig_tier job.security_band named
                  ∙ ground (arith, known, h.band)),
          )
    ]
  ]

  pub AllJobs-IsUsable :
      (F : FloatArith) (jobs : List Job) → AllJobs IsSafeJob jobs → All (IsUsable F) jobs
  AllJobs-IsUsable F [] h = tt
  AllJobs-IsUsable F (job ∷ jobs) h = (IsSafeJob-IsUsable F job h.0, AllJobs-IsUsable F jobs h.1)

  handle_all-AllSafe :
      (strip : String → String) (requests : List (ℕ × ℕ × Request)) (s : Store)
      → AllSafe s
      → AllSafe (handle_all plans strip requests s)
  unfolding handle_all
  handle_all-AllSafe strip [] s h = h
  handle_all-AllSafe strip ((now, character, request) ∷ requests) s h =
      handle_all-AllSafe strip requests _ (handle-AllSafe strip now character request s h)

  -- Whatever requests other than imports come, if every stored job has at least one unit, no rig but
  -- "t1" and "t2" and one of the three bands, then afterwards every job of every plan asks for at least
  -- one unit, and `structure_material_bonus` takes its structure without a `KeyError`.
  pub handle_all-AreUsable :
      (F : FloatArith) (strip : String → String) (requests : List (ℕ × ℕ × Request)) (s : Store)
      → AllSafe s
      → (id : String) (doc : Plan) → get id (handle_all plans strip requests s) ≡ some doc
      → All (IsUsable F) doc.jobs
  handle_all-AreUsable F strip requests s h id doc found =
      AllJobs-IsUsable F doc.jobs (handle_all-AllSafe strip requests s h id doc found)
