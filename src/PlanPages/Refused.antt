-- ===== src/PlanPages/Refused.antt =====
-- A request of routes/plans.py that is refused.
use eve_build.Prelude.{
  ℕ, ◌≡◌, refl, Bool, true, false, not, ◌||◌, Option, none, some, String, find, any, length, leb,
  if◌then◌else◌, ◌==◌, string_eq, is_some, arith, Bool-cases, Option-cases, inl, inr, ◌∙◌, sym,
}
use eve_build.Prelude.Dict.{eq_of_beq}
use eve_build.Prelude.Int.{ℤ}
use eve_build.Prelude.Exc.{Result, ok, err}
use eve_build.External.Mongo.{Collection, keep, apply_if, drop_if}
use eve_build.Plan.Doc.{Plan, plan_id}
use eve_build.Plan.Jobs.{has_id}
use eve_build.Plan.{
  owned, add_job, update_job_quantity, update_job_build_flag, update_job_structure,
  set_structure_for_all_jobs, set_build_flag_for_all_jobs, remove_job, rename_plan, delete_plan,
}
use eve_build.PlanPages.{
  Answer, status, Request, from_build, new, add, quantity, structure, all_structures, flag,
  all_flags, remove, rename, delete, require, or_404, on_created, on_added, on_removed, handle,
}

module _ (plans : Collection String Plan plan_id) (s : Collection.Store plans) where
  open plans use {Store, get, update_one, delete_one}

  -- The same plans.
  abbrev pub Same : Store → Type 0
  Same s' = (j : String) → get j s' ≡ get j s

  abbrev pub IsRefusal : Store × Answer → Type 0
  IsRefusal (s', answer) = (code : ℕ) → answer ≡ status code → Same s'

  pub require-IsRefusal :
      (test : Bool) (code : ℕ) (rest : Store × Answer)
      → IsRefusal rest
      → IsRefusal (require plans test code s rest)
  unfolding require
  require-IsRefusal true code rest h = h
  require-IsRefusal false code rest h = λ _ _ j. refl

  or_404-IsRefusal :
      (path : String) (r : Store × Bool)
      → (r.1 ≡ false → Same r.0)
      → IsRefusal (or_404 plans path r)
  unfolding or_404
  or_404-IsRefusal path (s', true) h = λ code e. absurd (ground (arith, e))
  or_404-IsRefusal path (s', false) h = λ code e. h refl

  on_created-IsRefusal :
      (path : String → String) (r : Result (String × Store)) → IsRefusal (on_created plans path s r)
  unfolding on_created
  on_created-IsRefusal path (ok (id, s')) = λ code e. absurd (ground (arith, e))
  on_created-IsRefusal path (err exc) = λ code e j. refl

  untouched :
      (p : Plan → Bool) (f : Plan → Plan) (found : Option Plan)
      → is_some (keep p found) ≡ false
      → apply_if p f found ≡ found
  untouched p f none h = refl
  untouched p f (some doc) h = ground (arith, h)

  undeleted :
      (p : Plan → Bool) (found : Option Plan)
      → is_some (keep p found) ≡ false
      → drop_if p found ≡ found
  undeleted p none h = refl
  undeleted p (some doc) h = ground (arith, h)

  update-Same :
      (id : String) (p : Plan → Bool) (f : Plan → Plan)
      → ((d : Plan) → plan_id (f d) ≡ plan_id d)
      → (update_one id p f s).1 ≡ false
      → Same (update_one id p f s).0
  update-Same id p f same_id missed j =
      plans.get-update_one id p f s j same_id ∙ elim (Bool-cases (id == j)) [
        | inl here ↦
            let e : id ≡ j = eq_of_beq id j here in
            let gone = sym (plans.matched_count id p f s) ∙ missed in
            rw here (untouched p f (get j s) (rw e at gone))
        | inr other ↦ rw other
      ]

  delete-Same :
      (id : String) (p : Plan → Bool) → (delete_one id p s).1 ≡ false → Same (delete_one id p s).0
  delete-Same id p missed j = plans.get-delete_one id p s j ∙ elim (Bool-cases (id == j)) [
    | inl here ↦
        let e : id ≡ j = eq_of_beq id j here in
        let gone = sym (plans.deleted_count id p s) ∙ missed in
        rw here (undeleted p (get j s) (rw e at gone))
    | inr other ↦ rw other
  ]

  add-IsRefusal :
      (path : String) (job_id : String) (r : Store × Bool)
      → (r.1 ≡ false → Same r.0)
      → IsRefusal (on_added plans path (r.0, if r.1 then some job_id else none))
  unfolding on_added
  add-IsRefusal path job_id (s', true) h = λ code e. absurd (ground (arith, e))
  add-IsRefusal path job_id (s', false) h = λ code e. h refl

  abbrev is_removed : Option Bool → Bool
  is_removed none = false
  is_removed (some removed) = removed

  on_removed-IsRefusal :
      (path : String) (r : Store × Option Bool)
      → (is_removed r.1 ≡ false → Same r.0)
      → IsRefusal (on_removed plans path r)
  unfolding on_removed
  on_removed-IsRefusal path (s', none) h = λ code e. h refl
  on_removed-IsRefusal path (s', some false) h = λ code e. h refl
  on_removed-IsRefusal path (s', some true) h = λ code e. absurd (ground (arith, e))

  module _ (now character : ℕ) where
    flag-Same :
        (id job_id : String) (type : ℤ) (build : Bool)
        → (update_job_build_flag plans now id character job_id type build s).1 ≡ false
        → Same (update_job_build_flag plans now id character job_id type build s).0
    unfolding update_job_build_flag
    flag-Same id job_id type build missed j =
        elim (Option-cases (plans.find_one id (owned character) s)) [
          | inl absent ↦ rw (absent, update_job_build_flag) refl
          | inr (plan, read) ↦ elim (Option-cases (find (has_id job_id) plan.jobs)) [
            | inl no_job ↦ rw (read, no_job, update_job_build_flag) refl
            | inr (job, first) ↦
                rw (read, first, update_job_build_flag)
                  (update-Same id _ _ (λ d. refl)
                    (rw (read, first, update_job_build_flag) at missed) j)
          ]
        ]

    all_structures-Same :
        (id : String) (complex : Bool) (rig : Option String) (band : String)
        → (set_structure_for_all_jobs plans now id character complex rig band s).1 ≡ false
        → Same (set_structure_for_all_jobs plans now id character complex rig band s).0
    unfolding set_structure_for_all_jobs
    all_structures-Same id complex rig band missed j =
        elim (Option-cases (plans.find_one id (owned character) s)) [
          | inl absent ↦ rw (absent, set_structure_for_all_jobs) refl
          | inr (plan, read) ↦
              absurd (ground (arith, rw (read, set_structure_for_all_jobs) at missed))
        ]

    all_flags-Same :
        (id : String) (type : ℤ) (build : Bool)
        → (set_build_flag_for_all_jobs plans now id character type build s).1 ≡ false
        → Same (set_build_flag_for_all_jobs plans now id character type build s).0
    unfolding set_build_flag_for_all_jobs
    all_flags-Same id type build missed j =
        elim (Option-cases (plans.find_one id (owned character) s)) [
          | inl absent ↦ rw (absent, set_build_flag_for_all_jobs) refl
          | inr (plan, read) ↦
              absurd (ground (arith, rw (read, set_build_flag_for_all_jobs) at missed))
        ]

    remove-Same :
        (id job_id : String)
        → is_removed (remove_job plans now id character job_id s).1 ≡ false
        → Same (remove_job plans now id character job_id s).0
    unfolding remove_job
    remove-Same id job_id kept j = elim (Option-cases (plans.find_one id (owned character) s)) [
      | inl absent ↦ rw (absent, remove_job) refl
      | inr (plan, read) ↦
          elim (Bool-cases (leb (length plan.jobs) 1 || not (any (has_id job_id) plan.jobs))) [
            | inl refused ↦ rw (read, refused, remove_job) refl
            | inr allowed ↦ absurd (ground (arith, rw (read, allowed, remove_job) at kept))
          ]
    ]

    -- A request that is answered with an HTTP error, because FastAPI or the handler refuses an argument
    -- or because there is no such plan or job of the character, changes no plan.
    pub handle-Same :
        (strip : String → String) (request : Request) (code : ℕ)
        → (handle plans strip now character request s).1 ≡ status code
        → (j : String) → get j (handle plans strip now character request s).0 ≡ get j s
    unfolding handle add_job update_job_quantity update_job_structure rename_plan delete_plan
    handle-Same strip (from_build uuid job_uuid type n build_set) =
        require-IsRefusal _ _ _ (on_created-IsRefusal _ _)
    handle-Same strip (new uuid) = on_created-IsRefusal _ _
    handle-Same strip (add id job_uuid type n build_set) =
        require-IsRefusal _ _ _
          (require-IsRefusal _ _ _ (add-IsRefusal _ _ _ (update-Same id _ _ (λ d. refl))))
    handle-Same strip (quantity id job_id n) =
        require-IsRefusal _ _ _
          (require-IsRefusal _ _ _ (or_404-IsRefusal _ _ (update-Same id _ _ (λ d. refl))))
    handle-Same strip (structure id job_id complex rig_tier band) =
        require-IsRefusal _ _ _ (or_404-IsRefusal _ _ (update-Same id _ _ (λ d. refl)))
    handle-Same strip (all_structures id complex rig_tier band) =
        require-IsRefusal _ _ _ (or_404-IsRefusal _ _ (all_structures-Same id complex _ band))
    handle-Same strip (flag id job_id type build) =
        require-IsRefusal _ _ _ (or_404-IsRefusal _ _ (flag-Same id job_id type build))
    handle-Same strip (all_flags id type build) =
        require-IsRefusal _ _ _ (or_404-IsRefusal _ _ (all_flags-Same id type build))
    handle-Same strip (remove id job_id) =
        require-IsRefusal _ _ _ (on_removed-IsRefusal _ _ (remove-Same id job_id))
    handle-Same strip (rename id name) =
        require-IsRefusal _ _ _
          (require-IsRefusal _ _ _ (or_404-IsRefusal _ _ (update-Same id _ _ (λ d. refl))))
    handle-Same strip (delete id) =
        require-IsRefusal _ _ _ (or_404-IsRefusal _ _ (delete-Same id _))
