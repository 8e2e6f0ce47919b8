-- ===== src/Plan/Invariant.antt =====
-- What holds of every job of every plan of services/plan.py, kept by each call.
use eve_build.Prelude.{
  ℕ, ◌≡◌, refl, Bool, true, not, ◌||◌, Option, none, some, List, [], ◌∷◌, String, map, filter, find,
  any, length, leb, ◌==◌, nat_eq, string_eq, is_some, arith, Bool-cases, Option-cases, inl, inr,
  All, All-append, ap, sym, ◌∙◌,
}
use eve_build.Prelude.Int.{ℤ}
use eve_build.Prelude.Exc.{ok, ◌>>=◌}
use eve_build.External.Mongo.{Collection, keep, apply_if}
use eve_build.Plan.Doc.{Job, Plan, plan_id, job_doc}
use eve_build.Plan.Jobs.{has_id, set_first, flagged, with_flag, with_structure}
use eve_build.Plan.{
  owned, create_plan, create_empty_plan, add_job, update_job_quantity, update_job_build_flag,
  update_job_structure, set_structure_for_all_jobs, set_build_flag_for_all_jobs, remove_job,
  rename_plan, delete_plan,
}
use eve_build.Plan.Ops.{
  Op, create, create_empty, add, quantity, flag, structure, all_structures, all_flags, remove,
  rename, delete, kept, run,
}

module _ (P : Job → Type 0) where
  abbrev pub AllJobs : List Job → Type 0
  AllJobs = All P

  abbrev pub Keeps : (Job → Job) → Type 0
  Keeps f = (job : Job) → P job → P (f job)

  -- A change of the build set keeps it.
  abbrev pub KeepsFlag : ℤ → Bool → Type 0
  KeepsFlag type build =
      (job : Job) (l : List ℤ) → P job → P (record job { build_set = flagged type build l })

  -- The call's own job has it, and its change of a job keeps it.
  abbrev pub Allows : Op → Type 0
  Allows (create uuid job_uuid type n build_set) = P (job_doc job_uuid type n build_set none)
  Allows (add id job_uuid type n build_set blueprint) =
      P (job_doc job_uuid type n build_set blueprint)
  Allows (quantity id job_id n) = Keeps (λ job. record job { target_quantity = n })
  Allows (flag id job_id type build) = KeepsFlag type build
  Allows (structure id job_id complex rig band) = Keeps (with_structure complex rig band)
  Allows (all_structures id complex rig band) = Keeps (with_structure complex rig band)
  Allows (all_flags id type build) = KeepsFlag type build
  Allows op = Unit

  set_first-AllJobs :
      (job_id : String) (f : Job → Job) (jobs : List Job)
      → Keeps f
      → AllJobs jobs
      → AllJobs (set_first job_id f jobs)
  set_first-AllJobs job_id f [] keeps h = tt
  set_first-AllJobs job_id f (job ∷ jobs) keeps h = elim (Bool-cases (has_id job_id job)) [
    | inl here ↦ rw here (keeps job h.0, h.1)
    | inr other ↦ rw other (h.0, set_first-AllJobs job_id f jobs keeps h.1)
  ]

  map-AllJobs : (f : Job → Job) (jobs : List Job) → Keeps f → AllJobs jobs → AllJobs (map f jobs)
  map-AllJobs f [] keeps h = tt
  map-AllJobs f (job ∷ jobs) keeps h = (keeps job h.0, map-AllJobs f jobs keeps h.1)

  filter-AllJobs : (p : Job → Bool) (jobs : List Job) → AllJobs jobs → AllJobs (filter p jobs)
  filter-AllJobs p [] h = tt
  filter-AllJobs p (job ∷ jobs) h = elim (Bool-cases (p job)) [
    | inl stays ↦ rw stays (h.0, filter-AllJobs p jobs h.1)
    | inr goes ↦ rw goes (filter-AllJobs p jobs h.1)
  ]

  module _ (plans : Collection String Plan plan_id) where
    open plans use {Store, get, update_one, delete_one, insert_one}

    abbrev pub AllPlans : Store → Type 0
    AllPlans s = (j : String) (doc : Plan) → get j s ≡ some doc → AllJobs doc.jobs

    -- One document of the collection, changed under a test.
    apply_if-AllJobs :
        (p : Plan → Bool) (f : Plan → Plan) (found : Option Plan) (doc : Plan)
        → ((d : Plan) → AllJobs d.jobs → AllJobs (f d).jobs)
        → ((d : Plan) → found ≡ some d → AllJobs d.jobs)
        → apply_if p f found ≡ some doc
        → AllJobs doc.jobs
    apply_if-AllJobs p f none doc keeps h e = absurd (cc)
    apply_if-AllJobs p f (some d) doc keeps h e = elim (Bool-cases (p d)) [
      | inl passes ↦ let same : f d ≡ doc = ground arith in rw (← same) (keeps d (h d refl))
      | inr fails ↦ let same : d ≡ doc = ground arith in rw (← same) (h d refl)
    ]

    update-AllPlans :
        (id : String) (p : Plan → Bool) (f : Plan → Plan) (s : Store)
        → ((d : Plan) → plan_id (f d) ≡ plan_id d)
        → ((d : Plan) → AllJobs d.jobs → AllJobs (f d).jobs)
        → AllPlans s
        → AllPlans (update_one id p f s).0
    update-AllPlans id p f s same_id keeps h j doc e = elim (Bool-cases (id == j)) [
      | inl here ↦
          apply_if-AllJobs p f (get j s) doc keeps (h j)
            (ground (arith, plans.get-update_one id p f s j same_id))
      | inr other ↦ h j doc (ground (arith, plans.get-update_one id p f s j same_id))
    ]

    delete-AllPlans :
        (id : String) (p : Plan → Bool) (s : Store) → AllPlans s → AllPlans (delete_one id p s).0
    delete-AllPlans id p s h j doc e = h j doc (ground (arith, plans.get-delete_one id p s j))

    insert-AllPlans :
        (new : Plan) (s : Store)
        → AllJobs new.jobs
        → AllPlans s
        → AllPlans (kept plans s (insert_one new s >>= λ s'. ok (new.id, s')))
    insert-AllPlans new s all h j doc = elim (Bool-cases (is_some (get new.id s))) [
      | inl taken ↦ rw (plans.insert_one-taken new s taken) (h j doc)
      | inr fresh ↦
          let (s', inserted, after) = plans.insert_one-new new s fresh in
          rw inserted (
            rw (after j) (elim (Bool-cases (new.id == j)) [
              | inl here ↦ rw here (λ e. let same : new ≡ doc = cc in rw (← same) all)
              | inr other ↦ rw other (h j doc)
            ]))
    ]

    keep-eq :
        (p : Plan → Bool) (found : Option Plan) (doc : Plan)
        → keep p found ≡ some doc
        → (found ≡ some doc) × (p doc ≡ true)
    keep-eq p none doc e = absurd (cc)
    keep-eq p (some d) doc e = elim (Bool-cases (p d)) [
      | inl passes ↦ let same : d ≡ doc = ground arith in (ap some same, rw (← same) passes)
      | inr fails ↦ absurd (ground arith)
    ]

    -- What `find_one` returns is stored, and passes the filter.
    pub find_one-stored :
        (id : String) (p : Plan → Bool) (s : Store) (doc : Plan)
        → plans.find_one id p s ≡ some doc
        → (get id s ≡ some doc) × (p doc ≡ true)
    find_one-stored id p s doc e = keep-eq p (get id s) doc (sym (plans.find_one-get id p s) ∙ e)

    module _ (character now : ℕ) where
      flag-AllPlans :
          (id job_id : String) (type : ℤ) (build : Bool) (s : Store)
          → KeepsFlag type build
          → AllPlans s
          → AllPlans (update_job_build_flag plans now id character job_id type build s).0
      unfolding update_job_build_flag
      flag-AllPlans id job_id type build s keeps h j doc =
          elim (Option-cases (plans.find_one id (owned character) s)) [
            | inl absent ↦ rw (absent, update_job_build_flag) (h j doc)
            | inr (plan, read) ↦ elim (Option-cases (find (has_id job_id) plan.jobs)) [
              | inl no_job ↦ rw (read, no_job, update_job_build_flag) (h j doc)
              | inr (job, first) ↦
                  rw (read, first, update_job_build_flag)
                    (update-AllPlans id _ _ s (λ d. refl)
                      (λ d. set_first-AllJobs job_id _ d.jobs (λ i. keeps i job.build_set)) h j doc)
            ]
          ]

      all_structures-AllPlans :
          (id : String) (complex : Bool) (rig : Option String) (band : String) (s : Store)
          → Keeps (with_structure complex rig band)
          → AllPlans s
          → AllPlans (set_structure_for_all_jobs plans now id character complex rig band s).0
      unfolding set_structure_for_all_jobs
      all_structures-AllPlans id complex rig band s keeps h j doc =
          elim (Option-cases (plans.find_one id (owned character) s)) [
            | inl absent ↦ rw (absent, set_structure_for_all_jobs) (h j doc)
            | inr (plan, read) ↦
                let here = h id plan (find_one-stored id (owned character) s plan read).0 in
                rw (read, set_structure_for_all_jobs)
                  (update-AllPlans id _ _ s (λ d. refl)
                    (λ d _. map-AllJobs (with_structure complex rig band) plan.jobs keeps here) h j
                    doc)
          ]

      all_flags-AllPlans :
          (id : String) (type : ℤ) (build : Bool) (s : Store)
          → KeepsFlag type build
          → AllPlans s
          → AllPlans (set_build_flag_for_all_jobs plans now id character type build s).0
      unfolding set_build_flag_for_all_jobs
      all_flags-AllPlans id type build s keeps h j doc =
          elim (Option-cases (plans.find_one id (owned character) s)) [
            | inl absent ↦ rw (absent, set_build_flag_for_all_jobs) (h j doc)
            | inr (plan, read) ↦
                let here = h id plan (find_one-stored id (owned character) s plan read).0 in
                rw (read, set_build_flag_for_all_jobs)
                  (update-AllPlans id _ _ s (λ d. refl)
                    (λ d _.
                      map-AllJobs (with_flag type build) plan.jobs (λ i. keeps i i.build_set) here)
                    h j doc)
          ]

      remove-AllPlans :
          (id job_id : String) (s : Store)
          → AllPlans s
          → AllPlans (remove_job plans now id character job_id s).0
      unfolding remove_job
      remove-AllPlans id job_id s h j doc =
          elim (Option-cases (plans.find_one id (owned character) s)) [
            | inl absent ↦ rw (absent, remove_job) (h j doc)
            | inr (plan, read) ↦
                elim (Bool-cases
                  (leb (length plan.jobs) 1 || not (any (has_id job_id) plan.jobs))) [
                    | inl refused ↦ rw (read, refused, remove_job) (h j doc)
                    | inr allowed ↦
                        rw (read, allowed, remove_job)
                          (update-AllPlans id _ _ s (λ d. refl)
                            (λ d. filter-AllJobs (λ job. not (has_id job_id job)) d.jobs) h j doc)
                  ]
          ]

      -- What holds of every job before a call holds after it, if the call's own job has it and its change
      -- of a job keeps it.
      pub run-AllPlans :
          (op : Op) (s : Store) → Allows op → AllPlans s → AllPlans (run plans now character op s)
      unfolding run create_plan create_empty_plan add_job update_job_quantity update_job_structure
          rename_plan delete_plan
      run-AllPlans (create uuid job_uuid type n build_set) s allowed =
          insert-AllPlans _ s (allowed, tt)
      run-AllPlans (create_empty uuid) s allowed = insert-AllPlans _ s tt
      run-AllPlans (add id job_uuid type n build_set blueprint) s allowed =
          update-AllPlans id _ _ s (λ d. refl) (λ d g. All-append P d.jobs _ g (allowed, tt))
      run-AllPlans (quantity id job_id n) s allowed =
          update-AllPlans id _ _ s (λ d. refl) (λ d. set_first-AllJobs job_id _ d.jobs allowed)
      run-AllPlans (flag id job_id type build) s allowed =
          flag-AllPlans id job_id type build s allowed
      run-AllPlans (structure id job_id complex rig band) s allowed =
          update-AllPlans id _ _ s (λ d. refl) (λ d. set_first-AllJobs job_id _ d.jobs allowed)
      run-AllPlans (all_structures id complex rig band) s allowed =
          all_structures-AllPlans id complex rig band s allowed
      run-AllPlans (all_flags id type build) s allowed = all_flags-AllPlans id type build s allowed
      run-AllPlans (remove id job_id) s allowed = remove-AllPlans id job_id s
      run-AllPlans (rename id name) s allowed = update-AllPlans id _ _ s (λ d. refl) (λ d g. g)
      run-AllPlans (delete id) s allowed = delete-AllPlans id _ s
