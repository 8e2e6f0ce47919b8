-- ===== src/Plan/Owner.antt =====
-- Who can change a plan of services/plan.py.
use eve_build.Prelude.{
  ℕ, ◌≡◌, refl, Bool, false, not, ◌||◌, Option, some, String, find, any, length, leb, ◌==◌, nat_eq,
  string_eq, is_some, arith, Bool-cases, Option-cases, inl, inr,
}
use eve_build.Prelude.Dict.{eq_of_beq}
use eve_build.Prelude.Int.{ℤ}
use eve_build.Prelude.Exc.{ok, ◌>>=◌}
use eve_build.External.Mongo.{Collection}
use eve_build.Plan.Doc.{Plan, plan_id}
use eve_build.Plan.Jobs.{has_id}
use eve_build.Plan.{
  owned, owned_with_job, create_plan, create_empty_plan, add_job, update_job_quantity,
  update_job_build_flag, update_job_structure, set_structure_for_all_jobs,
  set_build_flag_for_all_jobs, remove_job, rename_plan, delete_plan,
}
use eve_build.Plan.Ops.{
  Op, create, create_empty, add, quantity, flag, structure, all_structures, all_flags, remove,
  rename, delete, kept, run,
}

module _ (plans : Collection String Plan plan_id) where
  open plans use {Store, get, update_one, delete_one, insert_one}

  module _ (character : ℕ) where
    -- A change that leaves every plan of another character alone.
    abbrev Leaves : Store → Store → Type 0
    Leaves s s' =
        (j : String) (doc : Plan)
        → get j s ≡ some doc
        → (doc.character_id == character) ≡ false
        → get j s' ≡ some doc

    update-Leaves :
        (id : String) (p : Plan → Bool) (f : Plan → Plan) (s : Store)
        → ((d : Plan) → plan_id (f d) ≡ plan_id d)
        → ((d : Plan) → (d.character_id == character) ≡ false → p d ≡ false)
        → Leaves s (update_one id p f s).0
    update-Leaves id p f s keeps guards j doc found other =
        rw (plans.get-update_one id p f s j keeps) (ground (arith, guards doc other))

    delete-Leaves : (id : String) (s : Store) → Leaves s (delete_one id (owned character) s).0
    delete-Leaves id s j doc found other =
        rw (plans.get-delete_one id (owned character) s j) (ground arith)

    insert-Leaves :
        (doc : Plan) (s : Store)
        → Leaves s (kept plans s (insert_one doc s >>= λ s'. ok (doc.id, s')))
    insert-Leaves new s j doc found other = elim (Bool-cases (is_some (get new.id s))) [
      | inl taken ↦ rw (plans.insert_one-taken new s taken) found
      | inr fresh ↦
          let (s', inserted, after) = plans.insert_one-new new s fresh in
          rw inserted (
            rw (after j) (elim (Bool-cases (new.id == j)) [
              | inl same ↦
                  let e : new.id ≡ j = eq_of_beq new.id j same in absurd (ground (arith, e))
              | inr different ↦ rw different found
            ]))
    ]

    not_owned : (d : Plan) → (d.character_id == character) ≡ false → owned character d ≡ false
    not_owned d h = h

    not_owned_with_job :
        (job_id : String) (d : Plan)
        → (d.character_id == character) ≡ false
        → owned_with_job character job_id d ≡ false
    not_owned_with_job job_id d h = rw h

    flag-Leaves :
        (now : ℕ) (id job_id : String) (type : ℤ) (build : Bool) (s : Store)
        → Leaves s (update_job_build_flag plans now id character job_id type build s).0
    unfolding update_job_build_flag
    flag-Leaves now id job_id type build s =
        elim (Option-cases (plans.find_one id (owned character) s)) [
          | inl absent ↦ λ j doc found other. rw (absent, update_job_build_flag) found
          | inr (plan, read) ↦ elim (Option-cases (find (has_id job_id) plan.jobs)) [
            | inl no_job ↦ λ j doc found other. rw (read, no_job, update_job_build_flag) found
            | inr (job, first) ↦ λ j doc found other.
                rw (read, first, update_job_build_flag)
                  (update-Leaves id _ _ s (λ d. refl) (not_owned_with_job job_id) j doc found other)
          ]
        ]

    all_structures-Leaves :
        (now : ℕ) (id : String) (complex : Bool) (rig : Option String) (band : String) (s : Store)
        → Leaves s (set_structure_for_all_jobs plans now id character complex rig band s).0
    unfolding set_structure_for_all_jobs
    all_structures-Leaves now id complex rig band s =
        elim (Option-cases (plans.find_one id (owned character) s)) [
          | inl absent ↦ λ j doc found other. rw (absent, set_structure_for_all_jobs) found
          | inr (plan, read) ↦ λ j doc found other.
              rw (read, set_structure_for_all_jobs)
                (update-Leaves id _ _ s (λ d. refl) not_owned j doc found other)
        ]

    all_flags-Leaves :
        (now : ℕ) (id : String) (type : ℤ) (build : Bool) (s : Store)
        → Leaves s (set_build_flag_for_all_jobs plans now id character type build s).0
    unfolding set_build_flag_for_all_jobs
    all_flags-Leaves now id type build s =
        elim (Option-cases (plans.find_one id (owned character) s)) [
          | inl absent ↦ λ j doc found other. rw (absent, set_build_flag_for_all_jobs) found
          | inr (plan, read) ↦ λ j doc found other.
              rw (read, set_build_flag_for_all_jobs)
                (update-Leaves id _ _ s (λ d. refl) not_owned j doc found other)
        ]

    remove-Leaves :
        (now : ℕ) (id job_id : String) (s : Store)
        → Leaves s (remove_job plans now id character job_id s).0
    unfolding remove_job
    remove-Leaves now id job_id s = elim (Option-cases (plans.find_one id (owned character) s)) [
      | inl absent ↦ λ j doc found other. rw (absent, remove_job) found
      | inr (plan, read) ↦
          elim (Bool-cases (leb (length plan.jobs) 1 || not (any (has_id job_id) plan.jobs))) [
            | inl refused ↦ λ j doc found other. rw (read, refused, remove_job) found
            | inr allowed ↦ λ j doc found other.
                rw (read, allowed, remove_job)
                  (update-Leaves id _ _ s (λ d. refl) not_owned j doc found other)
          ]
    ]

    -- No call by one character changes a plan that belongs to another, whatever its arguments.
    pub run-Leaves :
        (now : ℕ) (op : Op) (s : Store) (j : String) (doc : Plan)
        → get j s ≡ some doc
        → (doc.character_id == character) ≡ false
        → get j (run plans now character op s) ≡ some doc
    unfolding run create_plan create_empty_plan add_job update_job_quantity update_job_structure
        rename_plan delete_plan
    run-Leaves now (create uuid job_uuid type n build_set) s = insert-Leaves _ s
    run-Leaves now (create_empty uuid) s = insert-Leaves _ s
    run-Leaves now (add id job_uuid type n build_set blueprint) s =
        update-Leaves id _ _ s (λ d. refl) not_owned
    run-Leaves now (quantity id job_id n) s =
        update-Leaves id _ _ s (λ d. refl) (not_owned_with_job job_id)
    run-Leaves now (flag id job_id type build) s = flag-Leaves now id job_id type build s
    run-Leaves now (structure id job_id complex rig band) s =
        update-Leaves id _ _ s (λ d. refl) (not_owned_with_job job_id)
    run-Leaves now (all_structures id complex rig band) s =
        all_structures-Leaves now id complex rig band s
    run-Leaves now (all_flags id type build) s = all_flags-Leaves now id type build s
    run-Leaves now (remove id job_id) s = remove-Leaves now id job_id s
    run-Leaves now (rename id name) s = update-Leaves id _ _ s (λ d. refl) not_owned
    run-Leaves now (delete id) s = delete-Leaves id s
