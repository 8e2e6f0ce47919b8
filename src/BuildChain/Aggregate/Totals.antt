-- ===== src/BuildChain/Aggregate/Totals.antt =====
-- What the merged lists of a plan add up to.
use eve_build.Prelude.{
  ℕ, ◌+◌, ◌≡◌, refl, ap, ◌∙◌, List, [], ◌∷◌, nat_eq, if◌then◌else◌, ◌==◌, sum_by, arith,
  Option-cases, inl, inr,
}
use eve_build.Prelude.Dict.{
  Dict, lookup, values, weight, AllEntries, weight-insert, weight-insert_new, AllEntries-insert,
  AllEntries-lookup,
}
use eve_build.Prelude.Sort.{sum_by-sorted_by, IsSortedBy, sorted_by-IsSortedBy}
use eve_build.BuildChain.Walk.{BuildStep}
use eve_build.BuildChain.Aggregate.{
  RawMaterial, BuildResolution, merge_one, merge_each, merge_all, add_material, add_step, each_of,
  merged_materials, merged_steps, aggregate_raw_materials, aggregate_build_steps,
}

-- The sum of a number over the items of one type.
abbrev pub total_of : {A : Type 0} → (A → ℕ) → (A → ℕ) → ℕ → List A → ℕ
total_of type_id number t = sum_by (λ item. if type_id item == t then number item else 0)

-- The sum of it over all the lists.
abbrev pub total_over : {R A : Type 0} → (R → List A) → (A → ℕ) → (A → ℕ) → ℕ → List R → ℕ
total_over part type_id number t = sum_by (λ r. total_of type_id number t (part r))

module _ {A : Type 0} (type_id : A → ℕ) (add_to : A → A → A) (number : A → ℕ)
    (same_id : (a b : A) → type_id (add_to a b) ≡ type_id a)
    (adds : (a b : A) → number (add_to a b) ≡ number a + number b) (t : ℕ) where
  abbrev IsKeyedBy : Dict ℕ A → Type 0
  IsKeyedBy = AllEntries (λ k item. type_id item ≡ k)

  abbrev share : ℕ → A → ℕ
  share k item = if k == t then number item else 0

  values-total :
      (d : Dict ℕ A) → IsKeyedBy d → total_of type_id number t (values d) ≡ weight share d
  values-total [] h = refl
  values-total ((k, item) ∷ d) h = let rest = values-total d h.1 in rw (h.0, rest)

  merge_one-IsKeyedBy :
      (item : A) (d : Dict ℕ A) → IsKeyedBy d → IsKeyedBy (merge_one type_id add_to item d)
  merge_one-IsKeyedBy item d h = elim (Option-cases (lookup (type_id item) d)) [
    | inl new ↦
        rw (new, merge_one) (AllEntries-insert (λ k x. type_id x ≡ k) (type_id item) item d refl h)
    | inr (old, found) ↦
        let own = AllEntries-lookup (λ k x. type_id x ≡ k) (type_id item) old d h found in
        rw (found, merge_one)
          (AllEntries-insert (λ k x. type_id x ≡ k) (type_id item) (add_to old item) d
            (same_id old item ∙ own) h)
  ]

  weight-merge_one :
      (item : A) (d : Dict ℕ A)
      → weight share (merge_one type_id add_to item d) ≡ weight share d + share (type_id item) item
  weight-merge_one item d = elim (Option-cases (lookup (type_id item) d)) [
    | inl new ↦ rw (new, merge_one) (weight-insert_new share (type_id item) item d new)
    | inr (old, found) ↦
        rw (found, merge_one)
          (ground (
            arith,
            weight-insert share (type_id item) (add_to old item) old d found,
            adds old item,
          ))
  ]

  merge_each-IsKeyedBy :
      (items : List A) (d : Dict ℕ A) → IsKeyedBy d → IsKeyedBy (merge_each type_id add_to items d)
  merge_each-IsKeyedBy [] d h = h
  merge_each-IsKeyedBy (item ∷ items) d h =
      merge_each-IsKeyedBy items (merge_one type_id add_to item d) (merge_one-IsKeyedBy item d h)

  weight-merge_each :
      (items : List A) (d : Dict ℕ A)
      → weight share (merge_each type_id add_to items d)
        ≡ weight share d + total_of type_id number t items
  weight-merge_each [] d = omega arith
  weight-merge_each (item ∷ items) d =
      weight-merge_each items (merge_one type_id add_to item d)
      ∙ omega (arith, weight-merge_one item d)

  total-merge_all :
      (lists : List (List A)) (d : Dict ℕ A)
      → IsKeyedBy d
      → total_of type_id number t (values (merge_all type_id add_to lists d))
        ≡ weight share d + sum_by (total_of type_id number t) lists
  total-merge_all [] d h = values-total d h ∙ omega arith
  total-merge_all (items ∷ lists) d h =
      total-merge_all lists (merge_each type_id add_to items d) (merge_each-IsKeyedBy items d h)
      ∙ omega (arith, weight-merge_each items d)

  pub total-merge :
      (lists : List (List A))
      → total_of type_id number t (values (merge_all type_id add_to lists []))
        ≡ sum_by (total_of type_id number t) lists
  total-merge lists = total-merge_all lists [] tt ∙ omega arith

sum_by-each_of :
    {R A : Type 0} (part : R → List A) (f : List A → ℕ) (rs : List R)
    → sum_by f (each_of part rs) ≡ sum_by (λ r. f (part r)) rs
sum_by-each_of part f [] = refl
sum_by-each_of part f (r ∷ rs) = ap (λ n. f (part r) + n) (sum_by-each_of part f rs)

-- The shopping list asks for as much of each type as all the resolutions do.
pub aggregate_raw_materials-total :
    {Float : Type 0} (resolutions : List (BuildResolution Float)) (t : ℕ)
    → total_of
        (λ material. material.type_id)
        (λ material. material.quantity)
        t
        (aggregate_raw_materials resolutions)
      ≡ total_over
          (λ resolution. resolution.raw_materials)
          (λ material. material.type_id)
          (λ material. material.quantity)
          t
          resolutions
unfolding aggregate_raw_materials
aggregate_raw_materials-total resolutions t =
    sum_by-sorted_by (λ material. material.name) _ _
    ∙ total-merge (λ material. material.type_id) add_material (λ material. material.quantity)
        (λ a b. refl) (λ a b. refl) t (each_of (λ resolution. resolution.raw_materials) resolutions)
    ∙ sum_by-each_of (λ resolution. resolution.raw_materials) _ resolutions

-- The merged steps have as many runs of each type, and make as much of it, as all the resolutions do.
pub aggregate_build_steps-total :
    {Float : Type 0} (resolutions : List (BuildResolution Float)) (t : ℕ)
    → (total_of (λ step. step.type_id) (λ step. step.runs) t (aggregate_build_steps resolutions)
        ≡ total_over
            (λ resolution. resolution.steps)
            (λ step. step.type_id)
            (λ step. step.runs)
            t
            resolutions)
      × (total_of
            (λ step. step.type_id)
            (λ step. step.quantity_needed)
            t
            (aggregate_build_steps resolutions)
          ≡ total_over
              (λ resolution. resolution.steps)
              (λ step. step.type_id)
              (λ step. step.quantity_needed)
              t
              resolutions)
unfolding aggregate_build_steps
aggregate_build_steps-total resolutions t = (
  sum_by-sorted_by (λ step. step.name) _ _
      ∙ total-merge (λ step. step.type_id) add_step (λ step. step.runs) (λ a b. refl) (λ a b. refl)
          t (each_of (λ resolution. resolution.steps) resolutions)
      ∙ sum_by-each_of (λ resolution. resolution.steps) _ resolutions,
  sum_by-sorted_by (λ step. step.name) _ _
      ∙ total-merge (λ step. step.type_id) add_step (λ step. step.quantity_needed) (λ a b. refl)
          (λ a b. refl) t (each_of (λ resolution. resolution.steps) resolutions)
      ∙ sum_by-each_of (λ resolution. resolution.steps) _ resolutions,
)

-- Both lists are in the order of the names.
pub aggregate-IsSortedBy :
    {Float : Type 0} (resolutions : List (BuildResolution Float))
    → IsSortedBy (λ material. material.name) (aggregate_raw_materials resolutions)
      × IsSortedBy (λ step. step.name) (aggregate_build_steps resolutions)
unfolding aggregate_raw_materials aggregate_build_steps
aggregate-IsSortedBy {Float} resolutions = (
  sorted_by-IsSortedBy {A = RawMaterial Float} (λ material. material.name)
      (values (merged_materials resolutions)),
  sorted_by-IsSortedBy {A = BuildStep} (λ step. step.name) (values (merged_steps resolutions)),
)
