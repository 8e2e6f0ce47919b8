-- ===== src/BuildChain/Order/Visit.antt =====
-- `_visit` of services/build_chain.py keeps the build order good, where the steps have no cycle.
use mathlib.Core.Path.{subst, sym, ap, ◌∙◌}
use eve_build.Prelude.{
  ℕ, zero, suc, ◌<◌, ◌≡◌, refl, true, false, ◌⊎◌, none, some, List, [], ◌∷◌, ◌++◌, ◌==◌, nat_eq,
  contains, length, arith, Bool-cases, Option-cases, inl, inr, IsUnique, All, All-append,
}
use eve_build.Prelude.Dict.{Dict, lookup, keys, eq_of_beq}
use eve_build.BuildChain.Walk.{BuildStep}
use eve_build.BuildChain.Order.{Visits, visit_each, mark, visit_type, unvisited, topological_order}
use eve_build.BuildChain.Order.Before.{
  ids, contains-append-left, contains-append-last, has_step, IsBuildOrder, IsBuildOrder-snoc,
  IsAcyclic, IsStepOf, Settled, IsGood, Grows, Grows-refl, Visit, visit_each-Grows,
}

contains-append_cases :
    (a : ℕ) (xs : List BuildStep) (step : BuildStep)
    → contains a (ids (xs ++ step ∷ [])) ≡ true
    → (contains a (ids xs) ≡ true) ⊎ (step.type_id ≡ a)
contains-append_cases a [] step h = inr (eq_of_beq step.type_id a (ground arith))
contains-append_cases a (x ∷ xs) step h = elim (Bool-cases (x.type_id == a)) [
  | inl here ↦ inl (ground arith)
  | inr other ↦ elim (contains-append_cases a xs step (ground arith)) [
    | inl before ↦ inl (ground arith)
    | inr last ↦ inr last
  ]
]

contains-append-fresh :
    (a : ℕ) (xs : List BuildStep) (step : BuildStep)
    → contains a (ids xs) ≡ false
    → (step.type_id == a) ≡ false
    → contains a (ids (xs ++ step ∷ [])) ≡ false
contains-append-fresh a [] step h k = ground arith
contains-append-fresh a (y ∷ ys) step h k = ground (arith, contains-append-fresh a ys step)

IsUnique-snoc :
    (xs : List BuildStep) (step : BuildStep)
    → IsUnique (ids xs)
    → contains step.type_id (ids xs) ≡ false
    → IsUnique (ids (xs ++ step ∷ []))
IsUnique-snoc [] step u h = (refl, tt)
IsUnique-snoc (x ∷ xs) step u h = (
  ground (arith, contains-append-fresh x.type_id xs step),
  IsUnique-snoc xs step u.1 (ground arith),
)

module _ (steps : Dict ℕ BuildStep) (rank : ℕ → ℕ) (acyclic : IsAcyclic steps rank)
    (named : (k : ℕ) (step : BuildStep) → lookup k steps ≡ some step → step.type_id ≡ k) where
  mark-IsGood : (t : ℕ) (s : Visits) → IsGood steps rank s → IsGood steps rank (mark t s)
  mark-IsGood t s h = record {
    listed = h.listed;
    in_order = h.in_order;
    unique = h.unique;
    seen = λ k placed. ground (arith, h.seen k placed);
  }

  -- A type without a step is only marked.
  mark-Grows : (t : ℕ) (s : Visits) → lookup t steps ≡ none → Grows steps rank s (mark t s)
  mark-Grows t s absent = record {
    visited_grows = λ k v. ground arith;
    ordered_grows = λ k v. v;
    new_ordered = λ k v known. inl (ground arith);
    ordered_new = λ k v. inl v;
  }

  -- `t` has a step, is not visited yet, and `s1` is reached from it by visiting its materials.
  module _ (t : ℕ) (step : BuildStep) (s s1 : Visits) (found : lookup t steps ≡ some step)
      (new : contains t s.visited ≡ false) (settled : Settled steps rank (rank t) s)
      (good : IsGood steps rank s) (g : Grows steps rank (mark t s) s1)
      (good1 : IsGood steps rank s1)
      (all : (m : ℕ) → contains m (keys step.materials) ≡ true → contains m s1.visited ≡ true) where
    abbrev done : Visits
    done = record s1 { ordered = s1.ordered ++ step ∷ [] }

    not_yet : contains t (ids s1.ordered) ≡ false
    not_yet = elim (Bool-cases (contains t (ids s1.ordered))) [
      | inl placed ↦ elim (g.ordered_new t placed) [
        | inl before ↦ absurd (ground (arith, good.seen t before))
        | inr unmarked ↦ absurd (ground arith)
      ]
      | inr no_place ↦ no_place
    ]

    -- A material with a step has been ordered: it is not `t`, and was settled or newly ordered.
    ready :
        (m : ℕ)
        → contains m (keys step.materials) ≡ true
        → has_step steps m ≡ true
        → contains m (ids s1.ordered) ≡ true
    ready m in_step known =
        let below = acyclic t m step found in_step known in
        elim (g.new_ordered m (all m in_step) known) [
          | inl marked ↦ elim (Bool-cases (t == m)) [
            | inl same ↦
                let e : t ≡ m = eq_of_beq t m same in absurd (omega (arith, ap rank e, below))
            | inr other ↦ g.ordered_grows m (settled m (ground arith) known (omega arith))
          ]
          | inr placed ↦ placed
        ]

    done-IsGood : IsGood steps rank done
    done-IsGood = record {
      listed =
          All-append (IsStepOf steps) s1.ordered (step ∷ []) good1.listed
            (ap (λ k. lookup k steps) (named t step found) ∙ found, tt);
      in_order =
          IsBuildOrder-snoc steps [] s1.ordered step good1.in_order
            (λ m in_step known. ready m in_step known);
      unique = IsUnique-snoc s1.ordered step good1.unique (rw (named t step found) not_yet);
      seen = λ k placed. elim (contains-append_cases k s1.ordered step placed) [
        | inl before ↦ good1.seen k before
        | inr last ↦
            subst (λ (j : ℕ). contains j s1.visited ≡ true) (sym (named t step found) ∙ last)
              (g.visited_grows t (ground arith))
      ];
    }

    done-Grows : Grows steps rank s done
    done-Grows = record {
      visited_grows = λ k v. g.visited_grows k (ground arith);
      ordered_grows = λ k v. contains-append-left k s1.ordered step (g.ordered_grows k v);
      new_ordered = λ k v known. elim (g.new_ordered k v known) [
        | inl marked ↦ elim (Bool-cases (t == k)) [
          | inl same ↦ inr (
              subst (λ (j : ℕ). contains j (ids (s1.ordered ++ step ∷ [])) ≡ true)
                (named t step found ∙ eq_of_beq t k same) (contains-append-last s1.ordered step))
          | inr other ↦ inl (ground arith)
        ]
        | inr placed ↦ inr (contains-append-left k s1.ordered step placed)
      ];
      ordered_new = λ k v. elim (contains-append_cases k s1.ordered step v) [
        | inl before ↦ elim (g.ordered_new k before) [
          | inl earlier ↦ inl earlier
          | inr unmarked ↦ inr (ground arith)
        ]
        | inr last ↦
            inr (
              subst (λ (j : ℕ). contains j s.visited ≡ false) (sym (named t step found) ∙ last) new)
      ];
    }

  -- Marking `t` leaves the types below it settled.
  mark-Settled :
      (t m : ℕ) (s : Visits)
      → rank m < rank t
      → Settled steps rank (rank t) s
      → Settled steps rank (rank m) (mark t s)
  mark-Settled t m s below settled k v known le = elim (Bool-cases (t == k)) [
    | inl same ↦ let e : t ≡ k = eq_of_beq t k same in absurd (omega (arith, ap rank e))
    | inr other ↦ settled k (ground arith) known (omega arith)
  ]

  abbrev After : ℕ → Visits → Visits → Type 0
  After t s s' = Grows steps rank s s' × IsGood steps rank s' × (contains t s'.visited ≡ true)

  visit_type-Grows : (fuel : ℕ) → Visit steps rank (visit_type steps fuel)
  unfolding visit_type
  visit_type-Grows zero t s s' e settled good = absurd (cc)
  visit_type-Grows (suc fuel) t s s' e settled good = elim (Bool-cases (contains t s.visited)) [
    | inl seen ↦
        let same : s ≡ s' = ground arith in
        subst (After t s) same (Grows-refl steps rank s, good, seen)
    | inr new ↦ elim (Option-cases (lookup t steps)) [
      | inl absent ↦
          let same : mark t s ≡ s' = ground arith in
          subst (After t s) same (mark-Grows t s absent, mark-IsGood t s good, ground arith)
      | inr (step, found) ↦
          let low = settled (ground arith) in
          elim (Option-cases
            (visit_each (visit_type steps fuel) (keys step.materials) (mark t s))) [
              | inl stopped ↦ absurd (ground arith)
              | inr (s1, deeper) ↦
                  let (g, good1, all) =
                    visit_each-Grows steps rank (visit_type steps fuel) (visit_type-Grows fuel)
                      (keys step.materials) (mark t s) s1 deeper
                      (λ m in_step known.
                        mark-Settled t m s (acyclic t m step found in_step known) low)
                      (mark-IsGood t s good) in
                  let same : done t step s s1 found new low good g good1 all ≡ s' = ground arith in
                  subst (After t s) same (
                    done-Grows t step s s1 found new low good g good1 all,
                    done-IsGood t step s s1 found new low good g good1 all,
                    g.visited_grows t (ground arith),
                  )
            ]
    ]
  ]

  unvisited-IsGood : IsGood steps rank unvisited
  unvisited-IsGood = record { listed = tt; in_order = tt; unique = tt; seen = λ k placed. placed }

  -- The order lists steps of the dictionary, each with the one under its type, and none twice; it lists
  -- the target's step if there is one; and it puts the steps of a listed step's materials before it (and
  -- so lists every step that the target needs), where no step needs itself.
  pub topological_order-IsBuildOrder :
      (target : ℕ) {ordered : List BuildStep}
      → topological_order target steps ≡ some ordered
      → All (IsStepOf steps) ordered
        × IsUnique (ids ordered)
        × (has_step steps target ≡ true → contains target (ids ordered) ≡ true)
        × IsBuildOrder steps [] ordered
  unfolding topological_order
  topological_order-IsBuildOrder target {ordered} e =
      elim (Option-cases (visit_type steps (suc (length (keys steps))) target unvisited)) [
        | inl stopped ↦ absurd (ground arith)
        | inr (s, returns) ↦
            let (g, good, seen) =
              visit_type-Grows (suc (length (keys steps))) target unvisited s returns
                (λ known k v known' le. cc) unvisited-IsGood in
            let same : s.ordered ≡ ordered = ground arith in
            subst
              (λ (l : List BuildStep).
                All (IsStepOf steps) l
                × IsUnique (ids l)
                × (has_step steps target ≡ true → contains target (ids l) ≡ true)
                × IsBuildOrder steps [] l)
              same
              (
                good.listed,
                good.unique,
                λ known. elim (g.new_ordered target seen known) [
                  | inl before ↦ absurd (cc)
                  | inr placed ↦ placed
                ],
                good.in_order,
              )
      ]
