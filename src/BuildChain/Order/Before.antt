-- ===== src/BuildChain/Order/Before.antt =====
-- `_topological_order` lists a component before whatever consumes it.
use mathlib.Core.Path.{subst}
use eve_build.Prelude.{
  ℕ, ◌<◌, ◌≤◌, ◌≡◌, Bool, true, false, ◌||◌, ◌⊎◌, Option, some, List, [], ◌∷◌, ◌++◌, ◌==◌, nat_eq,
  contains, is_some, arith, Bool-cases, Option-cases, inl, inr, IsUnique, All,
}
use eve_build.Prelude.Dict.{Dict, lookup, keys, eq_of_beq}
use eve_build.BuildChain.Walk.{BuildStep}
use eve_build.BuildChain.Order.{Visits, visit_each}

abbrev pub ids : List BuildStep → List ℕ
ids [] = []
ids (step ∷ rest) = step.type_id ∷ ids rest

pub contains-append-left :
    (a : ℕ) (xs : List BuildStep) (step : BuildStep)
    → contains a (ids xs) ≡ true
    → contains a (ids (xs ++ step ∷ [])) ≡ true
contains-append-left a [] step h = absurd (cc)
contains-append-left a (x ∷ xs) step h = ground (arith, contains-append-left a xs step)

pub contains-append-last :
    (xs : List BuildStep) (step : BuildStep) → contains step.type_id (ids (xs ++ step ∷ [])) ≡ true
contains-append-last [] step = ground arith
contains-append-last (x ∷ xs) step = ground (arith, contains-append-last xs step)

module _ (steps : Dict ℕ BuildStep) where
  abbrev pub has_step : ℕ → Bool
  has_step k = is_some (lookup k steps)

  -- The step of the dictionary under its type.
  abbrev pub IsStepOf : BuildStep → Type 0
  IsStepOf step = lookup step.type_id steps ≡ some step

  -- Every material of each step that has a step of its own stands in `done` or before the step.
  abbrev pub IsBuildOrder : List ℕ → List BuildStep → Type 0
  IsBuildOrder done [] = Unit
  IsBuildOrder done (step ∷ rest) =
      ((m : ℕ)
        → contains m (keys step.materials) ≡ true
        → has_step m ≡ true
        → contains m done ≡ true)
      × IsBuildOrder (step.type_id ∷ done) rest

  pub IsBuildOrder-snoc :
      (done : List ℕ) (xs : List BuildStep) (step : BuildStep)
      → IsBuildOrder done xs
      → ((m : ℕ)
          → contains m (keys step.materials) ≡ true
          → has_step m ≡ true
          → (contains m done || contains m (ids xs)) ≡ true)
      → IsBuildOrder done (xs ++ step ∷ [])
  IsBuildOrder-snoc done [] step h ready =
      ((λ m in_step known. ground (arith, ready m in_step known)), tt)
  IsBuildOrder-snoc done (x ∷ xs) step h ready = (
    h.0,
    IsBuildOrder-snoc (x.type_id ∷ done) xs step h.1
        (λ m in_step known. ground (arith, ready m in_step known)),
  )

  module _ (rank : ℕ → ℕ) where
    -- A number that falls from each step to its materials that have steps: there is no cycle.
    abbrev pub IsAcyclic : Type 0
    IsAcyclic =
        (k m : ℕ) (step : BuildStep)
        → lookup k steps ≡ some step
        → contains m (keys step.materials) ≡ true
        → has_step m ≡ true
        → rank m < rank k

    -- Visited steps of rank at most `r` have been ordered.
    abbrev pub Settled : ℕ → Visits → Type 0
    Settled r s =
        (k : ℕ)
        → contains k s.visited ≡ true
        → has_step k ≡ true
        → rank k ≤ r
        → contains k (ids s.ordered) ≡ true

    -- The order so far is a build order without repetition, of steps of visited types.
    pub record IsGood (s : Visits) : Type 0 where
      pub listed : All IsStepOf s.ordered
      pub in_order : IsBuildOrder [] s.ordered
      pub unique : IsUnique (ids s.ordered)
      pub seen : (k : ℕ) → contains k (ids s.ordered) ≡ true → contains k s.visited ≡ true

    -- What a visit adds: newly visited steps are ordered, nothing is lost, and what is newly ordered
    -- had not been visited.
    pub record Grows (s s' : Visits) : Type 0 where
      pub visited_grows : (k : ℕ) → contains k s.visited ≡ true → contains k s'.visited ≡ true
      pub ordered_grows :
          (k : ℕ) → contains k (ids s.ordered) ≡ true → contains k (ids s'.ordered) ≡ true
      pub new_ordered :
          (k : ℕ)
          → contains k s'.visited ≡ true
          → has_step k ≡ true
          → (contains k s.visited ≡ true) ⊎ (contains k (ids s'.ordered) ≡ true)
      pub ordered_new :
          (k : ℕ)
          → contains k (ids s'.ordered) ≡ true
          → (contains k (ids s.ordered) ≡ true) ⊎ (contains k s.visited ≡ false)

    pub Grows-refl : (s : Visits) → Grows s s
    Grows-refl s = record {
      visited_grows = λ k v. v;
      ordered_grows = λ k v. v;
      new_ordered = λ k v known. inl v;
      ordered_new = λ k v. inl v;
    }

    pub Grows-trans : {s t u : Visits} → Grows s t → Grows t u → Grows s u
    Grows-trans g h = record {
      visited_grows = λ k v. h.visited_grows k (g.visited_grows k v);
      ordered_grows = λ k v. h.ordered_grows k (g.ordered_grows k v);
      new_ordered = λ k v known. elim (h.new_ordered k v known) [
        | inl before ↦ elim (g.new_ordered k before known) [
          | inl earlier ↦ inl earlier
          | inr placed ↦ inr (h.ordered_grows k placed)
        ]
        | inr placed ↦ inr placed
      ];
      ordered_new = λ k v. elim (h.ordered_new k v) [
        | inl placed ↦ g.ordered_new k placed
        | inr new ↦ inr (ground (arith, g.visited_grows k))
      ];
    }

    pub Settled-Grows : {s s' : Visits} (r : ℕ) → Grows s s' → Settled r s → Settled r s'
    Settled-Grows r g h k v known le = elim (g.new_ordered k v known) [
      | inl before ↦ g.ordered_grows k (h k before known le)
      | inr placed ↦ placed
    ]

    -- What a visit of `t` promises, where it returns.
    abbrev pub Visit : (ℕ → Visits → Option Visits) → Type 0
    Visit visit =
        (t : ℕ) (s s' : Visits)
        → visit t s ≡ some s'
        → (has_step t ≡ true → Settled (rank t) s)
        → IsGood s
        → Grows s s' × IsGood s' × (contains t s'.visited ≡ true)

    -- The loop over the materials of a step.
    pub visit_each-Grows :
        (visit : ℕ → Visits → Option Visits)
        → Visit visit
        → (ts : List ℕ) (s s' : Visits) → visit_each visit ts s ≡ some s'
        → ((m : ℕ) → contains m ts ≡ true → has_step m ≡ true → Settled (rank m) s)
        → IsGood s
        → Grows s s' × IsGood s' × ((m : ℕ) → contains m ts ≡ true → contains m s'.visited ≡ true)
    unfolding visit_each
    visit_each-Grows visit grows [] s s' e low h =
        let same : s ≡ s' = cc in
        (subst (Grows s) same (Grows-refl s), subst IsGood same h, λ m none_in. cc)
    visit_each-Grows visit grows (t ∷ ts) s s' e low h = elim (Option-cases (visit t s)) [
      | inl stopped ↦ absurd (ground arith)
      | inr (s1, first) ↦
          let (g1, good1, seen1) = grows t s s1 first (low t (ground arith)) h in
          let (g2, good2, seen2) =
            visit_each-Grows visit grows ts s1 s' (ground arith)
              (λ m in_ts known. Settled-Grows (rank m) g1 (low m (ground arith) known)) good1 in
          (
            Grows-trans g1 g2,
            good2,
            λ m in_ts. elim (Bool-cases (t == m)) [
              | inl here ↦
                  subst (λ (j : ℕ). contains j s'.visited ≡ true) (eq_of_beq t m here)
                    (g2.visited_grows t seen1)
              | inr later ↦ seen2 m (ground arith)
            ],
          )
    ]
