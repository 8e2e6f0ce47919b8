-- ===== src/BuildChain/Order/Fuel.antt =====
-- One more than the number of steps is fuel enough for `_topological_order`: a call that finds a
-- step marks a key that was not marked.
use eve_build.Prelude.{
  ℕ, zero, suc, ◌≤◌, ◌<◌, ◌≡◌, refl, Option, some, List, [], ◌∷◌, ◌++◌, nat_eq, contains, length,
  arith, Bool-cases, Option-cases, inl, inr,
}
use eve_build.Prelude.Dict.{Dict, lookup, keys, contains-keys}
use eve_build.Prelude.Unseen.{unseen, unseen-le, unseen-cons-le, unseen-cons-lt}
use eve_build.BuildChain.Walk.{BuildStep}
use eve_build.BuildChain.Order.{Visits, visit_each, mark, visit_type, unvisited, topological_order}

-- How many of the keys are not marked yet.
abbrev pub left_over : List ℕ → Visits → ℕ
left_over ks s = unseen ks s.visited

-- The visit returns, and marks no fewer keys than before.
abbrev Ends : List ℕ → Visits → Option Visits → Type 0
Ends ks s r = (s' : Visits) × (r ≡ some s') × (left_over ks s' ≤ left_over ks s)

module _ (ks : List ℕ) (visit : ℕ → Visits → Option Visits) where
  visit_each-Ends :
      (bound : ℕ)
      → ((t : ℕ) (s : Visits) → left_over ks s < bound → Ends ks s (visit t s))
      → (ts : List ℕ) (s : Visits) → left_over ks s < bound
      → Ends ks s (visit_each visit ts s)
  unfolding visit_each
  visit_each-Ends bound ends [] s h = (s, refl, omega arith)
  visit_each-Ends bound ends (t ∷ ts) s h =
      let (s1, first, le1) = ends t s h in
      let (s2, later, le2) = visit_each-Ends bound ends ts s1 (omega arith) in
      (s2, rw (first, visit_each) later, omega arith)

visit_type-Ends :
    (steps : Dict ℕ BuildStep) (fuel t : ℕ) (s : Visits)
    → left_over (keys steps) s < fuel
    → Ends (keys steps) s (visit_type steps fuel t s)
unfolding visit_type
visit_type-Ends steps zero t s h = absurd (omega arith)
visit_type-Ends steps (suc fuel) t s h = elim (Bool-cases (contains t s.visited)) [
  | inl seen ↦ (s, rw seen, omega arith)
  | inr new ↦ elim (Option-cases (lookup t steps)) [
    | inl absent ↦ (mark t s, rw (new, absent, visit_type), unseen-cons-le (keys steps) t s.visited)
    | inr (step, found) ↦
        let marked =
          unseen-cons-lt (keys steps) t s.visited (ground (arith, contains-keys t steps)) new in
        let (s1, deeper, le1) =
          visit_each-Ends (keys steps) (visit_type steps fuel) fuel (visit_type-Ends steps fuel)
            (keys step.materials) (mark t s) (omega arith) in
        (
          record s1 { ordered = s1.ordered ++ step ∷ [] },
          rw (new, found, deeper, visit_type),
          omega arith,
        )
  ]
]

-- `_topological_order` ends, on every graph of steps, also one with a cycle.
pub topological_order-Ends :
    (target : ℕ) (steps : Dict ℕ BuildStep)
    → (ordered : List BuildStep) × (topological_order target steps ≡ some ordered)
unfolding topological_order
topological_order-Ends target steps =
    let (s, returns, _) =
      visit_type-Ends steps (suc (length (keys steps))) target unvisited
        (omega (arith, unseen-le (keys steps) [])) in
    (s.ordered, rw (returns, topological_order))
