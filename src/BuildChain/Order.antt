-- ===== src/BuildChain/Order.antt =====
-- `_topological_order` of services/build_chain.py: a depth-first post-order from the target.
-- The recursion of `_visit` takes fuel; Order/Fuel shows how much is enough.
pub mod Fuel
pub mod Before
pub mod Visit
use eve_build.Prelude.{
  ℕ, zero, suc, Bool, true, false, Option, none, some, List, [], ◌∷◌, ◌++◌, if◌then◌else◌, ◌==◌,
  nat_eq, contains, length,
}
use eve_build.Prelude.Dict.{Dict, lookup, keys}
use eve_build.BuildChain.Walk.{BuildStep}

-- `visited` and `ordered`; the set is a list with the newest first.
pub record Visits : Type 0 where
  pub visited : List ℕ
  pub ordered : List BuildStep

-- `for material_type_id in step.materials: _visit(material_type_id)`
unfoldable pub visit_each : (ℕ → Visits → Option Visits) → List ℕ → Visits → Option Visits
visit_each visit [] s = some s
visit_each visit (type_id ∷ rest) s = elim (visit type_id s) [
  | none ↦ none
  | some s' ↦ visit_each visit rest s'
]

-- `ordered.append(step)`
abbrev pub append_step : BuildStep → Option Visits → Option Visits
append_step step none = none
append_step step (some s) = some (record s { ordered = s.ordered ++ step ∷ [] })

abbrev pub mark : ℕ → Visits → Visits
mark type_id s = record s { visited = type_id ∷ s.visited }

-- `none` means that the fuel ran out.
unfoldable pub visit_type : Dict ℕ BuildStep → ℕ → ℕ → Visits → Option Visits
visit_type steps zero type_id s = none
visit_type steps (suc fuel) type_id s =
    let found : Option Visits = elim (lookup type_id steps) [
      | none ↦ some (mark type_id s)
      | some step ↦
          append_step step
            (visit_each (visit_type steps fuel) (keys step.materials) (mark type_id s))
    ] in
    if contains type_id s.visited then some s else found

abbrev pub unvisited : Visits
unvisited = record { visited = []; ordered = [] }

unfoldable pub topological_order : ℕ → Dict ℕ BuildStep → Option (List BuildStep)
topological_order target_type_id steps =
    elim (visit_type steps (suc (length (keys steps))) target_type_id unvisited) [
      | none ↦ none
      | some s ↦ some s.ordered
    ]
