-- ===== src/PlanPages/Blueprints/Values.antt =====
-- What a blueprint of the character adds to a plan, and what `detect_job_structure` detects.
use eve_build.Prelude.{
  ℕ, zero, suc, ◌≤◌, ◌≡◌, ◌⊎◌, Bool, true, false, Option, none, some, List, [], ◌∷◌, String,
  contains, filter, find, get_or, All, if◌then◌else◌, nat_eq, string_eq, arith, Bool-cases,
  Option-cases, inl, inr,
}
use eve_build.Prelude.Dict.{lookup}
use eve_build.Prelude.Int.{ℤ, pos, negsuc, int_beq, int_ltb, int_eq}
use eve_build.Prelude.Exc.{ok, Result-cases}
use eve_build.External.Float.{FloatArith}
use eve_build.BuildChain.Efficiency.{security_band_for_status}
use eve_build.BuildChain.Efficiency.Laws.{security_band-known}
use eve_build.Locations.Info.{LocationInfo}
use eve_build.Plan.Doc.{Job}
use eve_build.PlanPages.{security_bands}
use eve_build.PlanPages.Blueprints.{
  Blueprint, ProductDoc, multiplied, product_of, linked, structure_of, at_place, at_blueprint,
  detected,
}

-- An original, or a copy with runs left.
abbrev pub HasRuns : Blueprint → Type 0
HasRuns bp = (bp.runs ≡ negsuc 0) ⊎ (int_ltb bp.runs (pos 1) ≡ false)

-- A blueprint that makes something makes at least one unit in a run.
abbrev pub Makes : ProductDoc → Type 0
Makes sde_doc = 1 ≤ get_or sde_doc.product_quantity 1

multiplied_positive :
    (quantity : ℕ) (runs : ℤ)
    → 1 ≤ quantity
    → int_ltb runs (pos 1) ≡ false
    → int_ltb (multiplied quantity runs) (pos 1) ≡ false
multiplied_positive zero runs h k = absurd (omega arith)
multiplied_positive (suc q) (negsuc n) h k = absurd (ground arith)
multiplied_positive (suc q) (pos zero) h k = absurd (ground arith)
multiplied_positive (suc q) (pos (suc n)) h k = grind arith

remaining_positive :
    (bp : Blueprint)
    → HasRuns bp
    → int_ltb (if int_beq bp.runs (negsuc 0) then pos 1 else bp.runs) (pos 1) ≡ false
remaining_positive bp (inl original) = rw original
remaining_positive bp (inr copy) = ground arith

pub product_of_positive :
    (sde_by_type_id : ℕ → Option ProductDoc) (bp : Blueprint) (type : ℕ) (quantity : ℤ)
    → HasRuns bp
    → ((type_id : ℕ) (sde_doc : ProductDoc) → sde_by_type_id type_id ≡ some sde_doc → Makes sde_doc)
    → product_of sde_by_type_id bp ≡ some (type, quantity)
    → int_ltb quantity (pos 1) ≡ false
unfolding product_of
product_of_positive sde_by_type_id bp type quantity runs makes h =
    elim (Option-cases (sde_by_type_id bp.type_id)) [
      | inl unknown ↦
          let never : none ≡ some (type, quantity) = rw (unknown, product_of) at h in
          absurd (ground (arith, never))
      | inr (sde_doc, known) ↦ elim (Option-cases sde_doc.product_type_id) [
        | inl nothing ↦
            let never : none ≡ some (type, quantity) = rw (known, nothing, product_of) at h in
            absurd (ground (arith, never))
        | inr (product, made) ↦
            let units =
              multiplied (get_or sde_doc.product_quantity 1)
                (if int_beq bp.runs (negsuc 0) then pos 1 else bp.runs) in
            let whole : some (product, units) ≡ some (type, quantity) =
              rw (known, made, product_of) at h in
            let same : units ≡ quantity = ground (arith, whole) in
            rw (← same) (
              multiplied_positive (get_or sde_doc.product_quantity 1) _
                (makes bp.type_id sde_doc known) (remaining_positive bp runs))
      ]
    ]

pub All-find {ℓ κ} :
    {A : Type ℓ} (P : A → Type κ) (p : A → Bool) (xs : List A) (x : A)
    → All P xs
    → find p xs ≡ some x
    → P x
All-find P p [] x h e = absurd (ground (arith, e))
All-find P p (y ∷ ys) x h e = elim (Bool-cases (p y)) [
  | inl here ↦
      let found : some y ≡ some x = rw here at e in
      let same : y ≡ x = ground (arith, found) in rw (← same) h.0
  | inr other ↦ All-find P p ys x h.1 (rw other at e)
]

pub All-filter {ℓ κ} :
    {A : Type ℓ} (P : A → Type κ) (p : A → Bool) (xs : List A) → All P xs → All P (filter p xs)
All-filter P p [] h = tt
All-filter P p (x ∷ xs) h = elim (Bool-cases (p x)) [
  | inl stays ↦ rw stays (h.0, All-filter P p xs h.1)
  | inr goes ↦ rw goes (All-filter P p xs h.1)
]

module _ (F : FloatArith) where
  structure_of-band :
      (group_of : ℕ → Option ℕ) (found : Option (LocationInfo (FloatArith.Float F)))
      (complex : Bool) (band : String)
      → structure_of F group_of found ≡ some (complex, band)
      → contains band security_bands ≡ true
  structure_of-band group_of none complex band h = absurd (ground (arith, h))
  structure_of-band group_of (some info) complex band h = elim (Option-cases info.type_id) [
    | inl unknown ↦
        let never : none ≡ some (complex, band) = rw unknown at h in absurd (ground (arith, never))
    | inr (type_id, known) ↦
        let status = get_or info.security_status (FloatArith.of_ℕ F 1) in
        let whole = rw known at h in
        let same : security_band_for_status F status ≡ band = ground (arith, whole) in
        rw (← same) (security_band-known F status)
  ]

  at_place-band :
      (locate : _) (group_of : ℕ → Option ℕ) (place : Option ℕ) (complex : Bool) (band : String)
      → at_place F locate group_of place ≡ ok (some (complex, band))
      → contains band security_bands ≡ true
  at_place-band locate group_of none complex band h = absurd (ground (arith, h))
  at_place-band locate group_of (some place) complex band h = elim (Result-cases (locate place)) [
    | inl (raised, failed) ↦ let never = rw failed at h in absurd (ground (arith, never))
    | inr (infos, located) ↦
        let there = rw located at h in
        structure_of-band group_of (lookup place infos) complex band (ground (arith, there))
  ]

  at_blueprint-band :
      (assets : _) (locate : _) (group_of : ℕ → Option ℕ) (found : Option Blueprint)
      (complex : Bool) (band : String)
      → at_blueprint F assets locate group_of found ≡ ok (some (complex, band))
      → contains band security_bands ≡ true
  at_blueprint-band assets locate group_of none complex band h = absurd (ground (arith, h))
  at_blueprint-band assets locate group_of (some bp) complex band h = elim (Result-cases assets) [
    | inl (raised, failed) ↦ let never = rw failed at h in absurd (ground (arith, never))
    | inr (entries, read) ↦ at_place-band locate group_of _ complex band (rw read at h)
  ]

  pub detected-band :
      (owned : _) (assets : _) (locate : _) (group_of : ℕ → Option ℕ) (job : Job) (complex : Bool)
      (band : String)
      → detected F owned assets locate group_of job ≡ ok (some (complex, band))
      → contains band security_bands ≡ true
  unfolding detected
  detected-band owned assets locate group_of job complex band h =
      elim (Option-cases (linked job.blueprint_item_id)) [
        | inl apart ↦ let never = rw (apart, detected) at h in absurd (ground (arith, never))
        | inr (item_id, has) ↦
            let there = rw (has, detected) at h in
            elim (Result-cases owned) [
              | inl (raised, failed) ↦
                  let never = rw failed at there in absurd (ground (arith, never))
              | inr (blueprints, read) ↦
                  at_blueprint-band assets locate group_of _ complex band (rw read at there)
            ]
      ]
