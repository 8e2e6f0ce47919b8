-- ===== src/Startup/Indexes/Targets.antt =====
-- The loop of `sync_indexes` in db/index_sync.py over the specs of the files.
use Prim.Native.String.{◌++◌ as ◌<>◌}
use mathlib.Core.Path.{ap₂, subst}
use eve_build.Prelude.{
  ◌≡◌, refl, sym, ap, ◌∙◌, false, some, List, [], ◌∷◌, String, ◌==◌, string_eq, All, arith,
  Bool-cases, inl, inr,
}
use eve_build.Prelude.Dict.{eq_of_beq, beq_self}
use eve_build.Prelude.Exc.{ok, Result-cases}
use eve_build.External.Docs.{Docs}
use eve_build.External.Indexes.{Indexes, is_at}
use eve_build.Startup.Indexes.{
  spec_name, Definition, ConfigDoc, doc_id, Target, record_id, config_doc, State, sync_one,
  sync_each,
}
use eve_build.Startup.Indexes.Loop.{is_at-eq, Agrees, IsDone, Writes, sync_one-Writes}

some-injective : {A : Type 0} {a b : A} → some a ≡ some b → a ≡ b
some-injective h = ground (arith, h)

-- No other target in the list has the id of the target.
abbrev pub IsAlone : Target → List Target → Type 0
IsAlone target = All (λ u. record_id target ≡ record_id u → u ≡ target)

-- Two targets with one id are equal.
abbrev pub IsConsistent : List Target → Type 0
IsConsistent [] = Unit
IsConsistent (target ∷ rest) = IsAlone target rest × IsConsistent rest

pub is_at-apart :
    (t u : Target)
    → (record_id t == record_id u) ≡ false
    → is_at t.0 (spec_name t.1) u.0 (spec_name u.1) ≡ false
is_at-apart (collection, spec) (c, other) apart =
    elim (Bool-cases (is_at collection (spec_name spec) c (spec_name other))) [
      | inl here ↦
          let (same_collection, same_name) =
            is_at-eq collection (spec_name spec) c (spec_name other) here in
          let same : record_id (collection, spec) ≡ record_id (c, other) =
            ap₂ (λ x y. x <> ("." <> y)) same_collection same_name in
          absurd (
            ground (
              arith,
              sym (beq_self (record_id (collection, spec)))
                  ∙ ap (λ x. record_id (collection, spec) == x) same
                  ∙ apart,
            ))
      | inr other ↦ other
    ]

module _ (configs : Docs String ConfigDoc doc_id) (indexes : Indexes Definition) where
  open indexes use {get_index}

  Writes-self :
      (target : Target) (s s' : State configs indexes)
      → Writes configs indexes target s s'
      → IsDone configs indexes target s'
  Writes-self (collection, spec) s s' (records, built) = (
    records (record_id (collection, spec)) ∙ rw (beq_self (record_id (collection, spec))) refl,
    built collection (spec_name spec) ∙ rw (beq_self collection, beq_self (spec_name spec)) refl,
  )

  Writes-IsDone :
      (target u : Target) (s s' : State configs indexes)
      → Writes configs indexes target s s'
      → (record_id target ≡ record_id u → u ≡ target)
      → IsDone configs indexes u s
      → IsDone configs indexes u s'
  Writes-IsDone (collection, spec) (c, other_spec) s s' (records, built) alone (stored, made) =
      elim (Bool-cases (record_id (collection, spec) == record_id (c, other_spec))) [
        | inl same ↦
            let equal : (c, other_spec) ≡ (collection, spec) = alone (eq_of_beq _ _ same) in
            subst (λ x. IsDone configs indexes x s') (sym equal)
              (Writes-self (collection, spec) s s' (records, built))
        | inr apart ↦ (
          records (record_id (c, other_spec)) ∙ rw apart stored,
          built c (spec_name other_spec)
              ∙ rw (is_at-apart (collection, spec) (c, other_spec) apart) made,
        )
      ]

  Writes-Agrees :
      (target : Target) (s s' : State configs indexes)
      → Writes configs indexes target s s'
      → Agrees configs indexes s
      → Agrees configs indexes s'
  Writes-Agrees (collection, spec) s s' (records, built) agrees id doc found =
      elim (Bool-cases (record_id (collection, spec) == id)) [
        | inl here ↦
            let same : config_doc (collection, spec) ≡ doc =
              some-injective (sym (records id ∙ rw here refl) ∙ found) in
            let done = Writes-self (collection, spec) s s' (records, built) in
            rw (← same) (eq_of_beq _ _ here, ((refl, refl), done.1))
        | inr other ↦
            let (same_id, ((own, named), made)) =
              agrees id doc (sym (records id ∙ rw other refl) ∙ found) in
            let apart : (record_id (collection, spec) == record_id (doc.collection, doc.spec))
                ≡ false =
              ap (λ x. record_id (collection, spec) == x) (sym own ∙ same_id) ∙ other in
            let elsewhere : is_at collection (spec_name spec) doc.collection doc.name ≡ false =
              ap (λ x. is_at collection (spec_name spec) doc.collection x) named
              ∙ is_at-apart (collection, spec) (doc.collection, doc.spec) apart in
            (same_id, ((own, named), built doc.collection doc.name ∙ rw elsewhere made))
      ]

  sync_one-IsDone :
      (target : Target) (s s' : State configs indexes)
      → Agrees configs indexes s
      → sync_one configs indexes target s ≡ (s', ok tt)
      → IsDone configs indexes target s'
  sync_one-IsDone target s s' agrees ran =
      elim (sync_one-Writes configs indexes target s s' agrees ran) [
        | inl (same, done) ↦ subst (λ x. IsDone configs indexes target x) (sym same) done
        | inr writes ↦ Writes-self target s s' writes
      ]

  pub sync_one-Agrees :
      (target : Target) (s s' : State configs indexes)
      → Agrees configs indexes s
      → sync_one configs indexes target s ≡ (s', ok tt)
      → Agrees configs indexes s'
  sync_one-Agrees target s s' agrees ran =
      elim (sync_one-Writes configs indexes target s s' agrees ran) [
        | inl (same, done) ↦ subst (λ x. Agrees configs indexes x) (sym same) agrees
        | inr writes ↦ Writes-Agrees target s s' writes agrees
      ]

  sync_one-keeps :
      (target u : Target) (s s' : State configs indexes)
      → Agrees configs indexes s
      → (record_id u ≡ record_id target → target ≡ u)
      → sync_one configs indexes target s ≡ (s', ok tt)
      → IsDone configs indexes u s
      → IsDone configs indexes u s'
  sync_one-keeps target u s s' agrees alone ran done =
      elim (sync_one-Writes configs indexes target s s' agrees ran) [
        | inl (same, _) ↦ subst (λ x. IsDone configs indexes u x) (sym same) done
        | inr writes ↦ Writes-IsDone target u s s' writes (λ e. sym (alone (sym e))) done
      ]

  -- A loop that returns went through its first target.
  pub sync_each-cons :
      (target : Target) (rest : List Target) (s s' : State configs indexes)
      → sync_each configs indexes (target ∷ rest) s ≡ (s', ok tt)
      → (s₁ : State configs indexes) × (sync_one configs indexes target s ≡ (s₁, ok tt))
        × (sync_each configs indexes rest s₁ ≡ (s', ok tt))
  unfolding sync_each
  sync_each-cons target rest s s' ran =
      let one = sync_one configs indexes target s in
      elim (Result-cases one.1) [
        | inl (exc, failed) ↦ absurd (ground (arith, ap (λ r. r.1) (rw (failed, sync_each) at ran)))
        | inr (done, returned) ↦
            (one.0, ap (λ r. (one.0, r)) returned, rw (returned, sync_each) at ran)
      ]

  -- The loop keeps a target that is done, if it is the only one with its id.
  sync_each-IsDone :
      (rest : List Target) (u : Target) (s s' : State configs indexes)
      → Agrees configs indexes s
      → IsAlone u rest
      → sync_each configs indexes rest s ≡ (s', ok tt)
      → IsDone configs indexes u s
      → IsDone configs indexes u s'
  unfolding sync_each
  sync_each-IsDone [] u s s' agrees alone ran done =
      subst (λ x. IsDone configs indexes u x) (ap (λ r. r.0) ran) done
  sync_each-IsDone (target ∷ rest) u s s' agrees alone ran done =
      let (s₁, first, later) = sync_each-cons target rest s s' ran in
      let kept = sync_one-keeps target u s s₁ agrees alone.0 first done in
      sync_each-IsDone rest u s₁ s' (sync_one-Agrees target s s₁ agrees first) alone.1 later kept

  -- Every target of the loop is done at the end.
  pub sync_each-AreDone :
      (rest : List Target) (s s' : State configs indexes)
      → Agrees configs indexes s
      → IsConsistent rest
      → sync_each configs indexes rest s ≡ (s', ok tt)
      → Agrees configs indexes s' × All (λ u. IsDone configs indexes u s') rest
  unfolding sync_each
  sync_each-AreDone [] s s' agrees consistent ran =
      (subst (λ x. Agrees configs indexes x) (ap (λ r. r.0) ran) agrees, tt)
  sync_each-AreDone (target ∷ rest) s s' agrees consistent ran =
      let (s₁, first, later) = sync_each-cons target rest s s' ran in
      let agrees₁ = sync_one-Agrees target s s₁ agrees first in
      let (agrees', done) = sync_each-AreDone rest s₁ s' agrees₁ consistent.1 later in
      (
        agrees',
        (
          sync_each-IsDone rest target s₁ s' agrees₁ consistent.0 later
              (sync_one-IsDone target s s₁ agrees first),
          done,
        ),
      )
