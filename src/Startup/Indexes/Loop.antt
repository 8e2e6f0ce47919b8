-- ===== src/Startup/Indexes/Loop.antt =====
-- One target, and one dropped record, of `sync_indexes` in db/index_sync.py.
use Prim.Native.String.{◌++◌ as ◌<>◌}
use text.Mathlib.TextLemmas.{append_cancel_right}
use eve_build.Prelude.{
  ◌≡◌, ◌⊎◌, refl, sym, ap, ◌∙◌, true, none, some, String, if◌then◌else◌, ◌==◌, string_eq, arith,
  Bool-cases, Option-cases, inl, inr,
}
use eve_build.Prelude.Dict.{eq_of_beq, beq_self}
use eve_build.Prelude.Exc.{ok, Result-cases}
use eve_build.Prelude.Equality.{option_eq, list_eq, pair_eq}
use eve_build.Prelude.Int.{int_eq}
use eve_build.External.Docs.{Docs}
use eve_build.External.Indexes.{Indexes, is_at}
use eve_build.Startup.Indexes.{
  Spec, spec_beq, spec_name, Definition, definition, ConfigDoc, doc_id, Target, record_id,
  config_doc, is_current, State, drop_index_if_exists, sync_one,
}

pub eq_of_spec_beq : (a b : Spec) → spec_beq a b ≡ true → a ≡ b
eq_of_spec_beq a b h = ground (
  arith,
  eq_of_beq a.name b.name,
  eq_of_beq a.keys b.keys,
  eq_of_beq a.unique b.unique,
  eq_of_beq a.sparse b.sparse,
  eq_of_beq a.expire_after_seconds b.expire_after_seconds,
)

-- A record that was written for its own collection and spec.
abbrev pub IsOwn : ConfigDoc → Type 0
IsOwn doc = (doc.id ≡ record_id (doc.collection, doc.spec)) × (doc.name ≡ spec_name doc.spec)

pub is_at-eq :
    (collection name c n : String)
    → is_at collection name c n ≡ true
    → (collection ≡ c) × (name ≡ n)
is_at-eq collection name c n h =
    (eq_of_beq collection c (ground (arith, h)), eq_of_beq name n (ground (arith, h)))

-- The record of a target is under its id only if its collection is the target's.
IsOwn-config_doc :
    (doc : ConfigDoc) (target : Target)
    → IsOwn doc
    → doc.id ≡ record_id target
    → doc.spec ≡ target.1
    → doc ≡ config_doc target
IsOwn-config_doc doc (collection, spec) (own, named) same_id same_spec =
    let spelled : record_id (doc.collection, spec) ≡ record_id (collection, spec) =
      sym (own ∙ ap (λ x. record_id (doc.collection, x)) same_spec) ∙ same_id in
    let same : doc.collection ≡ collection =
      append_cancel_right doc.collection collection ("." <> spec_name spec) spelled in
    let name_too : doc.name ≡ spec_name spec = named ∙ ap spec_name same_spec in
    ground (arith, same, name_too, same_id, same_spec)

module _ (configs : Docs String ConfigDoc doc_id) (indexes : Indexes Definition) where
  open indexes use {get_index}

  pub drop_index_if_exists-get :
      (collection name c n : String) (built : Indexes.Store indexes)
      → get_index c n (drop_index_if_exists configs indexes collection name built)
        ≡ (if is_at collection name c n then none else get_index c n built)
  unfolding drop_index_if_exists
  drop_index_if_exists-get collection name c n built =
      elim (Option-cases (get_index collection name built)) [
        | inl absent ↦
            rw (indexes.drop_index-absent collection name built absent, drop_index_if_exists)
              (elim (Bool-cases (is_at collection name c n)) [
                | inl here ↦
                    let (same_collection, same_name) = is_at-eq collection name c n here in
                    rw here (rw (← same_collection, ← same_name) absent)
                | inr other ↦ rw other refl
              ])
        | inr (d, present) ↦
            let (built', dropped, now) =
              indexes.drop_index-present collection name built d present in
            rw (dropped, drop_index_if_exists) (now c n)
      ]

  -- A record is its own, and the index that it records is built.
  abbrev pub Agrees : State configs indexes → Type 0
  Agrees s =
      (id : String) (doc : ConfigDoc)
      → Docs.get configs id s.records ≡ some doc
      → (doc.id ≡ id)
        × (IsOwn doc × (get_index doc.collection doc.name s.built ≡ some (definition doc.spec)))

  -- The target is recorded and built.
  abbrev pub IsDone : Target → State configs indexes → Type 0
  IsDone (collection, spec) s =
      (Docs.get configs (record_id (collection, spec)) s.records
        ≡ some (config_doc (collection, spec)))
      × (get_index collection (spec_name spec) s.built ≡ some (definition spec))

  -- The target's record and index are written, and no other.
  abbrev pub Writes : Target → State configs indexes → State configs indexes → Type 0
  Writes (collection, spec) s s' =
      ((id : String)
        → Docs.get configs id s'.records ≡ (
            if record_id (collection, spec) == id
            then some (config_doc (collection, spec))
            else Docs.get configs id s.records))
      × ((c n : String)
          → get_index c n s'.built ≡ (
              if is_at collection (spec_name spec) c n
              then some (definition spec)
              else get_index c n s.built))

  pub is_current-IsDone :
      (target : Target) (s : State configs indexes)
      → Agrees s
      → is_current target.1 (Docs.get configs (record_id target) s.records) ≡ true
      → IsDone target s
  is_current-IsDone (collection, spec) s agrees current =
      elim (Option-cases (Docs.get configs (record_id (collection, spec)) s.records)) [
        | inl absent ↦ absurd (ground (arith, rw absent at current))
        | inr (doc, found) ↦
            let (same_id, (own, built)) = agrees (record_id (collection, spec)) doc found in
            let same_spec = eq_of_spec_beq doc.spec spec (rw found at current) in
            let same = IsOwn-config_doc doc (collection, spec) own same_id same_spec in
            (found ∙ ap (λ d. some d) same, rw same at built)
      ]

  rebuilt-Writes :
      (target : Target) (s : State configs indexes) (built : Indexes.Store indexes)
      → indexes.create_index target.0
          (spec_name target.1)
          (definition target.1)
          (drop_index_if_exists configs indexes target.0 (spec_name target.1) s.built)
        ≡ ok built
      → Writes target s (record {
        records = Docs.replace_one configs (config_doc target) s.records;
        built = built;
      })
  rebuilt-Writes (collection, spec) s built created =
      let name = spec_name spec in
      let dropped = drop_index_if_exists configs indexes collection name s.built in
      let gone : get_index collection name dropped ≡ none =
        drop_index_if_exists-get collection name collection name s.built
        ∙ rw (beq_self collection, beq_self name) refl in
      (
        (λ id. Docs.get-replace_one configs (config_doc (collection, spec)) s.records id),
        (λ c n.
            indexes.create_index-absent collection name (definition spec) dropped built gone created
              c n
            ∙ (elim (Bool-cases (is_at collection name c n)) [
              | inl here ↦ rw here refl
              | inr other ↦
                  rw other (drop_index_if_exists-get collection name c n s.built ∙ rw other refl)
            ])),
      )

  pub sync_one-Writes :
      (target : Target) (s s' : State configs indexes)
      → Agrees s
      → sync_one configs indexes target s ≡ (s', ok tt)
      → ((s' ≡ s) × IsDone target s) ⊎ Writes target s s'
  unfolding sync_one
  sync_one-Writes (collection, spec) s s' agrees ran =
      let stored = Docs.get configs (record_id (collection, spec)) s.records in
      let dropped = drop_index_if_exists configs indexes collection (spec_name spec) s.built in
      elim (Bool-cases (is_current spec stored)) [
        | inl current ↦
            let same : s ≡ s' = ap (λ r. r.0) (rw (current, sync_one) at ran) in
            inl (sym same, is_current-IsDone (collection, spec) s agrees current)
        | inr stale ↦
            elim (Result-cases
              (indexes.create_index collection (spec_name spec) (definition spec) dropped)) [
                | inl (exc, failed) ↦
                    absurd (ground (arith, ap (λ r. r.1) (rw (stale, failed, sync_one) at ran)))
                | inr (built, created) ↦
                    let same : record {
                      records = Docs.replace_one configs (config_doc (collection, spec)) s.records;
                      built = built;
                    }
                        ≡ s' =
                      ap (λ r. r.0) (rw (stale, created, sync_one) at ran) in
                    rw (← same) (inr (rebuilt-Writes (collection, spec) s built created))
              ]
      ]
