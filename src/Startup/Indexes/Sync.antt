-- ===== src/Startup/Indexes/Sync.antt =====
-- The whole of `sync_indexes` in db/index_sync.py.
use mathlib.Core.Path.{subst}
use eve_build.Prelude.{
  ◌≡◌, ◌⊎◌, refl, sym, ap, ◌∙◌, true, false, none, some, List, [], ◌∷◌, map, String, ◌==◌,
  string_eq, contains, any, is_some, All, arith, Bool-cases, Option-cases, inl, inr,
}
use eve_build.Prelude.Dict.{Dict, eq_of_beq, beq_self}
use eve_build.Prelude.Exc.{ok, Result-cases}
use eve_build.External.Docs.{Docs}
use eve_build.External.Indexes.{Indexes, is_at}
use eve_build.Startup.Indexes.{
  ConfigFile, Spec, spec_name, Definition, definition, ConfigDoc, doc_id, Target, targets,
  record_id, State, load_index_configs, drop_index_if_exists, sync_each, drop_unmanaged,
  sync_indexes,
}
use eve_build.Startup.Indexes.Loop.{IsOwn, drop_index_if_exists-get, Agrees, IsDone}
use eve_build.Startup.Indexes.Dropped.{sync_each-others, drop_unmanaged-no_index}
use eve_build.Startup.Indexes.Targets.{IsConsistent, is_at-apart, sync_each-AreDone}

-- An id in the list is not one that is not in it.
other_id :
    (a b : String) (ids : List String)
    → contains a ids ≡ false
    → contains b ids ≡ true
    → (a == b) ≡ false
other_id a b ids out inside = elim (Bool-cases (a == b)) [
  | inl same ↦
      absurd (ground (arith, sym out ∙ ap (λ x. contains x ids) (eq_of_beq a b same) ∙ inside))
  | inr apart ↦ apart
]

not_id :
    (a b : String) (ids : List String)
    → contains a ids ≡ true
    → contains b ids ≡ false
    → (a == b) ≡ false
not_id a b ids inside out = elim (Bool-cases (a == b)) [
  | inl same ↦
      absurd
        (ground (arith, sym out ∙ ap (λ x. contains x ids) (sym (eq_of_beq a b same)) ∙ inside))
  | inr apart ↦ apart
]

-- The ids of a list are among its ids, and more.
contains-All-cons :
    (l : List Target) (id : String) (ids : List String)
    → All (λ t. contains (record_id t) ids ≡ true) l
    → All (λ t. contains (record_id t) (id ∷ ids) ≡ true) l
contains-All-cons [] id ids h = tt
contains-All-cons (t ∷ l) id ids h = (ground (arith, h.0), contains-All-cons l id ids h.1)

contains-All : (l : List Target) → All (λ t. contains (record_id t) (map record_id l) ≡ true) l
contains-All [] = tt
contains-All (t ∷ l) = (
  rw (beq_self (record_id t)) refl,
  contains-All-cons l (record_id t) (map record_id l) (contains-All l),
)

module _ (configs : Docs String ConfigDoc doc_id) (indexes : Indexes Definition) where
  open indexes use {get_index}

  -- What the loop does with a record that is not in the files.
  abbrev dropped : ConfigDoc → State configs indexes → State configs indexes
  dropped doc s = record {
    records = Docs.delete_one configs doc.id s.records;
    built = drop_index_if_exists configs indexes doc.collection doc.name s.built;
  }

  -- The index of another record is left alone.
  dropped-get_index :
      (doc : ConfigDoc) (u : Target) (s : State configs indexes)
      → IsOwn doc
      → (doc.id == record_id u) ≡ false
      → get_index u.0 (spec_name u.1) (dropped doc s).built ≡ get_index u.0 (spec_name u.1) s.built
  dropped-get_index doc u s (own, named) apart =
      let elsewhere : is_at doc.collection doc.name u.0 (spec_name u.1) ≡ false =
        ap (λ x. is_at doc.collection x u.0 (spec_name u.1)) named
        ∙ is_at-apart (doc.collection, doc.spec) u (ap (λ x. x == record_id u) (sym own) ∙ apart) in
      drop_index_if_exists-get configs indexes doc.collection doc.name u.0 (spec_name u.1) s.built
      ∙ rw elsewhere refl

  dropped-Agrees :
      (doc : ConfigDoc) (s : State configs indexes)
      → IsOwn doc
      → Agrees configs indexes s
      → Agrees configs indexes (dropped doc s)
  dropped-Agrees doc s own agrees id d found = elim (Bool-cases (doc.id == id)) [
    | inl same ↦
        let gone : Docs.get configs id (dropped doc s).records ≡ none =
          Docs.get-delete_one configs doc.id s.records id ∙ rw same refl in
        absurd (ground (arith, gone, found))
    | inr other ↦
        let (same_id, ((d_own, named), made)) =
          agrees id d
            (sym (Docs.get-delete_one configs doc.id s.records id ∙ rw other refl) ∙ found) in
        let apart : (doc.id == record_id (d.collection, d.spec)) ≡ false =
          ap (λ x. doc.id == x) (sym d_own ∙ same_id) ∙ other in
        (
          same_id,
          (
            (d_own, named),
            subst (λ n. get_index d.collection n (dropped doc s).built ≡ some (definition d.spec))
                (sym named)
                (dropped-get_index doc (d.collection, d.spec) s own apart
                  ∙ subst (λ n. get_index d.collection n s.built ≡ some (definition d.spec)) named
                      made),
          ),
        )
  ]

  dropped-IsDone :
      (doc : ConfigDoc) (u : Target) (s : State configs indexes)
      → IsOwn doc
      → (doc.id == record_id u) ≡ false
      → IsDone configs indexes u s
      → IsDone configs indexes u (dropped doc s)
  dropped-IsDone doc (c, spec) s own apart (stored, made) = (
    Docs.get-delete_one configs doc.id s.records (record_id (c, spec)) ∙ rw apart stored,
    dropped-get_index doc (c, spec) s own apart ∙ made,
  )

  -- After the loop over the records: they still agree, the targets are still done, and a record
  -- that is no target's is gone, if the loop saw it.
  drop_unmanaged-keeps :
      (ids : List String) (docs : List ConfigDoc) (s : State configs indexes)
      → All IsOwn docs
      → Agrees configs indexes s
      → Agrees configs indexes (drop_unmanaged configs indexes ids docs s)
        × ((u : Target)
            → contains (record_id u) ids ≡ true
            → IsDone configs indexes u s
            → IsDone configs indexes u (drop_unmanaged configs indexes ids docs s))
  unfolding drop_unmanaged
  drop_unmanaged-keeps ids [] s own agrees = (agrees, λ u wanted done. done)
  drop_unmanaged-keeps ids (doc ∷ docs) s own agrees = elim (Bool-cases (contains doc.id ids)) [
    | inl managed ↦ rw (managed, drop_unmanaged) (drop_unmanaged-keeps ids docs s own.1 agrees)
    | inr unmanaged ↦
        let (agrees', keeps) =
          drop_unmanaged-keeps ids docs (dropped doc s) own.1 (dropped-Agrees doc s own.0 agrees) in
        rw (unmanaged, drop_unmanaged)
          (
            agrees',
            λ u wanted done. keeps u wanted (
                dropped-IsDone doc u s own.0 (other_id doc.id (record_id u) ids unmanaged wanted)
                  done),
          )
  ]

  drop_unmanaged-none :
      (ids : List String) (docs : List ConfigDoc) (s : State configs indexes) (id : String)
      → contains id ids ≡ false
      → any (λ d. doc_id d == id) docs ≡ true ⊎ (Docs.get configs id s.records ≡ none)
      → Docs.get configs id (drop_unmanaged configs indexes ids docs s).records ≡ none
  unfolding drop_unmanaged
  drop_unmanaged-none ids [] s id unwanted (inl seen) = absurd (ground (arith, seen))
  drop_unmanaged-none ids [] s id unwanted (inr gone) = gone
  drop_unmanaged-none ids (doc ∷ docs) s id unwanted seen =
      elim (Bool-cases (contains doc.id ids)) [
        | inl managed ↦
            let apart = not_id doc.id id ids managed unwanted in
            rw (managed, drop_unmanaged)
              (drop_unmanaged-none ids docs s id unwanted (elim seen [
                | inl some_doc ↦ inl (ground (arith, some_doc, apart))
                | inr gone ↦ inr gone
              ]))
        | inr unmanaged ↦
            rw (unmanaged, drop_unmanaged)
              (drop_unmanaged-none ids docs (dropped doc s) id unwanted
                (elim (Bool-cases (doc.id == id)) [
                  | inl same ↦ inr (Docs.get-delete_one configs doc.id s.records id ∙ rw same refl)
                  | inr apart ↦ elim seen [
                    | inl some_doc ↦ inl (ground (arith, some_doc, apart))
                    | inr gone ↦
                        inr (Docs.get-delete_one configs doc.id s.records id ∙ rw apart gone)
                  ]
                ]))
      ]

  records-IsOwn :
      (s : State configs indexes) (docs : List ConfigDoc)
      → Agrees configs indexes s
      → All (λ (d : ConfigDoc). Docs.get configs (doc_id d) s.records ≡ some d) docs
      → All IsOwn docs
  records-IsOwn s [] agrees h = tt
  records-IsOwn s (doc ∷ docs) agrees h =
      let (same_id, (own, made)) = agrees doc.id doc h.0 in (own, records-IsOwn s docs agrees h.1)

  keep-IsDone :
      (l : List Target) (ids : List String) (s s' : State configs indexes)
      → ((u : Target)
          → contains (record_id u) ids ≡ true
          → IsDone configs indexes u s
          → IsDone configs indexes u s')
      → All (λ u. contains (record_id u) ids ≡ true) l
      → All (λ u. IsDone configs indexes u s) l
      → All (λ u. IsDone configs indexes u s') l
  keep-IsDone [] ids s s' keeps inside done = tt
  keep-IsDone (u ∷ l) ids s s' keeps inside done =
      (keeps u inside.0 done.0, keep-IsDone l ids s s' keeps inside.1 done.1)

  -- Where the records agree with the indexes, and no two specs of the files have one record id: a
  -- call that returns leaves every spec of the files recorded and its index built as the spec says;
  -- of what was recorded and is not in the files any more, it leaves neither the record nor the
  -- index, and no other record either; and the records agree with the indexes again.
  pub sync_indexes-IsSynced :
      (files : List ConfigFile) (desired : Dict String (List Spec)) (s s' : State configs indexes)
      → load_index_configs files ≡ ok desired
      → IsConsistent (targets desired)
      → Agrees configs indexes s
      → sync_indexes configs indexes files s ≡ (s', ok tt)
      → All (λ u. IsDone configs indexes u s') (targets desired)
        × (((id : String)
              → contains id (map record_id (targets desired)) ≡ false
              → Docs.get configs id s'.records ≡ none)
            × ((id : String) (doc : ConfigDoc)
                → contains id (map record_id (targets desired)) ≡ false
                → Docs.get configs id s.records ≡ some doc
                → get_index doc.collection doc.name s'.built ≡ none)
            × Agrees configs indexes s')
  unfolding sync_indexes
  sync_indexes-IsSynced files desired s s' loaded consistent agrees ran =
      let each = sync_each configs indexes (targets desired) s in
      let ids = map record_id (targets desired) in
      elim (Result-cases each.1) [
        | inl (exc, failed) ↦
            absurd (ground (arith, ap (λ r. r.1) (rw (loaded, failed, sync_indexes) at ran)))
        | inr (_, returned) ↦
            let (agrees₁, done) =
              sync_each-AreDone configs indexes (targets desired) s each.0 agrees consistent
                (ap (λ r. (each.0, r)) returned) in
            let docs = Docs.find_all configs each.0.records in
            let keyed : (k : String) (d : ConfigDoc)
                → Docs.get configs k each.0.records ≡ some d
                → doc_id d ≡ k =
              λ k d found. (agrees₁ k d found).0 in
            let own =
              records-IsOwn each.0 docs agrees₁
                (Docs.find_all-stored configs each.0.records keyed) in
            let (agrees', keeps) = drop_unmanaged-keeps ids docs each.0 own agrees₁ in
            let same : drop_unmanaged configs indexes ids docs each.0 ≡ s' =
              ap (λ r. r.0) (rw (loaded, returned, sync_indexes) at ran) in
            subst
              (λ x.
                All (λ u. IsDone configs indexes u x) (targets desired)
                × (((id : String) → contains id ids ≡ false → Docs.get configs id x.records ≡ none)
                    × ((id : String) (doc : ConfigDoc)
                        → contains id ids ≡ false
                        → Docs.get configs id s.records ≡ some doc
                        → get_index doc.collection doc.name x.built ≡ none)
                    × Agrees configs indexes x))
              same
              (
                keep-IsDone (targets desired) ids each.0
                    (drop_unmanaged configs indexes ids docs each.0) keeps
                    (contains-All (targets desired)) done,
                (
                  (λ id unwanted.
                      drop_unmanaged-none ids docs each.0 id unwanted
                        (elim (Option-cases (Docs.get configs id each.0.records)) [
                          | inl gone ↦ inr gone
                          | inr (d, found) ↦
                              inl (
                                Docs.any-find_all configs each.0.records id keyed
                                ∙ ap is_some found)
                        ])),
                  λ id doc unwanted recorded.
                      let found =
                        sync_each-others configs indexes (targets desired) s each.0 id agrees
                          unwanted (ap (λ r. (each.0, r)) returned)
                        ∙ recorded in
                      drop_unmanaged-no_index configs indexes ids docs each.0 each.0.records id doc
                        unwanted found (Docs.find_all-stored configs each.0.records keyed)
                        (inl
                          (Docs.any-find_all configs each.0.records id keyed ∙ ap is_some found)),
                  agrees',
                ),
              )
      ]
