-- ===== src/Startup/Indexes/Dropped.antt =====
-- What the loop of db/index_sync.py over the records that are no longer in the files removes.
use eve_build.Prelude.{
  ◌≡◌, ◌⊎◌, refl, sym, ap, ◌∙◌, true, false, none, some, List, [], ◌∷◌, map, String, ◌==◌,
  string_eq, contains, any, All, arith, Bool-cases, inl, inr,
}
use eve_build.Prelude.Dict.{eq_of_beq, beq_self}
use eve_build.Prelude.Exc.{ok}
use eve_build.External.Docs.{Docs}
use eve_build.External.Indexes.{Indexes, is_at}
use eve_build.Startup.Indexes.{
  Definition, ConfigDoc, doc_id, Target, record_id, State, drop_index_if_exists, sync_each,
  drop_unmanaged,
}
use eve_build.Startup.Indexes.Loop.{drop_index_if_exists-get, Agrees, sync_one-Writes}
use eve_build.Startup.Indexes.Targets.{sync_one-Agrees, sync_each-cons}

module _ (configs : Docs String ConfigDoc doc_id) (indexes : Indexes Definition) where
  open indexes use {get_index}

  -- The loop over the targets leaves the records of all others alone.
  pub sync_each-others :
      (ts : List Target) (s s' : State configs indexes) (id : String)
      → Agrees configs indexes s
      → contains id (map record_id ts) ≡ false
      → sync_each configs indexes ts s ≡ (s', ok tt)
      → Docs.get configs id s'.records ≡ Docs.get configs id s.records
  unfolding sync_each
  sync_each-others [] s s' id agrees other ran =
      ap (λ x. Docs.get configs id x.records) (sym (ap (λ r. r.0) ran))
  sync_each-others (target ∷ ts) s s' id agrees other ran =
      let (s₁, first, later) = sync_each-cons configs indexes target ts s s' ran in
      let rest =
        sync_each-others ts s₁ s' id (sync_one-Agrees configs indexes target s s₁ agrees first)
          (ground (arith, other)) later in
      let apart : (record_id target == id) ≡ false = ground (arith, other) in
      rest ∙ elim (sync_one-Writes configs indexes target s s₁ agrees first) [
        | inl (same, _) ↦ ap (λ x. Docs.get configs id x.records) same
        | inr writes ↦ writes.0 id ∙ rw apart refl
      ]

  -- An index that is gone stays gone.
  gone-stays :
      (doc : ConfigDoc) (collection name : String) (s : State configs indexes)
      → get_index collection name s.built ≡ none
      → get_index collection name
          (drop_index_if_exists configs indexes doc.collection doc.name s.built)
        ≡ none
  gone-stays doc collection name s gone =
      drop_index_if_exists-get configs indexes doc.collection doc.name collection name s.built
      ∙ elim (Bool-cases (is_at doc.collection doc.name collection name)) [
        | inl here ↦ rw here refl
        | inr other ↦ rw other gone
      ]

  -- The index of a record that the loop sees and the files do not name is gone after it.
  pub drop_unmanaged-no_index :
      (ids : List String) (docs : List ConfigDoc) (s : State configs indexes)
      (read : Docs.Store configs) (id : String) (doc : ConfigDoc)
      → contains id ids ≡ false
      → Docs.get configs id read ≡ some doc
      → All (λ (d : ConfigDoc). Docs.get configs (doc_id d) read ≡ some d) docs
      → (any (λ d. doc_id d == id) docs ≡ true) ⊎ (get_index doc.collection doc.name s.built ≡ none)
      → get_index doc.collection doc.name (drop_unmanaged configs indexes ids docs s).built ≡ none
  unfolding drop_unmanaged
  drop_unmanaged-no_index ids [] s read id doc unwanted found all (inl seen) =
      absurd (ground (arith, seen))
  drop_unmanaged-no_index ids [] s read id doc unwanted found all (inr gone) = gone
  drop_unmanaged-no_index ids (d ∷ docs) s read id doc unwanted found all seen =
      elim (Bool-cases (doc_id d == id)) [
        | inl same ↦
            let key = eq_of_beq (doc_id d) id same in
            let unmanaged : contains d.id ids ≡ false = ap (λ x. contains x ids) key ∙ unwanted in
            let both : some d ≡ some doc =
              sym all.0 ∙ ap (λ x. Docs.get configs x read) key ∙ found in
            let whole : d ≡ doc = ground (arith, both) in
            rw (unmanaged, drop_unmanaged)
              (drop_unmanaged-no_index ids docs _ read id doc unwanted found all.1 (
                inr (
                  drop_index_if_exists-get configs indexes d.collection d.name doc.collection
                    doc.name s.built
                  ∙ rw (← whole) (rw (beq_self d.collection, beq_self d.name) refl))))
        | inr apart ↦
            let rest : (any (λ x. doc_id x == id) docs ≡ true)
                ⊎ (get_index doc.collection doc.name s.built ≡ none) =
              elim seen [
                | inl some_doc ↦ inl (ground (arith, some_doc, apart))
                | inr gone ↦ inr gone
              ] in
            elim (Bool-cases (contains d.id ids)) [
              | inl managed ↦
                  rw (managed, drop_unmanaged)
                    (drop_unmanaged-no_index ids docs s read id doc unwanted found all.1 rest)
              | inr unmanaged ↦
                  rw (unmanaged, drop_unmanaged)
                    (drop_unmanaged-no_index ids docs _ read id doc unwanted found all.1
                      (elim rest [
                        | inl later ↦ inl later
                        | inr gone ↦ inr (gone-stays d doc.collection doc.name s gone)
                      ]))
            ]
      ]
