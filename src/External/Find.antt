-- ===== src/External/Find.antt =====
-- `find({"_id": {"$in": ids}, ...})` of a MongoDB collection.
use eve_build.Prelude.{
  ◌≡◌, refl, Bool, ◌&&◌, Option, none, some, List, [], ◌∷◌, Eq, ◌==◌, any, All, contains, is_some,
  arith, Bool-cases, Option-cases, inl, inr,
}
use eve_build.Prelude.Dict.{eq_of_beq}
use eve_build.External.Mongo.{Collection, keep}
use eve_build.External.Memory.{memory}

module _ {K : Type 0} ⦃e : Eq K⦄ {Doc : Type 0} {id_of : Doc → K} (c : Collection K Doc id_of) where
  -- MongoDB keeps a document under its own `_id`.
  abbrev pub IsKeyed : Collection.Store c → Type 0
  IsKeyed s = (k : K) (doc : Doc) → Collection.get c k s ≡ some doc → id_of doc ≡ k

  pub record Finds : Type 0 where
    pub find_in : List K → (Doc → Bool) → Collection.Store c → List Doc
    pub find_in-stored :
        (ks : List K) (p : Doc → Bool) (s : Collection.Store c)
        → IsKeyed s
        → All (λ (d : Doc). keep p (Collection.get c (id_of d) s) ≡ some d) (find_in ks p s)
    pub any-find_in :
        (ks : List K) (p : Doc → Bool) (s : Collection.Store c) (k : K)
        → IsKeyed s
        → any (λ d. id_of d == k) (find_in ks p s)
          ≡ (contains k ks && is_some (keep p (Collection.get c k s)))

module _ {K : Type 0} ⦃e : Eq K⦄ {Doc : Type 0} (id_of : Doc → K) where
  abbrev pub table_find : List K → (Doc → Bool) → (K → Option Doc) → List Doc
  table_find [] p s = []
  table_find (k ∷ ks) p s =
      let rest = table_find ks p s in elim (keep p (s k)) [ none ↦ rest | some d ↦ d ∷ rest ]

  keep-some :
      (p : Doc → Bool) (found : Option Doc) (d : Doc) → keep p found ≡ some d → found ≡ some d
  keep-some p none d h = absurd (ground arith)
  keep-some p (some x) d h = ground arith

  pub table_find-stored :
      (ks : List K) (p : Doc → Bool) (s : K → Option Doc)
      → IsKeyed (memory id_of) s
      → All (λ (d : Doc). keep p (s (id_of d)) ≡ some d) (table_find ks p s)
  table_find-stored [] p s keyed = tt
  table_find-stored (k ∷ ks) p s keyed = elim (Option-cases (keep p (s k))) [
    | inl absent ↦ rw (absent, table_find) (table_find-stored ks p s keyed)
    | inr (d, kept) ↦
        let own = keyed k d (keep-some p (s k) d kept) in
        rw (kept, table_find) (rw own kept, table_find-stored ks p s keyed)
  ]

  pub any-table_find :
      (ks : List K) (p : Doc → Bool) (s : K → Option Doc) (k : K)
      → IsKeyed (memory id_of) s
      → any (λ d. id_of d == k) (table_find ks p s) ≡ (contains k ks && is_some (keep p (s k)))
  any-table_find [] p s k keyed = refl
  any-table_find (j ∷ ks) p s k keyed =
      let rest = any-table_find ks p s k keyed in
      elim (Option-cases (keep p (s j))) [
        | inl absent ↦
            rw (absent, table_find)
              (rw rest (elim (Bool-cases (j == k)) [
                | inl same ↦
                    let here : keep p (s k) ≡ none = rw (← eq_of_beq j k same) absent in
                    rw here (ground arith)
                | inr other ↦ rw other
              ]))
        | inr (d, kept) ↦
            let own = keyed j d (keep-some p (s j) d kept) in
            rw (kept, table_find)
              (rw (own, rest)
                (elim (Bool-cases (j == k)) [
                  | inl same ↦
                      let here : keep p (s k) ≡ some d = rw (← eq_of_beq j k same) kept in
                      rw (same, here)
                  | inr other ↦ rw other
                ]))
      ]

  abbrev pub memory_finds : Finds (memory id_of)
  memory_finds = record {
    find_in = table_find;
    find_in-stored = table_find-stored;
    any-find_in = any-table_find;
  }
