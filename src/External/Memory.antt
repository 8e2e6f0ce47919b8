-- ===== src/External/Memory.antt =====
-- A collection in memory, which meets the laws of `Collection`.
use eve_build.Prelude.{
  ◌≡◌, refl, Option, some, if◌then◌else◌, Eq, ◌==◌, is_some, Bool-cases, inl, inr,
}
use eve_build.Prelude.Dict.{eq_of_beq}
use eve_build.Prelude.Exc.{Result, ok, err, duplicate_key}
use eve_build.External.Mongo.{Collection, keep, apply_if, drop_if}

module _ {K : Type 0} ⦃e : Eq K⦄ {Doc : Type 0} (id_of : Doc → K) where
  abbrev pub put : K → Option Doc → (K → Option Doc) → K → Option Doc
  put k d s j = if k == j then d else s j

  abbrev table_insert : Doc → (K → Option Doc) → Result (K → Option Doc)
  table_insert d s =
      if is_some (s (id_of d)) then err duplicate_key else ok (put (id_of d) (some d) s)

  pub put-at :
      (k : K) (f : Option Doc → Option Doc) (s : K → Option Doc) (j : K)
      → put k (f (s k)) s j ≡ (if k == j then f (s j) else s j)
  put-at k f s j = elim (Bool-cases (k == j)) [
    | inl same ↦ rw (same, eq_of_beq k j same)
    | inr other ↦ rw other
  ]

  abbrev pub memory : Collection K Doc id_of
  memory = record {
    Store = K → Option Doc;
    get = λ k s. s k;
    find_one = λ k p s. keep p (s k);
    insert_one = table_insert;
    update_one = λ k p f s. (put k (apply_if p f (s k)) s, is_some (keep p (s k)));
    delete_one = λ k p s. (put k (drop_if p (s k)) s, is_some (keep p (s k)));
    find_one-get = λ k p s. refl;
    insert_one-taken = λ d s taken. rw taken;
    insert_one-new = λ d s new. (put (id_of d) (some d) s, rw new, λ k. refl);
    get-update_one = λ k p f s j keeps. put-at k (apply_if p f) s j;
    matched_count = λ k p f s. refl;
    get-delete_one = λ k p s j. put-at k (drop_if p) s j;
    deleted_count = λ k p s. refl;
  }
