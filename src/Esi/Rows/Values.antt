-- ===== src/Esi/Rows/Values.antt =====
-- The rows of services/esi_cache.py for entries that services/esi.py read from the pages of ESI.
use mathlib.Core.Path.{subst}
use eve_build.Prelude.{
  ◌≡◌, sym, Bool, true, false, Option, some, List, [], ◌∷◌, String, string_eq, map, contains,
  IsUnique, All, arith, is_some, get_or,
}
use eve_build.Prelude.Exc.{ok, >>=-eq-ok, map_m, ok-injective}
use eve_build.External.Json.{
  Builtins, Value, null, boolean, integer, floating, text, array, object, Fields, field, get_field,
}
use eve_build.Cache.EntryLists.{load_entries}
use eve_build.Esi.{get_all_pages}
use eve_build.Esi.Entries.{Schema, Entry, read_field, read_fields, read_entry, read_pages, Answers}
use eve_build.Esi.Rows.{
  names, row_fields, asdict, entry_type, get_field_self, get_field_apart, apart-of_contains,
  read_entries-Fit, load_entries-asdict,
}

module _ (python : Builtins) where
  -- What the item has under the name, a null where it has nothing, which only an optional field may.
  pub IsValue : Bool → String → Fields python → Option (Value python) → Type 0
  IsValue optional name fields found =
      (found ≡ some (get_or (get_field python name fields) null))
      × ((optional ≡ false) → is_some (get_field python name fields) ≡ true)

  -- The row has under each field of the dataclass what the item has.
  pub HasValues : Schema → Fields python → Fields python → Type 0
  HasValues schema fields row =
      All (λ (f : String × Bool). IsValue f.1 f.0 fields (get_field python f.0 row)) schema

  -- The items are objects, and the rows of the entries have their values, in the same order.
  pub AreRows : Schema → List (Value python) → List (Entry python) → Type 0
  AreRows schema [] [] = Unit
  AreRows schema (object fields ∷ items) (entry ∷ entries) =
      HasValues schema fields (row_fields python schema entry) × AreRows schema items entries
  AreRows schema _ _ = ⊥

  read_field-IsValue :
      (optional : Bool) (name : String) (fields : Fields python) (value : Value python)
      → read_field python optional name fields ≡ ok value
      → IsValue optional name fields (some value)
  unfolding IsValue get_field
  read_field-IsValue true name fields value ran = (ground (arith, ran), ground (arith, ran))
  read_field-IsValue false name fields value ran = (ground (arith, ran), ground (arith, ran))

  -- A field of another name before the others leaves them as they are.
  HasValues-field :
      (schema : Schema) (name : String) (value : Value python) (fields row : Fields python)
      → contains name (names schema) ≡ false
      → HasValues schema fields row
      → HasValues schema fields (field name value row)
  unfolding HasValues
  HasValues-field [] name value fields row new has = tt
  HasValues-field ((n, optional) ∷ schema) name value fields row new has = (
    subst (λ found. IsValue optional n fields found)
        (sym (
          get_field_apart python name n value row
            (apart-of_contains python name n (names schema) new)))
        has.0,
    HasValues-field schema name value fields row (ground (arith, new)) has.1,
  )

  read_fields-HasValues :
      (schema : Schema) (fields : Fields python) (entry : Entry python)
      → IsUnique (names schema)
      → read_fields python schema fields ≡ ok entry
      → HasValues schema fields (row_fields python schema entry)
  unfolding HasValues read_fields
  read_fields-HasValues [] fields entry unique ran = tt
  read_fields-HasValues ((name, optional) ∷ schema) fields entry unique ran =
      let (value, got, later) = >>=-eq-ok (read_field python optional name fields) _ ran in
      let (values, more, made) = >>=-eq-ok (read_fields python schema fields) _ later in
      let row = row_fields python schema values in
      subst
        (λ e.
          HasValues ((name, optional) ∷ schema) fields
            (row_fields python ((name, optional) ∷ schema) e))
        (ok-injective made)
        (
          subst (λ found. IsValue optional name fields found)
              (sym (get_field_self python name value row))
              (read_field-IsValue optional name fields value got),
          HasValues-field schema name value fields row unique.0
              (read_fields-HasValues schema fields values unique.1 more),
        )

  read_entries-AreRows :
      (schema : Schema) (raw : List (Value python)) (entries : List (Entry python))
      → IsUnique (names schema)
      → map_m (read_entry python schema) raw ≡ ok entries
      → AreRows schema raw entries
  unfolding AreRows
  read_entries-AreRows schema [] entries unique ran =
      subst (λ l. AreRows schema [] l) (ok-injective ran) tt
  read_entries-AreRows schema (object fields ∷ raw) entries unique ran =
      let (entry, first, later) = >>=-eq-ok (read_fields python schema fields) _ ran in
      let (others, more, made) = >>=-eq-ok (map_m (read_entry python schema) raw) _ later in
      subst (λ l. AreRows schema (object fields ∷ raw) l) (ok-injective made)
        (
          read_fields-HasValues schema fields entry unique first,
          read_entries-AreRows schema raw others unique more,
        )
  read_entries-AreRows schema (null ∷ raw) entries unique ran = absurd (ground (arith, ran))
  read_entries-AreRows schema (boolean b ∷ raw) entries unique ran = absurd (ground (arith, ran))
  read_entries-AreRows schema (integer n ∷ raw) entries unique ran = absurd (ground (arith, ran))
  read_entries-AreRows schema (floating x ∷ raw) entries unique ran = absurd (ground (arith, ran))
  read_entries-AreRows schema (text s ∷ raw) entries unique ran = absurd (ground (arith, ran))
  read_entries-AreRows schema (array vs ∷ raw) entries unique ran = absurd (ground (arith, ran))

  -- Where the fields of the dataclass have different names, entries that were read from the pages of
  -- ESI have one row for each item of the pages, in order. The row has under each field what the item
  -- has there, or a null for an optional field that the item does not have; the others it has. The
  -- rows are read back as the entries.
  pub load_entries-read_pages :
      (schema : Schema) (answer : Answers python) (entries : List (Entry python))
      → IsUnique (names schema)
      → read_pages python schema answer ≡ ok entries
      → (raw : List (Value python)) × (get_all_pages answer ≡ ok raw)
        × AreRows schema raw entries
        × (load_entries (entry_type python schema) (map (asdict python schema) entries)
            ≡ some entries)
  unfolding read_pages
  load_entries-read_pages schema answer entries unique ran =
      let (raw, got, later) = >>=-eq-ok (get_all_pages answer) _ ran in
      (
        raw,
        got,
        read_entries-AreRows schema raw entries unique later,
        load_entries-asdict python schema entries unique
            (read_entries-Fit python schema raw entries later),
      )
