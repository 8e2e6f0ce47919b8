-- ===== src/Esi/Rows.antt =====
-- The rows of services/esi_cache.py for the entries of services/esi.py, `asdict(entry)` and
-- `entry_type(**row)`.
pub mod Values
use mathlib.Core.Path.{subst}
use eve_build.Prelude.{
  ◌≡◌, refl, Bool, true, false, ◌&&◌, Option, none, some, List, [], ◌∷◌, String, if◌then◌else◌,
  ◌==◌, string_eq, map, contains, IsUnique, All, arith, Bool-cases, inl, inr,
}
use eve_build.Prelude.Dict.{eq_of_beq, beq_self}
use eve_build.Prelude.Exc.{ok, >>=-eq-ok, map_m, ok-injective}
use eve_build.External.Json.{
  Builtins, Value, null, boolean, integer, floating, text, array, object, Fields, end, field,
  get_field,
}
use eve_build.Cache.EntryLists.{load_entries}
use eve_build.Esi.Entries.{Schema, Entry, read_field, read_fields, read_entry}

abbrev pub names : Schema → List String
names [] = []
names ((name, optional) ∷ schema) = name ∷ names schema

module _ (python : Builtins) where
  -- `asdict(entry)`
  abbrev pub row_fields : Schema → Entry python → Fields python
  row_fields ((name, optional) ∷ schema) (value ∷ values) =
      field name value (row_fields schema values)
  row_fields ((name, optional) ∷ schema) [] = end
  row_fields [] values = end

  abbrev pub asdict : Schema → Entry python → Value python
  asdict schema entry = object (row_fields schema entry)

  -- Whether the constructor takes every keyword.
  unfoldable pub are_known : List String → Fields python → Bool
  are_known known end = true
  are_known known (field name value rest) = contains name known && are_known known rest

  abbrev pub add_argument : Option (Value python) → Option (Entry python) → Option (Entry python)
  add_argument none values = none
  add_argument (some value) none = none
  add_argument (some value) (some values) = some (value ∷ values)

  -- The arguments in the order of the fields; `none` is the `TypeError` of one that is missing.
  unfoldable pub arguments : Schema → Fields python → Option (Entry python)
  arguments [] row = some []
  arguments ((name, optional) ∷ schema) row =
      add_argument (get_field python name row) (arguments schema row)

  -- `entry_type(**row)`
  unfoldable pub entry_type : Schema → Value python → Option (Entry python)
  entry_type schema (object row) =
      if are_known (names schema) row then arguments schema row else none
  entry_type schema value = none

  -- The entry has a value for each field.
  abbrev pub Fits : Schema → Entry python → Type 0
  Fits [] [] = Unit
  Fits [] (value ∷ values) = ⊥
  Fits (f ∷ schema) [] = ⊥
  Fits (f ∷ schema) (value ∷ values) = Fits schema values

  are_known-row_fields :
      (schema : Schema) (entry : Entry python) (known : List String)
      → ((name : String) → contains name (names schema) ≡ true → contains name known ≡ true)
      → are_known known (row_fields schema entry) ≡ true
  unfolding are_known
  are_known-row_fields [] entry known h = refl
  are_known-row_fields ((name, optional) ∷ schema) [] known h = refl
  are_known-row_fields ((name, optional) ∷ schema) (value ∷ values) known h =
      rw (h name (ground (arith, beq_self name)))
        (are_known-row_fields schema values known (λ n inside. h n (ground (arith, inside))))

  pub get_field_self :
      (name : String) (value : Value python) (row : Fields python)
      → get_field python name (field name value row) ≡ some value
  unfolding get_field
  get_field_self name value row = rw (beq_self name) refl

  pub get_field_apart :
      (name n : String) (value : Value python) (row : Fields python)
      → (name == n) ≡ false
      → get_field python n (field name value row) ≡ get_field python n row
  unfolding get_field
  get_field_apart name n value row apart = rw apart refl

  pub apart-of_contains :
      (name n : String) (rest : List String)
      → contains name (n ∷ rest) ≡ false
      → (name == n) ≡ false
  apart-of_contains name n rest new = elim (Bool-cases (name == n)) [
    | inl same ↦ absurd (ground (arith, rw (eq_of_beq name n same) at new, beq_self n))
    | inr apart ↦ apart
  ]

  -- A field before the others is not looked at for them.
  arguments-field :
      (schema : Schema) (name : String) (value : Value python) (row : Fields python)
      → contains name (names schema) ≡ false
      → arguments schema (field name value row) ≡ arguments schema row
  unfolding arguments get_field
  arguments-field [] name value row new = refl
  arguments-field ((n, optional) ∷ schema) name value row new =
      rw
        (
          get_field_apart name n value row (apart-of_contains name n (names schema) new),
          arguments-field schema name value row (ground (arith, new)),
          arguments,
        )
        refl

  arguments-row_fields :
      (schema : Schema) (entry : Entry python)
      → IsUnique (names schema)
      → Fits schema entry
      → arguments schema (row_fields schema entry) ≡ some entry
  unfolding arguments get_field
  arguments-row_fields [] [] unique fits = refl
  arguments-row_fields [] (value ∷ values) unique fits = absurd fits
  arguments-row_fields (f ∷ schema) [] unique fits = absurd fits
  arguments-row_fields ((name, optional) ∷ schema) (value ∷ values) unique fits =
      rw
        (
          get_field_self name value (row_fields schema values),
          arguments-field schema name value (row_fields schema values) unique.0,
          arguments-row_fields schema values unique.1 fits,
          arguments,
        )
        refl

  pub entry_type-asdict :
      (schema : Schema) (entry : Entry python)
      → IsUnique (names schema)
      → Fits schema entry
      → entry_type schema (asdict schema entry) ≡ some entry
  unfolding entry_type
  entry_type-asdict schema entry unique fits =
      rw (are_known-row_fields schema entry (names schema) (λ n h. h))
        (arguments-row_fields schema entry unique fits)

  read_fields-Fits :
      (schema : Schema) (fields : Fields python) (entry : Entry python)
      → read_fields python schema fields ≡ ok entry
      → Fits schema entry
  unfolding read_fields
  read_fields-Fits [] fields entry ran = subst (λ e. Fits [] e) (ok-injective ran) tt
  read_fields-Fits ((name, optional) ∷ schema) fields entry ran =
      let (value, got, later) = >>=-eq-ok (read_field python optional name fields) _ ran in
      let (values, more, made) = >>=-eq-ok (read_fields python schema fields) _ later in
      subst (λ e. Fits ((name, optional) ∷ schema) e) (ok-injective made)
        (read_fields-Fits schema fields values more)

  read_entry-Fits :
      (schema : Schema) (value : Value python) (entry : Entry python)
      → read_entry python schema value ≡ ok entry
      → Fits schema entry
  read_entry-Fits schema (object fields) entry ran = read_fields-Fits schema fields entry ran
  read_entry-Fits schema null entry ran = absurd (ground (arith, ran))
  read_entry-Fits schema (boolean b) entry ran = absurd (ground (arith, ran))
  read_entry-Fits schema (integer n) entry ran = absurd (ground (arith, ran))
  read_entry-Fits schema (floating x) entry ran = absurd (ground (arith, ran))
  read_entry-Fits schema (text s) entry ran = absurd (ground (arith, ran))
  read_entry-Fits schema (array values) entry ran = absurd (ground (arith, ran))

  pub read_entries-Fit :
      (schema : Schema) (raw : List (Value python)) (entries : List (Entry python))
      → map_m (read_entry python schema) raw ≡ ok entries
      → All (Fits schema) entries
  read_entries-Fit schema [] entries ran = subst (λ l. All (Fits schema) l) (ok-injective ran) tt
  read_entries-Fit schema (value ∷ raw) entries ran =
      let (entry, first, later) = >>=-eq-ok (read_entry python schema value) _ ran in
      let (others, more, made) = >>=-eq-ok (map_m (read_entry python schema) raw) _ later in
      subst (λ l. All (Fits schema) l) (ok-injective made)
        (read_entry-Fits schema value entry first, read_entries-Fit schema raw others more)

  pub load_entries-asdict :
      (schema : Schema) (entries : List (Entry python))
      → IsUnique (names schema)
      → All (Fits schema) entries
      → load_entries (entry_type schema) (map (asdict schema) entries) ≡ some entries
  load_entries-asdict schema [] unique fit = refl
  load_entries-asdict schema (entry ∷ entries) unique fit =
      rw
        (
          entry_type-asdict schema entry unique fit.0,
          load_entries-asdict schema entries unique fit.1,
          load_entries,
        )
        refl
