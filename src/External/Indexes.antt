-- ===== src/External/Indexes.antt =====
-- The indexes of the collections of a MongoDB database, each named within its collection.
use eve_build.Prelude.{
  ◌≡◌, refl, Bool, ◌&&◌, Option, none, some, String, if◌then◌else◌, ◌==◌, string_eq, is_some,
}
use eve_build.Prelude.Exc.{Result, ok, err, duplicate_key, ok-injective}

abbrev pub is_at : String → String → String → String → Bool
is_at collection name collection' name' = collection == collection' && name == name'

-- `Definition` is what `create_index` takes beside the name.
pub record Indexes (Definition : Type 0) : Type 1 where
  pub Store : Type 0
  pub get_index : String → String → Store → Option Definition
  -- `none` is an `OperationFailure`.
  pub drop_index : String → String → Store → Option Store
  -- The call may raise, on the data of the collection for one.
  pub create_index : String → String → Definition → Store → Result Store
  pub drop_index-absent :
      (collection name : String) (s : Store)
      → get_index collection name s ≡ none
      → drop_index collection name s ≡ none
  pub drop_index-present :
      (collection name : String) (s : Store) (d : Definition)
      → get_index collection name s ≡ some d
      → (s' : Store) × (drop_index collection name s ≡ some s')
        × ((c n : String)
            → get_index c n s' ≡ (if is_at collection name c n then none else get_index c n s))
  pub create_index-absent :
      (collection name : String) (d : Definition) (s s' : Store)
      → get_index collection name s ≡ none
      → create_index collection name d s ≡ ok s'
      → (c n : String)
      → get_index c n s' ≡ (if is_at collection name c n then some d else get_index c n s)

module _ (Definition : Type 0) where
  abbrev Table : Type 0
  Table = String → String → Option Definition

  abbrev pub place : String → String → Option Definition → Table → Table
  place collection name d s c n = if is_at collection name c n then d else s c n

  abbrev table_drop : String → String → Table → Option Table
  table_drop collection name s =
      if is_some (s collection name) then some (place collection name none s) else none

  -- MongoDB refuses another definition under a name that is taken.
  abbrev table_create : String → String → Definition → Table → Result Table
  table_create collection name d s =
      if is_some (s collection name)
      then err duplicate_key
      else ok (place collection name (some d) s)

  pub table_create-absent :
      (collection name : String) (d : Definition) (s s' : Table)
      → s collection name ≡ none
      → table_create collection name d s ≡ ok s'
      → (c n : String) → s' c n ≡ (if is_at collection name c n then some d else s c n)
  table_create-absent collection name d s s' absent created c n =
      let same : place collection name (some d) s ≡ s' = ok-injective (rw absent at created) in
      rw (← same) refl

  abbrev pub memory_indexes : Indexes Definition
  memory_indexes = record {
    Store = Table;
    get_index = λ c n s. s c n;
    drop_index = table_drop;
    create_index = table_create;
    drop_index-absent = λ c n s absent. rw (absent, table_drop);
    drop_index-present = λ c n s d there. (place c n none s, rw (there, table_drop), λ c' n'. refl);
    create_index-absent =
        λ c n d s s' absent created. table_create-absent c n d s s' absent created;
  }
