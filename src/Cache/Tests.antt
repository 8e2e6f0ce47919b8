-- ===== src/Cache/Tests.antt =====
-- Documents read through a cache that holds one of them, and each theorem at a concrete input.
use eve_build.Prelude.{
  ℕ, ◌≡◌, refl, Bool, true, Option, none, some, [], ◌∷◌, String, if◌then◌else◌, ◌==◌, nat_eq,
  string_eq, arith, Bool-cases, inl, inr,
}
use eve_build.Prelude.Dict.{lookup, eq_of_beq}
use eve_build.Prelude.Text.{str, digits, cache_key, cache_key-injective}
use eve_build.External.Memory.{memory}
use eve_build.External.Find.{IsKeyed, memory_finds}
use eve_build.External.Redis.{table_cache}
use eve_build.Cache.Documents.Coherence.{IsCoherent}
use eve_build.Cache.Documents.Transparent.{
  result, cached_docs_by_id-lookup, cached_docs_by_id-IsCoherent,
}

record TypeDoc : Type 0 where
  id : ℕ
  name : String

abbrev type_id : TypeDoc → ℕ
type_id doc = doc.id

abbrev type_doc : ℕ → String → TypeDoc
type_doc id name = record { id = id; name = name }

abbrev types : ℕ → Option TypeDoc
types id =
    if id == 34
    then some (type_doc 34 "Tritanium")
    else if id == 35
    then some (type_doc 35 "Pyerite")
    else none

-- Only the first of them is cached.
abbrev warm : String → Option TypeDoc
warm key = if cache_key "sde_type" 34 == key then some (type_doc 34 "Tritanium") else none

types-IsKeyed : IsKeyed (memory type_id) types
types-IsKeyed k doc h = elim (Bool-cases (k == 34)) [
  | inl first ↦
      let same : some (type_doc 34 "Tritanium") ≡ some doc = ground (arith, h, first) in
      ground (arith, same, first)
  | inr other ↦ elim (Bool-cases (k == 35)) [
    | inl second ↦
        let same : some (type_doc 35 "Pyerite") ≡ some doc = ground (arith, h, second) in
        ground (arith, same, second)
    | inr neither ↦ absurd (ground (arith, h, other, neither))
  ]
]

warm-IsCoherent :
    IsCoherent
      (memory type_id)
      (memory_finds type_id)
      (table_cache TypeDoc)
      "sde_type"
      types
      (some warm)
warm-IsCoherent id doc h = elim (Bool-cases (cache_key "sde_type" 34 == cache_key "sde_type" id)) [
  | inl same ↦
      let here =
        cache_key-injective "sde_type" 34 id
          (eq_of_beq (cache_key "sde_type" 34) (cache_key "sde_type" id) same) in
      let value : some (type_doc 34 "Tritanium") ≡ some doc = sym_rw same h in rw (← here) value
  | inr other ↦ absurd (ground (arith, h, other))
]
  where
    sym_rw :
        {b : Bool}
        → b ≡ true
        → (if b then some (type_doc 34 "Tritanium") else none) ≡ some doc
        → some (type_doc 34 "Tritanium") ≡ some doc
    sym_rw e k = ground (arith, e, k)

key_of_34 : cache_key "sde_type" 34 ≡ "sde_type:34"
unfolding cache_key str digits
key_of_34 = refl

cached_docs_by_id-lookup_example :
    lookup 35
      (result
        (memory type_id)
        (memory_finds type_id)
        (table_cache TypeDoc)
        "sde_type"
        types
        (34 ∷ 35 ∷ 99 ∷ [])
        (some warm)
        60).0
    ≡ some (type_doc 35 "Pyerite")
cached_docs_by_id-lookup_example =
    cached_docs_by_id-lookup (memory type_id) (memory_finds type_id) (table_cache TypeDoc)
      "sde_type" types (34 ∷ 35 ∷ 99 ∷ []) (some warm) 60 types-IsKeyed warm-IsCoherent 35

cached_docs_by_id-IsCoherent_example :
    IsCoherent
      (memory type_id)
      (memory_finds type_id)
      (table_cache TypeDoc)
      "sde_type"
      types
      (result
        (memory type_id)
        (memory_finds type_id)
        (table_cache TypeDoc)
        "sde_type"
        types
        (34 ∷ 35 ∷ 99 ∷ [])
        (some warm)
        60).1
cached_docs_by_id-IsCoherent_example =
    cached_docs_by_id-IsCoherent (memory type_id) (memory_finds type_id) (table_cache TypeDoc)
      "sde_type" types (34 ∷ 35 ∷ 99 ∷ []) (some warm) 60 types-IsKeyed warm-IsCoherent
