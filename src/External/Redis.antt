-- ===== src/External/Redis.antt =====
-- Redis, as a store of values under string keys. A value is stored as JSON and read back as it was;
-- what a key holds may be gone at any time, and every call may raise `RedisError`.
use eve_build.Prelude.{
  ℕ, ◌≡◌, ◌⊎◌, true, Option, none, some, List, [], ◌∷◌, map, String, if◌then◌else◌, ◌==◌, string_eq,
  contains, inl, inr, arith, Bool-cases,
}
use eve_build.Prelude.Exc.{Result, ok}
use eve_build.Prelude.Dict.{eq_of_beq}

-- One of the pairs is the key with the value.
abbrev pub HasItem : {V : Type 0} → String → V → List (String × V) → Type 0
HasItem k v [] = ⊥
HasItem k v (item ∷ items) = ((item.0 ≡ k) × (item.1 ≡ v)) ⊎ HasItem k v items

pub record Redis (V : Type 0) : Type 1 where
  pub Cache : Type 0
  -- What a key holds.
  pub peek : String → Cache → Option V
  -- `mget(keys)`
  pub mget : List String → Cache → Result (List (Option V))
  -- The execution of a pipeline of `set(key, value, ex=ttl)`, which may stop on the way.
  pub execute : List (String × V) → ℕ → Cache → Cache
  -- `delete(*keys)`, and whether it raised
  pub delete : List String → Cache → Cache × Result (Unit {0})
  pub mget-peek :
      (keys : List String) (c : Cache) (found : List (Option V))
      → mget keys c ≡ ok found
      → found ≡ map (λ k. peek k c) keys
  pub peek-execute :
      (items : List (String × V)) (ttl : ℕ) (c : Cache) (k : String) (v : V)
      → peek k (execute items ttl c) ≡ some v
      → (peek k c ≡ some v) ⊎ HasItem k v items
  pub peek-delete :
      (keys : List String) (c : Cache) (k : String) (v : V)
      → peek k (delete keys c).0 ≡ some v
      → peek k c ≡ some v
  pub delete-gone :
      (keys : List String) (c : Cache) (k : String)
      → (delete keys c).1 ≡ ok tt
      → contains k keys ≡ true
      → peek k (delete keys c).0 ≡ none

module _ (V : Type 0) where
  abbrev pub set_all : List (String × V) → (String → Option V) → String → Option V
  set_all [] c k = c k
  set_all (item ∷ items) c k = set_all items (λ j. if item.0 == j then some item.1 else c j) k

  pub set_all-cases :
      (items : List (String × V)) (c : String → Option V) (k : String) (v : V)
      → set_all items c k ≡ some v
      → (c k ≡ some v) ⊎ HasItem k v items
  set_all-cases [] c k v h = inl h
  set_all-cases (item ∷ items) c k v h =
      elim (set_all-cases items (λ j. if item.0 == j then some item.1 else c j) k v h) [
        | inr later ↦ inr (inr later)
        | inl before ↦ elim (Bool-cases (item.0 == k)) [
          | inl same ↦ inr (inl (eq_of_beq item.0 k same, ground (arith, before)))
          | inr other ↦ inl (ground (arith, before))
        ]
      ]

  -- A cache that keeps everything.
  abbrev pub table_cache : Redis V
  table_cache = record {
    Cache = String → Option V;
    peek = λ k c. c k;
    mget = λ keys c. ok (map (λ k. c k) keys);
    execute = λ items ttl c. set_all items c;
    delete = λ keys c. ((λ k. if contains k keys then none else c k), ok tt);
    mget-peek = λ keys c found h. ground (arith, h);
    peek-execute = λ items ttl c k v h. set_all-cases items c k v h;
    peek-delete = λ keys c k v h. ground (arith, h);
    delete-gone = λ keys c k h inside. rw inside;
  }
