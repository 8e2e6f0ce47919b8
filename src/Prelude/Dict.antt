-- ===== src/Prelude/Dict.antt =====
-- A Python `dict`, in insertion order, with keys of any type that has an `==`.
use Prim.Native.Nat.{ℕ, ◌+◌}
use mathlib.Core.Path.{◌≡◌, refl, subst₂}
use mathlib.Core.Logic.{inl, inr}
use mathlib.Core.Bool.{true, ◌||◌}
use mathlib.Core.Option.{Option, none, some}
use mathlib.Core.List.{List, [], ◌∷◌}
use native.Mathlib.Omega.{arith}
use eve_build.Prelude.Tests.{if◌then◌else◌, Eq, ◌==◌, Bool-cases}
use eve_build.Prelude.Lists.{is_some, contains, IsUnique}

abbrev pub Dict {ℓ κ} : Type ℓ → Type κ → Type (ℓ ⊔ κ)
Dict K V = List (K × V)

module _ {ℓ κ} {K : Type ℓ} {V : Type κ} where
  abbrev pub keys : Dict K V → List K
  keys [] = []
  keys ((k, v) ∷ d) = k ∷ keys d

  abbrev pub values : Dict K V → List V
  values [] = []
  values ((k, v) ∷ d) = v ∷ values d

  -- A number for each entry, summed.
  abbrev pub weight : (K → V → ℕ) → Dict K V → ℕ
  weight f [] = 0
  weight f ((k, v) ∷ d) = f k v + weight f d

  abbrev pub AllEntries {μ} : (K → V → Type μ) → Dict K V → Type μ
  AllEntries P [] = Unit
  AllEntries P ((k, v) ∷ d) = P k v × AllEntries P d

module _ {ℓ} {K : Type ℓ} ⦃e : Eq K⦄ where
  pub eq_of_beq : (a b : K) → (a == b) ≡ true → a ≡ b
  eq_of_beq a b = (e.beq_iff a b).0

  pub beq_self : (a : K) → (a == a) ≡ true
  beq_self a = (e.beq_iff a a).1 refl

module _ {ℓ κ} {K : Type ℓ} {V : Type κ} ⦃e : Eq K⦄ where
  -- `d.get(k)`
  abbrev pub lookup : K → Dict K V → Option V
  lookup k [] = none
  lookup k ((j, v) ∷ d) = if j == k then some v else lookup k d

  -- `d[k] = v`
  abbrev pub insert : K → V → Dict K V → Dict K V
  insert k v [] = (k, v) ∷ []
  insert k v ((j, w) ∷ d) = if j == k then (j, v) ∷ d else (j, w) ∷ insert k v d

  -- `d.setdefault(k, v)`, for its effect
  abbrev pub set_default : K → V → Dict K V → Dict K V
  set_default k v d = if is_some (lookup k d) then d else insert k v d

  pub lookup-insert :
      (k j : K) (v : V) (d : Dict K V)
      → lookup j (insert k v d) ≡ (if k == j then some v else lookup j d)
  lookup-insert k j v [] = refl
  lookup-insert k j v ((i, w) ∷ d) =
      ground (arith, e.beq_iff k j, e.beq_iff i k, e.beq_iff i j, lookup-insert k j v d)

  pub contains-keys : (k : K) (d : Dict K V) → contains k (keys d) ≡ is_some (lookup k d)
  contains-keys k [] = refl
  contains-keys k ((j, v) ∷ d) = ground (arith, contains-keys k d)

  pub contains-keys-insert :
      (k j : K) (v : V) (d : Dict K V)
      → contains j (keys (insert k v d)) ≡ (k == j || contains j (keys d))
  contains-keys-insert k j v [] = refl
  contains-keys-insert k j v ((i, w) ∷ d) =
      ground (arith, e.beq_iff k j, e.beq_iff i k, e.beq_iff i j, contains-keys-insert k j v d)

  pub IsUnique-insert :
      (k : K) (v : V) (d : Dict K V) → IsUnique (keys d) → IsUnique (keys (insert k v d))
  IsUnique-insert k v [] h = (refl, tt)
  IsUnique-insert k v ((i, w) ∷ d) h =
      ground (
        arith,
        e.beq_iff i k,
        e.beq_iff k i,
        contains-keys-insert k i v d,
        IsUnique-insert k v d h.1,
      )

  -- Writing an entry replaces its share of a sum over the entries.
  pub weight-insert :
      (f : K → V → ℕ) (k : K) (v old : V) (d : Dict K V)
      → lookup k d ≡ some old
      → weight f (insert k v d) + f k old ≡ weight f d + f k v
  weight-insert f k v old [] h = cc
  weight-insert f k v old ((i, w) ∷ d) h = elim (Bool-cases (i == k)) [
    | inl same ↦ let e' : i ≡ k = eq_of_beq i k same in ground (arith, e')
    | inr other ↦ ground (arith, weight-insert f k v old d)
  ]

  pub weight-insert_new :
      (f : K → V → ℕ) (k : K) (v : V) (d : Dict K V)
      → lookup k d ≡ none
      → weight f (insert k v d) ≡ weight f d + f k v
  weight-insert_new f k v [] h = omega arith
  weight-insert_new f k v ((i, w) ∷ d) h = ground (arith, weight-insert_new f k v d)

  -- Where keys are unique, the sum over one key is what is found there.
  pub weight_at_absent :
      (g : V → ℕ) (t : K) (d : Dict K V)
      → lookup t d ≡ none
      → weight (λ k v. if k == t then g v else 0) d ≡ 0
  weight_at_absent g t [] h = refl
  weight_at_absent g t ((i, w) ∷ d) h = ground (arith, weight_at_absent g t d)

  pub weight_at_unique :
      (g : V → ℕ) (t : K) (d : Dict K V) {v : V}
      → IsUnique (keys d)
      → lookup t d ≡ some v
      → weight (λ k v. if k == t then g v else 0) d ≡ g v
  weight_at_unique g t [] u h = cc
  weight_at_unique g t ((i, w) ∷ d) {v} u h = elim (Bool-cases (i == t)) [
    | inl same ↦
        let gone : lookup t d ≡ none =
          rw (← eq_of_beq i t same) (ground (arith, contains-keys i d)) in
        ground (arith, weight_at_absent g t d gone)
    | inr other ↦ ground (arith, weight_at_unique g t d {v = v} u.1)
  ]

  module _ {μ} (P : K → V → Type μ) where
    pub AllEntries-insert :
        (k : K) (v : V) (d : Dict K V) → P k v → AllEntries P d → AllEntries P (insert k v d)
    AllEntries-insert k v [] p h = (p, tt)
    AllEntries-insert k v ((i, w) ∷ d) p h = elim (Bool-cases (i == k)) [
      | inl same ↦ rw same (rw (eq_of_beq i k same) (p, h.1))
      | inr other ↦ rw other (h.0, AllEntries-insert k v d p h.1)
    ]

    pub AllEntries-lookup :
        (k : K) (v : V) (d : Dict K V) → AllEntries P d → lookup k d ≡ some v → P k v
    AllEntries-lookup k v [] h found = absurd (cc)
    AllEntries-lookup k v ((i, w) ∷ d) h found = elim (Bool-cases (i == k)) [
      | inl same ↦ let found' : w ≡ v = ground arith in subst₂ P (eq_of_beq i k same) found' h.0
      | inr other ↦ AllEntries-lookup k v d h.1 (ground arith)
    ]
