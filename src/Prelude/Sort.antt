-- ===== src/Prelude/Sort.antt =====
-- `sorted(l, key=...)` for a key that is a string: stable, in the order of the code points.
use Prim.Native.Nat.{ℕ, ◌+◌, Ordering, compare as compare_ℕ}
use Prim.Native.Char.{code}
use Prim.Native.String.compare
use Prim.Native.String.{String, [] as nil, ◌∷◌ as ◌∷ₛ◌, compare, then as first_of}
use mathlib.Core.Path.{◌≡◌, refl}
use mathlib.Core.Logic.{inl, inr}
use mathlib.Core.Bool.{Bool, true, ◌||◌}
use mathlib.Core.List.{List, [], ◌∷◌}
use native.Mathlib.Omega.{arith}
use text.Mathlib.Text.{is_le}
use eve_build.Prelude.Tests.{if◌then◌else◌, Bool-cases}
use eve_build.Prelude.Lists.{sum_by, All}

abbrev pub name_le : String → String → Bool
name_le a b = is_le (compare a b)

module _ {A : Type 0} (key : A → String) where
  abbrev pub insert_by : A → List A → List A
  insert_by x [] = x ∷ []
  insert_by x (y ∷ l) =
      let rest = insert_by x l in if name_le (key x) (key y) then x ∷ y ∷ l else y ∷ rest

  abbrev pub sorted_by : List A → List A
  sorted_by [] = []
  sorted_by (x ∷ l) = insert_by x (sorted_by l)

  sum_by-insert_by : (f : A → ℕ) (x : A) (l : List A) → sum_by f (insert_by x l) ≡ f x + sum_by f l
  sum_by-insert_by f x [] = refl
  sum_by-insert_by f x (y ∷ l) = ground (arith, sum_by-insert_by f x l)

  -- Sorting keeps every sum.
  pub sum_by-sorted_by : (f : A → ℕ) (l : List A) → sum_by f (sorted_by l) ≡ sum_by f l
  sum_by-sorted_by f [] = refl
  sum_by-sorted_by f (x ∷ l) =
      omega (arith, sum_by-insert_by f x (sorted_by l), sum_by-sorted_by f l)

  -- Each name is at most the next.
  abbrev pub IsSortedBy : List A → Type 0
  IsSortedBy [] = Unit
  IsSortedBy (x ∷ []) = Unit
  IsSortedBy (x ∷ y ∷ l) = (name_le (key x) (key y) ≡ true) × IsSortedBy (y ∷ l)

then_total :
    (m n : ℕ) (o p : Ordering)
    → (is_le o || is_le p) ≡ true
    → (is_le (first_of (compare_ℕ m n) o) || is_le (first_of (compare_ℕ n m) p)) ≡ true
then_total m n o p h = ground (arith, h)

pub name_le_total : (s t : String) → (name_le s t || name_le t s) ≡ true
name_le_total nil nil = refl
name_le_total nil (d ∷ₛ t) = rw (compare.nil-cons d t)
name_le_total (c ∷ₛ s) nil = rw (compare.cons-nil c s, compare.nil-cons c s)
name_le_total (c ∷ₛ s) (d ∷ₛ t) =
    rw (compare.cons-cons c d s t, compare.cons-cons d c t s)
      (then_total (code c) (code d) (compare s t) (compare t s) (name_le_total s t))

module _ {A : Type 0} (key : A → String) where
  insert_by-IsSortedBy :
      (x : A) (l : List A) → IsSortedBy key l → IsSortedBy key (insert_by key x l)
  insert_by-IsSortedBy x [] h = tt
  insert_by-IsSortedBy x (y ∷ []) h = elim (Bool-cases (name_le (key x) (key y))) [
    | inl before ↦ rw before (before, tt)
    | inr after ↦
        let back : name_le (key y) (key x) ≡ true =
          ground (arith, name_le_total (key x) (key y), after) in
        rw after (back, tt)
  ]
  insert_by-IsSortedBy x (y ∷ z ∷ l) h = elim (Bool-cases (name_le (key x) (key y))) [
    | inl before ↦ rw before (before, h)
    | inr after ↦
        let back : name_le (key y) (key x) ≡ true =
          ground (arith, name_le_total (key x) (key y), after) in
        let rest = insert_by-IsSortedBy x (z ∷ l) h.1 in
        rw after (elim (Bool-cases (name_le (key x) (key z))) [
          | inl here ↦ rw here (back, (here, h.1))
          | inr later ↦ rw later (h.0, rw later at rest)
        ])
  ]

  pub sorted_by-IsSortedBy : (l : List A) → IsSortedBy key (sorted_by key l)
  sorted_by-IsSortedBy [] = tt
  sorted_by-IsSortedBy (x ∷ l) = insert_by-IsSortedBy x (sorted_by key l) (sorted_by-IsSortedBy l)

module _ {A : Type 0} (key : A → String) (P : A → Type 0) where
  All-insert_by : (x : A) (l : List A) → P x → All P l → All P (insert_by key x l)
  All-insert_by x [] p h = (p, tt)
  All-insert_by x (y ∷ l) p h = elim (Bool-cases (name_le (key x) (key y))) [
    | inl before ↦ rw before (p, h)
    | inr after ↦ rw after (h.0, All-insert_by x l p h.1)
  ]

  -- Sorting keeps what holds of every element.
  pub All-sorted_by : (l : List A) → All P l → All P (sorted_by key l)
  All-sorted_by [] h = tt
  All-sorted_by (x ∷ l) h = All-insert_by x (sorted_by key l) h.0 (All-sorted_by l h.1)
