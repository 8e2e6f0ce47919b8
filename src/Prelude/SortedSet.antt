-- ===== src/Prelude/SortedSet.antt =====
-- `sorted(s)` of a Python set of integers: ascending, each element once.
use eve_build.Prelude.Tests.{if◌then◌else◌, ◌==◌}
use eve_build.Prelude.Lists.{contains}
use eve_build.Prelude.Int.{ℤ, int_beq, int_ltb, int_eq, int_beq_iff, int_ltb_total}
use mathlib.Core.Path.{◌≡◌, refl}
use mathlib.Core.Bool.{true, ◌||◌}
use mathlib.Core.List.{List, [], ◌∷◌}
use native.Mathlib.Omega.{arith}

abbrev pub insert_sorted : ℤ → List ℤ → List ℤ
insert_sorted a [] = a ∷ []
insert_sorted a (b ∷ l) =
    let rest = insert_sorted a l in
    if int_ltb a b then a ∷ b ∷ l else if int_beq a b then b ∷ l else b ∷ rest

abbrev pub sorted_set : List ℤ → List ℤ
sorted_set [] = []
sorted_set (a ∷ l) = insert_sorted a (sorted_set l)

-- Strictly ascending.
abbrev pub IsAscending : List ℤ → Type 0
IsAscending [] = Unit
IsAscending (a ∷ []) = Unit
IsAscending (a ∷ b ∷ l) = (int_ltb a b ≡ true) × IsAscending (b ∷ l)

pub contains-insert_sorted :
    (t a : ℤ) (l : List ℤ) → contains t (insert_sorted a l) ≡ (a == t || contains t l)
contains-insert_sorted t a [] = refl
contains-insert_sorted t a (b ∷ l) = ground (arith, contains-insert_sorted t a l, int_beq_iff a b)

pub contains-sorted_set : (t : ℤ) (l : List ℤ) → contains t (sorted_set l) ≡ contains t l
contains-sorted_set t [] = refl
contains-sorted_set t (a ∷ l) =
    ground (arith, contains-insert_sorted t a (sorted_set l), contains-sorted_set t l)

insert_sorted-IsAscending : (a : ℤ) (l : List ℤ) → IsAscending l → IsAscending (insert_sorted a l)
insert_sorted-IsAscending a [] h = tt
insert_sorted-IsAscending a (b ∷ []) h = ground (arith, int_ltb_total a b)
insert_sorted-IsAscending a (b ∷ c ∷ l) h =
    ground (arith, int_ltb_total a b, int_ltb_total a c, insert_sorted-IsAscending a (c ∷ l) h.1)

pub sorted_set-IsAscending : (l : List ℤ) → IsAscending (sorted_set l)
sorted_set-IsAscending [] = tt
sorted_set-IsAscending (a ∷ l) =
    insert_sorted-IsAscending a (sorted_set l) (sorted_set-IsAscending l)

-- Sorting what is sorted changes nothing.
pub sorted_set-of_IsAscending : (l : List ℤ) → IsAscending l → sorted_set l ≡ l
sorted_set-of_IsAscending [] h = refl
sorted_set-of_IsAscending (a ∷ []) h = refl
sorted_set-of_IsAscending (a ∷ b ∷ l) h = rw (sorted_set-of_IsAscending (b ∷ l) h.1) (ground arith)
