-- ===== src/Prelude/Unseen.antt =====
-- How many keys of a dictionary a traversal has not visited yet: what makes its loops end.
use Prim.Native.Nat.{ℕ, ◌≤◌, ◌<◌}
use mathlib.Core.Path.{◌≡◌}
use mathlib.Core.Bool.{true, false, not}
use mathlib.Core.List.{List, [], ◌∷◌}
use native.Mathlib.Omega.{arith}
use eve_build.Prelude.Tests.{nat_eq}
use eve_build.Prelude.Lists.{contains, count, length}

abbrev pub unseen : List ℕ → List ℕ → ℕ
unseen ks visited = count (λ k. not (contains k visited)) ks

pub unseen-le : (ks visited : List ℕ) → unseen ks visited ≤ length ks
unseen-le [] visited = omega arith
unseen-le (k ∷ ks) visited = ground (arith, unseen-le ks visited)

pub unseen-cons-le :
    (ks : List ℕ) (t : ℕ) (visited : List ℕ) → unseen ks (t ∷ visited) ≤ unseen ks visited
unseen-cons-le [] t visited = omega arith
unseen-cons-le (k ∷ ks) t visited = ground (arith, unseen-cons-le ks t visited)

-- Visiting a key that was not visited leaves fewer.
pub unseen-cons-lt :
    (ks : List ℕ) (t : ℕ) (visited : List ℕ)
    → contains t ks ≡ true
    → contains t visited ≡ false
    → unseen ks (t ∷ visited) < unseen ks visited
unseen-cons-lt [] t visited h new = absurd (cc)
unseen-cons-lt (k ∷ ks) t visited h new =
    ground (arith, unseen-cons-le ks t visited, unseen-cons-lt ks t visited)
