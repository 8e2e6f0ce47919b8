-- ===== src/Prelude/Exc.antt =====
-- Exceptions that the program raises or handles, and the result of code that may raise.
use Prim.Native.Nat.{ℕ}
use Prim.Native.String.{String}
use mathlib.Core.Path.{◌≡◌, refl, ap}
use mathlib.Core.Logic.{◌⊎◌, inl, inr}
use mathlib.Core.Bool.{Bool, true, false}
use mathlib.Core.Option.{Option, none, some}
use mathlib.Core.List.{List, [], ◌∷◌}

-- `http_status` is `httpx.HTTPStatusError` with its status code, `http_error` any other
-- `httpx.HTTPError`.
pub data Exc : Type 0 where
  value_error : String → Exc
  key_error type_error zero_division overflow_error recursion_error : Exc
  http_status : ℕ → Exc
  http_error : Exc
  duplicate_key lock_timeout redis_error : Exc

-- A coroutine returns a value, or raises.
pub data Result {ℓ} (V : Type ℓ) : Type ℓ where
  err : Exc → Result V
  ok : V → Result V

infixl 5 ◌>>=◌ ◌>>◌
abbrev pub ◌>>=◌ {ℓ κ} : {V : Type ℓ} {W : Type κ} → Result V → (V → Result W) → Result W
err raised >>= rest = err raised
ok v >>= rest = rest v

abbrev pub ◌>>◌ {ℓ κ} : {V : Type ℓ} {W : Type κ} → Result V → Result W → Result W
first >> rest = first >>= λ _. rest

-- A missing key, `d[k]`, raises `KeyError`.
abbrev pub or_raise {ℓ} : {A : Type ℓ} → Exc → Option A → Result A
or_raise e none = err e
or_raise e (some a) = ok a

abbrev pub raise_if : Bool → Exc → Result (Unit {0})
raise_if true e = err e
raise_if false e = ok tt

-- A loop body over a list that may raise.
abbrev pub fold_m {ℓ κ} : {A : Type ℓ} {S : Type κ} → (S → A → Result S) → S → List A → Result S
fold_m f s [] = ok s
fold_m f s (x ∷ xs) = f s x >>= λ s'. fold_m f s' xs

-- A comprehension whose element may raise.
abbrev pub map_m {ℓ κ} : {A : Type ℓ} {B : Type κ} → (A → Result B) → List A → Result (List B)
map_m f [] = ok []
map_m f (x ∷ xs) = f x >>= λ y. map_m f xs >>= λ ys. ok (y ∷ ys)

pub Result-cases {ℓ} :
    {V : Type ℓ} (r : Result V) → ((raised : Exc) × (r ≡ err raised)) ⊎ ((v : V) × (r ≡ ok v))
Result-cases (err raised) = inl (raised, refl)
Result-cases (ok v) = inr (v, refl)

-- What a successful bind went through.
pub >>=-eq-ok {ℓ κ} :
    {V : Type ℓ} {W : Type κ} (first : Result V) (rest : V → Result W) {w : W}
    → (first >>= rest) ≡ ok w
    → (v : V) × (first ≡ ok v) × (rest v ≡ ok w)
>>=-eq-ok (err raised) rest h = cc
>>=-eq-ok (ok v) rest h = (v, refl, h)

-- The code returns, rather than raising.
abbrev pub Returns {ℓ} : {A : Type ℓ} → Result A → Type ℓ
Returns {A} r = (a : A) × (r ≡ ok a)

pub >>=-Returns {ℓ κ} :
    {A : Type ℓ} {B : Type κ} (m : Result A) (f : A → Result B)
    → Returns m
    → ((a : A) → Returns (f a))
    → Returns (m >>= f)
>>=-Returns m f (a, e) g = rw e (g a)

abbrev pub is_ok {ℓ} : {A : Type ℓ} → Result A → Bool
is_ok (ok a) = true
is_ok (err e) = false

pub ok-injective {ℓ} : {V : Type ℓ} {v w : V} → ok v ≡ ok w → v ≡ w
ok-injective {v = v} h = ap (λ r. elim r [ ok x ↦ x | err e ↦ v ]) h

pub err-injective {ℓ} :
    {V : Type ℓ} {raised exc : Exc} → Path (Result V) (err raised) (err exc) → raised ≡ exc
err-injective {raised = raised} h = ap (λ r. elim r [ ok x ↦ raised | err e ↦ e ]) h
