-- ===== src/Prelude/Text.antt =====
-- `str(n)` of a natural number, and the strings made of it.
use Prim.Native.Nat.{ℕ, zero, suc, ◌+◌, ◌*◌, ◌/◌, ◌%◌, ◌-◌, ◌<◌}
use Prim.Native.Char.{Char, code}
use Prim.Native.String.{String, [], ◌∷◌, ◌++◌}
use mathlib.Core.Path.{◌≡◌, refl, ap, sym, ◌∙◌}
use mathlib.Core.Logic.{inl, inr}
use native.Mathlib.Omega.{arith}
use text.Mathlib.TextLemmas.{append_cancel_left}
use eve_build.Prelude.Tests.{if◌then◌else◌, ltb, Bool-cases}

abbrev pub digit_char : ℕ → Char
digit_char zero = "0"
digit_char (suc zero) = "1"
digit_char (suc (suc zero)) = "2"
digit_char (suc (suc (suc zero))) = "3"
digit_char (suc (suc (suc (suc zero)))) = "4"
digit_char (suc (suc (suc (suc (suc zero))))) = "5"
digit_char (suc (suc (suc (suc (suc (suc zero)))))) = "6"
digit_char (suc (suc (suc (suc (suc (suc (suc zero))))))) = "7"
digit_char (suc (suc (suc (suc (suc (suc (suc (suc zero)))))))) = "8"
digit_char _ = "9"

-- The digits of `n` before `rest`; `n` is less than the fuel.
unfoldable pub digits : ℕ → ℕ → String → String
digits zero n rest = rest
digits (suc fuel) n rest =
    let shown = digit_char (n % 10) ∷ rest in
    let all = digits fuel (n / 10) shown in if ltb n 10 then shown else all

unfoldable pub str : ℕ → String
str n = digits (suc n) n []

abbrev char_digit : Char → ℕ
char_digit c = code c - 48

value : String → ℕ → ℕ
value [] v = v
value (c ∷ s) v = value s (v * 10 + char_digit c)

digit-digit_char : (d : ℕ) → d < 10 → char_digit (digit_char d) ≡ d
digit-digit_char zero h = refl
digit-digit_char (suc zero) h = refl
digit-digit_char (suc (suc zero)) h = refl
digit-digit_char (suc (suc (suc zero))) h = refl
digit-digit_char (suc (suc (suc (suc zero)))) h = refl
digit-digit_char (suc (suc (suc (suc (suc zero))))) h = refl
digit-digit_char (suc (suc (suc (suc (suc (suc zero)))))) h = refl
digit-digit_char (suc (suc (suc (suc (suc (suc (suc zero))))))) h = refl
digit-digit_char (suc (suc (suc (suc (suc (suc (suc (suc zero)))))))) h = refl
digit-digit_char (suc (suc (suc (suc (suc (suc (suc (suc (suc zero))))))))) h = refl
digit-digit_char (suc (suc (suc (suc (suc (suc (suc (suc (suc (suc n)))))))))) h =
    absurd (omega arith)

value-digits : (fuel n : ℕ) (rest : String) → n < fuel → value (digits fuel n rest) 0 ≡ value rest n
unfolding digits value
value-digits zero n rest h = absurd (omega arith)
value-digits (suc fuel) n rest h = elim (Bool-cases (ltb n 10)) [
  | inl small ↦
      rw (small, digits)
        (ap (λ v. value rest v)
          (ap (λ d. 0 * 10 + d) (digit-digit_char (n % 10) (omega arith)) ∙ ground (arith, small)))
  | inr large ↦
      rw (large, digits)
        (value-digits fuel (n / 10) (digit_char (n % 10) ∷ rest) (ground (arith, large))
          ∙ ap (λ v. value rest v)
              (ap (λ d. n / 10 * 10 + d) (digit-digit_char (n % 10) (omega arith)) ∙ omega arith))
]

pub str-injective : (m n : ℕ) → str m ≡ str n → m ≡ n
unfolding str value
str-injective m n e =
    sym (value-digits (suc m) m [] (omega arith))
    ∙ ap (λ s. value s 0) e
    ∙ value-digits (suc n) n [] (omega arith)

-- `f"{prefix}:{value}"`
unfoldable pub cache_key : String → ℕ → String
cache_key prefix n = prefix ++ (":" ++ str n)

pub cache_key-injective :
    (prefix : String) (m n : ℕ) → cache_key prefix m ≡ cache_key prefix n → m ≡ n
unfolding cache_key
cache_key-injective prefix m n e = str-injective m n (
    append_cancel_left ":" (str m) (str n)
      (append_cancel_left prefix (":" ++ str m) (":" ++ str n) e))

-- `f"{label} {n}"`
unfoldable pub numbered : String → ℕ → String
numbered label n = label ++ (" " ++ str n)

abbrev pub append : String → String → String
append s t = s ++ t
