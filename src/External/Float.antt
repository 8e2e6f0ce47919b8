-- ===== src/External/Float.antt =====
-- Python's `float`: IEEE 754 binary64. Only the operations that the program uses, on values that
-- are finite, and only laws that rounding to nearest keeps.
use eve_build.Prelude.{ℕ, ◌+◌, ◌*◌, ◌^◌, ◌≤◌, ◌<◌, ◌≡◌, Bool, true, false}

pub record FloatArith : Type 1 where
  pub Float : Type 0
  -- `float(n)`
  pub of_ℕ : ℕ → Float
  -- The literal m · 10^-k.
  pub literal : ℕ → ℕ → Float
  pub add : Float → Float → Float
  pub sub : Float → Float → Float
  pub mul : Float → Float → Float
  pub div : Float → Float → Float
  -- `math.ceil`, for values that are not negative
  pub ceil : Float → ℕ
  -- `x <= y`
  pub le : Float → Float → Bool
  -- `bool(x)` is `x != 0.0`
  pub truthy : Float → Bool
  pub le_refl : (a : Float) → le a a ≡ true
  pub le_trans : (a b c : Float) → le a b ≡ true → le b c ≡ true → le a c ≡ true
  pub of_ℕ_nonneg : (n : ℕ) → le (of_ℕ 0) (of_ℕ n) ≡ true
  pub literal_nonneg : (m k : ℕ) → le (of_ℕ 0) (literal m k) ≡ true
  pub literal_le_one : (m k : ℕ) → m ≤ 10 ^ k → le (literal m k) (of_ℕ 1) ≡ true
  -- Subtraction is monotone, and exact where the difference is 0 or nothing is subtracted.
  pub sub_le : (a b : Float) → le (of_ℕ 0) b ≡ true → le (sub a b) a ≡ true
  pub sub_nonneg : (a b : Float) → le b a ≡ true → le (of_ℕ 0) (sub a b) ≡ true
  pub sub_antitone : (a b c : Float) → le b c ≡ true → le (sub a c) (sub a b) ≡ true
  pub sub_zero : (a : Float) → sub a (of_ℕ 0) ≡ a
  -- A factor of at most 1 does not enlarge a value that is not negative.
  pub mul_le : (a b : Float) → le (of_ℕ 0) a ≡ true → le b (of_ℕ 1) ≡ true → le (mul a b) a ≡ true
  pub mul_nonneg :
      (a b : Float) → le (of_ℕ 0) a ≡ true → le (of_ℕ 0) b ≡ true → le (of_ℕ 0) (mul a b) ≡ true
  pub mul_mono :
      (a b c : Float) → le (of_ℕ 0) a ≡ true → le b c ≡ true → le (mul a b) (mul a c) ≡ true
  pub mul_comm : (a b : Float) → mul a b ≡ mul b a
  pub mul_one : (a : Float) → mul a (of_ℕ 1) ≡ a
  pub div_nonneg :
      (a : Float) (n : ℕ) → 0 < n → le (of_ℕ 0) a ≡ true → le (of_ℕ 0) (div a (of_ℕ n)) ≡ true
  pub div_mono :
      (a b : Float) (n : ℕ) → 0 < n → le a b ≡ true → le (div a (of_ℕ n)) (div b (of_ℕ n)) ≡ true
  pub of_ℕ_mono : (m n : ℕ) → m ≤ n → le (of_ℕ m) (of_ℕ n) ≡ true
  pub div_self : (n : ℕ) → 0 < n → div (of_ℕ n) (of_ℕ n) ≡ of_ℕ 1
  pub zero_div : (n : ℕ) → 0 < n → div (of_ℕ 0) (of_ℕ n) ≡ of_ℕ 0
  pub ceil_mono : (a b : Float) → le a b ≡ true → ceil a ≤ ceil b
  -- Whole numbers up to 2^53 are exact, and so is the ceiling of their quotients.
  pub ceil_of_ℕ : (n : ℕ) → n ≤ 2 ^ 53 → ceil (of_ℕ n) ≡ n
  pub ceil_div :
      (n m : ℕ)
      → n ≤ 2 ^ 53
      → m ≤ 2 ^ 53
      → 0 < m
      → (n ≤ ceil (div (of_ℕ n) (of_ℕ m)) * m) × (ceil (div (of_ℕ n) (of_ℕ m)) * m < n + m)
  pub truthy_zero : truthy (of_ℕ 0) ≡ false
