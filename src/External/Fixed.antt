-- ===== src/External/Fixed.antt =====
-- A decimal fixed point that meets the laws of `FloatArith`.
use native.Mathlib.Nat.{
  div-zero, div-mul-le_self, le-div_iff_mul-le, le_trans, div-le_of_le-mul, mul_comm,
  lt-div-mul-add, mul-le-mul_left, mul-le-mul_right, div-eq_of_lt-le,
}
use eve_build.Prelude.{
  ℕ, zero, suc, ◌+◌, ◌-◌, ◌*◌, ◌/◌, ◌^◌, ◌≤◌, ◌<◌, ◌≡◌, true, refl, arith, leb, nat_beq, not,
  leb→le,
}
use eve_build.External.Float.{FloatArith}

pub leb_of_le : {a b : ℕ} → a ≤ b → leb a b ≡ true
leb_of_le h = ground arith

pub zero_leb : (a : ℕ) → leb 0 a ≡ true
zero_leb a = ground arith

-- Decimal fixed point with six places: products round down and quotients round up.
abbrev scale : ℕ
scale = 1_000_000

abbrev fixed_literal : ℕ → ℕ → ℕ
fixed_literal m k = m * scale / 10 ^ k

abbrev fixed_mul : ℕ → ℕ → ℕ
fixed_mul a b = a * b / scale

abbrev fixed_div : ℕ → ℕ → ℕ
fixed_div a b = (a * scale + (b - 1)) / b

abbrev fixed_ceil : ℕ → ℕ
fixed_ceil a = (a + (scale - 1)) / scale

mul_mono_right : {a b : ℕ} (c : ℕ) → a ≤ b → a * c ≤ b * c
mul_mono_right c h = mul-le-mul_right c h

mul_mono_left : {a b : ℕ} (c : ℕ) → a ≤ b → c * a ≤ c * b
mul_mono_left c h = mul-le-mul_left c h

pub div_mono_lem : (a b c : ℕ) → a ≤ b → a / c ≤ b / c
div_mono_lem a b zero h = rw (div-zero a, div-zero b) (omega arith)
div_mono_lem a b (suc c) h =
    (le-div_iff_mul-le (omega arith)).1 (le_trans (div-mul-le_self a (suc c)) h)

pub literal_le : (m k : ℕ) → m ≤ 10 ^ k → fixed_literal m k ≤ scale
literal_le m k h = div-le_of_le-mul (10 ^ k) (mul_mono_right scale h)

pub mul_le_lem : (a b : ℕ) → b ≤ scale → fixed_mul a b ≤ a
mul_le_lem a b h = div-le_of_le-mul scale (rw (mul_comm scale a) (mul_mono_left a h))

pub mul_mono_lem : (a b c : ℕ) → b ≤ c → fixed_mul a b ≤ fixed_mul a c
mul_mono_lem a b c h = div_mono_lem (a * b) (a * c) scale (mul_mono_left a h)

pub div_zero_lem : (n : ℕ) → 0 < n → fixed_div 0 (n * scale) ≡ 0
div_zero_lem n h = grind arith

-- What is known of a quotient `q` and of its ceiling `c`.
ceil_bounds :
    (n m q c : ℕ)
    → n * scale * scale ≤ q * (m * scale)
    → q * (m * scale) < n * scale * scale + m * scale
    → q ≤ c * scale
    → c * scale < q + scale
    → 0 < m
    → (n ≤ c * m) × (c * m < n + m)
ceil_bounds n m q c h1 h2 h3 h4 h5 =
    let up : q * m ≤ c * scale * m = mul_mono_right m h3 in
    let down : suc (c * scale) * m ≤ (q + scale) * m = mul_mono_right m h4 in
    (omega arith, omega arith)

pub ceil_div_lem :
    (n m : ℕ)
    → 0 < m
    → (n ≤ fixed_ceil (fixed_div (n * scale) (m * scale)) * m)
      × (fixed_ceil (fixed_div (n * scale) (m * scale)) * m < n + m)
ceil_div_lem n m h =
    let top : ℕ = n * scale * scale + (m * scale - 1) in
    let pos : 0 < m * scale = omega arith in
    let low : top / (m * scale) * (m * scale) ≤ top = div-mul-le_self top (m * scale) in
    let high : top < top / (m * scale) * (m * scale) + m * scale = lt-div-mul-add pos in
    ceil_bounds n m (fixed_div (n * scale) (m * scale))
      (fixed_ceil (fixed_div (n * scale) (m * scale))) (omega arith) (omega arith) (omega arith)
      (omega arith) h

pub div_pos_mono : (a b n : ℕ) → a ≤ b → fixed_div a n ≤ fixed_div b n
div_pos_mono a b n h = div_mono_lem (a * scale + (n - 1)) (b * scale + (n - 1)) n (omega arith)

pub mul_one_lem : (a : ℕ) → fixed_mul a scale ≡ a
mul_one_lem a = omega arith

pub fixed_mul_comm : (a b : ℕ) → fixed_mul a b ≡ fixed_mul b a
fixed_mul_comm a b = omega (arith, mul_comm a b)

pub div_self_lem : (n : ℕ) → 0 < n → fixed_div (n * scale) (n * scale) ≡ 1 * scale
div_self_lem n h = div-eq_of_lt-le (n * scale) (omega arith) (omega arith)

abbrev pub fixed_point : FloatArith
fixed_point = record {
  Float = ℕ;
  of_ℕ = λ n. n * scale;
  literal = fixed_literal;
  add = λ a b. a + b;
  sub = λ a b. a - b;
  mul = fixed_mul;
  div = fixed_div;
  ceil = fixed_ceil;
  le = leb;
  truthy = λ a. not (nat_beq a 0);
  le_refl = λ a. ground arith;
  le_trans = λ a b c p q. ground arith;
  of_ℕ_nonneg = λ n. ground arith;
  literal_nonneg = λ m k. zero_leb (fixed_literal m k);
  literal_le_one = λ m k h. leb_of_le (literal_le m k h);
  sub_le = λ a b h. ground arith;
  sub_nonneg = λ a b h. zero_leb (a - b);
  sub_antitone = λ a b c h. ground arith;
  sub_zero = λ a. omega arith;
  mul_le = λ a b h k. leb_of_le (mul_le_lem a b (leb→le b scale k));
  mul_nonneg = λ a b h k. zero_leb (fixed_mul a b);
  mul_mono = λ a b c h k. leb_of_le (mul_mono_lem a b c (leb→le b c k));
  mul_comm = λ a b. fixed_mul_comm a b;
  mul_one = λ a. mul_one_lem a;
  div_nonneg = λ a n p h. zero_leb (fixed_div a (n * scale));
  div_mono = λ a b n p h. leb_of_le (div_pos_mono a b (n * scale) (leb→le a b h));
  of_ℕ_mono = λ m n h. leb_of_le (omega arith);
  div_self = λ n h. div_self_lem n h;
  zero_div = λ n h. div_zero_lem n h;
  ceil_mono = λ a b h. div_mono_lem (a + 999_999) (b + 999_999) scale (ground arith);
  ceil_of_ℕ = λ n h. omega arith;
  ceil_div = λ n m h k p. ceil_div_lem n m p;
  truthy_zero = refl;
}
