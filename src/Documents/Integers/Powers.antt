-- ===== src/Documents/Integers/Powers.antt =====
-- Powers of ten: when a number is a whole multiple of one.
use get_modular.Base.{ℕ, suc, ◌+◌, ◌-◌, ◌*◌, ◌%◌, ◌^◌, ◌≤◌, ◌<◌, ◌≡◌, ◌≢◌, arith, ap, ◌∙◌}
use native.Mathlib.Nat.{
  mul-le-mul_right, le_of_mul-le-mul_right, pow-le-pow_right, one-le-pow, pow-succ',
}
use get_modular.Documents.Integers.Decimal.{pow_add, times_pow}

pow_positive : (k : ℕ) → 0 < 10 ^ k
pow_positive k = one-le-pow k 10 (omega arith)

-- Ten does not divide a number that ends in another digit, so that no division by ten is exact.
pub indivisible : (n m a b : ℕ) → n % 10 ≢ 0 → a < b → n * 10 ^ a ≡ m * 10 ^ b → ⊥
indivisible n m a b last less h =
    let j = b - a - 1 in
    let index : b ≡ suc j + a = omega (arith, less) in
    let split : 10 ^ b ≡ 10 ^ suc j * 10 ^ a = ap (λ (t : ℕ). 10 ^ t) index ∙ pow_add (suc j) a in
    let equal : n * 10 ^ a ≡ m * 10 * 10 ^ j * 10 ^ a =
      h ∙ ap (λ (t : ℕ). m * t) split ∙ omega (arith, ap (λ (t : ℕ). t * 10 ^ a) (times_pow m j)) in
    let up : n ≤ m * 10 * 10 ^ j = le_of_mul-le-mul_right (omega (arith, equal)) (pow_positive a) in
    let down : m * 10 * 10 ^ j ≤ n =
      le_of_mul-le-mul_right (omega (arith, equal)) (pow_positive a) in
    omega (arith, up, down, last)

pub multiple : (n a b : ℕ) → b ≤ a → n * 10 ^ a ≡ n * 10 ^ (a - b) * 10 ^ b
multiple n a b h =
    let index : a ≡ (a - b) + b = omega (arith, h) in
    let split : 10 ^ a ≡ 10 ^ (a - b) * 10 ^ b = ap (λ (t : ℕ). 10 ^ t) index ∙ pow_add (a - b) b in
    omega (arith, ap (λ (t : ℕ). n * t) split)

-- A number of digits that is shifted.
pub shifted_below : (n size k : ℕ) → n < 10 ^ size → n * 10 ^ k < 10 ^ (size + k)
shifted_below n size k h =
    omega (arith, mul-le-mul_right (10 ^ k) h, pow_add size k, pow_positive k)

pub shifted_above :
    (n size k bound : ℕ) → 10 ^ size ≤ 10 * n → suc bound ≤ size + k → 10 ^ bound ≤ n * 10 ^ k
shifted_above n size k bound first h = omega (
  arith,
  mul-le-mul_right (10 ^ k) first,
  pow_add size k,
  pow-succ' 10 bound,
  pow-le-pow_right {n = 10} (omega arith) h,
)
