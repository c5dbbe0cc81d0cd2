-- ===== src/Documents/Integers/Decimal.antt =====
-- Decimal numbers: what digits are worth, and the numbers that the bytes of a JSON document spell
-- (packages/core/src/features/input-admission/raw-integer.ts).
use get_modular.Base.{
  ℕ, zero, suc, ◌+◌, ◌*◌, ◌^◌, ◌≤◌, ◌<◌, ◌≡◌, refl, List, [], ◌∷◌, ◌++◌, length, arith, ap, ◌∙◌,
  left_zero,
}
use native.Mathlib.Nat.{pow-succ', mul-le-mul_right}

-- What the digits are worth behind a number.
abbrev pub worth : ℕ → List ℕ → ℕ
worth n [] = n
worth n (d ∷ ds) = worth (n * 10 + d) ds

abbrev pub AllDigits : List ℕ → Type 0
AllDigits [] = Unit {0}
AllDigits (d ∷ ds) = (d ≤ 9) × AllDigits ds

abbrev pub zeros : ℕ → List ℕ
zeros zero = []
zeros (suc n) = 0 ∷ zeros n

pub worth-append : (n : ℕ) (xs ys : List ℕ) → worth n (xs ++ ys) ≡ worth (worth n xs) ys
worth-append n [] ys = refl
worth-append n (x ∷ xs) ys = worth-append (n * 10 + x) xs ys

pub times_pow : (n k : ℕ) → n * 10 ^ suc k ≡ n * 10 * 10 ^ k
times_pow n k = omega (arith, ap (λ (p : ℕ). n * p) (pow-succ' 10 k))

pub worth-zeros : (n k : ℕ) → worth n (zeros k) ≡ n * 10 ^ k
worth-zeros n zero = omega arith
worth-zeros n (suc k) = worth-zeros (n * 10 + 0) k ∙ omega (arith, times_pow n k)

pub worth_head : (d : ℕ) (ds : List ℕ) → worth 0 (d ∷ ds) ≡ worth d ds
worth_head d ds = ap (λ (t : ℕ). worth t ds) (left_zero d)

pub pow_length : (d : ℕ) (ds : List ℕ) → 10 ^ length (d ∷ ds) ≡ 10 * 10 ^ length ds
pow_length d ds = pow-succ' 10 (length ds)

pub worth_split : (n : ℕ) (ds : List ℕ) → worth n ds ≡ n * 10 ^ length ds + worth 0 ds
worth_split n [] = omega arith
worth_split n (d ∷ ds) =
    worth_split (n * 10 + d) ds
    ∙ omega (arith, worth_head d ds, worth_split d ds, times_pow n (length ds))

pub worth_bound : (ds : List ℕ) → AllDigits ds → worth 0 ds < 10 ^ length ds
worth_bound [] all = omega arith
worth_bound (d ∷ ds) (here, all) = omega (
  arith,
  worth_head d ds,
  pow_length d ds,
  worth_split d ds,
  worth_bound ds all,
  mul-le-mul_right (10 ^ length ds) here,
)

pub pow_add : (a b : ℕ) → 10 ^ (a + b) ≡ 10 ^ a * 10 ^ b
pow_add zero b = omega (arith, ap (λ (t : ℕ). 10 ^ t) (left_zero b))
pow_add (suc a) b =
    omega
      (arith, shift, pow-succ' 10 (a + b), ap (λ (p : ℕ). p * 10 ^ b) (pow-succ' 10 a), pow_add a b)
  where
    shift : 10 ^ (suc a + b) ≡ 10 ^ suc (a + b)
    shift = ap (λ (t : ℕ). 10 ^ t) (omega arith)
