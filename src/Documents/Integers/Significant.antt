-- ===== src/Documents/Integers/Significant.antt =====
-- What one digit does to the counts of a coefficient
-- (packages/core/src/features/input-admission/raw-integer.ts: `scanCoefficient`).
use get_modular.Base.{ℕ, ◌+◌, ◌≤◌, ◌<◌, ◌≡◌, ◌≢◌, List, arith, subst, number_key}
use get_modular.Documents.Integers.{Counts, count_byte}
use get_modular.Documents.Integers.Runs.{Found}

-- What a digit does to the counts, by whether it is zero and whether a significant digit was found.
pub record HasCounts (start significant trailing : ℕ) (s : Counts) : Type 0 where
  pub start_is : s.significant_start ≡ start
  pub digits_are : s.significant_digits ≡ significant
  pub zeros_are : s.trailing_zeros ≡ trailing

module _ (stop q : ℕ) (s : Counts) (early : q < stop) where
  pub count_leading_zero :
      s.significant_start ≡ stop
      → HasCounts stop s.significant_digits s.trailing_zeros (count_byte stop q 0x30 s)
  unfolding count_byte
  count_leading_zero h = record {
    start_is = ground (arith, h);
    digits_are = ground (arith, h);
    zeros_are = ground (arith, h);
  }

  pub count_first :
      (d : ℕ)
      → d ≤ 9
      → d ≢ 0
      → s.significant_start ≡ stop
      → HasCounts q (s.significant_digits + 1) 0 (count_byte stop q (0x30 + d) s)
  unfolding count_byte
  count_first d small positive h = record {
    start_is = ground (arith, h);
    digits_are = ground (arith, h);
    zeros_are = ground (arith, h);
  }

  pub count_zero :
      s.significant_start ≢ stop
      → HasCounts s.significant_start
          (s.significant_digits + 1)
          (s.trailing_zeros + 1)
          (count_byte stop q 0x30 s)
  unfolding count_byte
  count_zero h = record {
    start_is = ground (arith, h);
    digits_are = ground (arith, h);
    zeros_are = ground (arith, h);
  }

  pub count_nonzero :
      (d : ℕ)
      → d ≤ 9
      → d ≢ 0
      → s.significant_start ≢ stop
      → HasCounts s.significant_start (s.significant_digits + 1) 0 (count_byte stop q (0x30 + d) s)
  unfolding count_byte
  count_nonzero d small positive h = record {
    start_is = ground (arith, h);
    digits_are = ground (arith, h);
    zeros_are = ground (arith, h);
  }

pub Found-cast :
    {bytes : List ℕ} {a a' b b' c c' p p' n n' : ℕ}
    → a ≡ a'
    → b ≡ b'
    → c ≡ c'
    → p ≡ p'
    → n ≡ n'
    → Found bytes a b c p n
    → Found bytes a' b' c' p' n'
Found-cast {bytes} {a} {b} {b'} {c} {c'} {p} {p'} {n} {n'} ea eb ec ep en f =
    subst (λ (x : ℕ). Found bytes x b' c' p' n') ea
      (subst (λ (x : ℕ). Found bytes a x c' p' n') eb
        (subst (λ (x : ℕ). Found bytes a b x p' n') ec
          (subst (λ (x : ℕ). Found bytes a b c x n') ep
            (subst (λ (x : ℕ). Found bytes a b c p x) en f))))
