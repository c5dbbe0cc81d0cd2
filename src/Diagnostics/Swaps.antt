-- ===== src/Diagnostics/Swaps.antt =====
-- What the swaps of the collector's heap keep
-- (packages/core/src/features/diagnostics/collector.ts).
use get_modular.Base.{
  ℕ, zero, suc, ◌+◌, List, [], ◌∷◌, ◌++◌, some, Bool, ◌≡◌, refl, arith, get_elem?, set,
  if◌then◌else◌, count_of,
}
use get_modular.Diagnostics.Types.{Diagnostic}
use get_modular.Diagnostics.Collector.{swap}

module _ {ℓ} {A : Type ℓ} (test : A → Bool) where
  weight : A → ℕ
  weight a = if test a then 1 else 0

  count_of-set :
      (xs : List A) (i : ℕ) (old a : A)
      → get_elem? xs i ≡ some old
      → count_of test (set xs i a) + weight old ≡ count_of test xs + weight a
  unfolding count_of weight
  count_of-set [] i old a h = cc
  count_of-set (x ∷ xs) zero old a h = let same : x ≡ old = cc in rw same (omega arith)
  count_of-set (x ∷ xs) (suc i) old a h = omega (arith, count_of-set xs i old a h)

  pub count_of-append :
      (xs ys : List A) → count_of test (xs ++ ys) ≡ count_of test xs + count_of test ys
  unfolding count_of
  count_of-append [] ys = omega arith
  count_of-append (x ∷ xs) ys = omega (arith, count_of-append xs ys)

get_elem?-set {ℓ} :
    {A : Type ℓ} (xs : List A) (i j : ℕ) (a b : A)
    → get_elem? xs i ≡ some a
    → get_elem? xs j ≡ some b
    → (get_elem? (set xs i b) j ≡ some b)
get_elem?-set [] i j a b h k = cc
get_elem?-set (x ∷ xs) zero zero a b h k = refl
get_elem?-set (x ∷ xs) zero (suc j) a b h k = k
get_elem?-set (x ∷ xs) (suc i) zero a b h k = k
get_elem?-set (x ∷ xs) (suc i) (suc j) a b h k = get_elem?-set xs i j a b h k

pub count_of-swap :
    (test : Diagnostic → Bool) (heap : List Diagnostic) (i j : ℕ) (a b : Diagnostic)
    → get_elem? heap i ≡ some a
    → get_elem? heap j ≡ some b
    → count_of test (swap heap i a j b) ≡ count_of test heap
count_of-swap test heap i j a b h k = omega (
  arith,
  count_of-set test heap i a b h,
  count_of-set test (set heap i b) j b a (get_elem?-set heap i j a b h k),
)
