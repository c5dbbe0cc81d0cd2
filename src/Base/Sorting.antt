-- ===== src/Base/Sorting.antt =====
-- Sorted arrays: their order, and the counts of their elements.
use Prim.Native.Nat.{ℕ, ◌+◌}
use mathlib.Core.Path.{◌≡◌, refl, ap, sym, ◌∙◌}
use mathlib.Core.Logic.{inl, inr}
use mathlib.Core.Bool.{Bool, true, false, not, ◌&&◌}
use mathlib.Core.List.{List, [], ◌∷◌, map}
use native.Mathlib.Omega.{arith}
use get_modular.Base.Tests.{if◌then◌else◌, Bool-cases}
use get_modular.Base.Texts.{
  sort, insert_sorted, Text, text_lt, Precedes-text_lt, text_lt-asym, IsAscending, no_text,
  one_text, next_text,
}

-- How many elements satisfy a test.
unfoldable pub count_of {ℓ} : {A : Type ℓ} → (A → Bool) → List A → ℕ
count_of test [] = 0
count_of test (x ∷ xs) = (if test x then 1 else 0) + count_of test xs

module _ {ℓ} {A : Type ℓ} (less : A → A → Bool) where
  -- No element is less than the one before it.
  from_head : A → List A → Bool
  from_head x [] = true
  from_head x (y ∷ ys) = not (less y x) && from_head y ys

  pub ascending : List A → Bool
  ascending [] = true
  ascending (x ∷ xs) = from_head x xs

  module _ (asym : (x y : A) → less x y ≡ true → less y x ≡ false) where
    from_head-insert_sorted :
        (h x : A) (ys : List A)
        → from_head h ys ≡ true
        → less x h ≡ false
        → from_head h (insert_sorted less x ys) ≡ true
    unfolding from_head insert_sorted
    from_head-insert_sorted h x [] k l = ground (arith, l)
    from_head-insert_sorted h x (y ∷ ys) k l = elim (Bool-cases (less y x)) [
      | inl before ↦ rw before (ground (arith, k, from_head-insert_sorted y x ys, asym y x before))
      | inr after ↦ rw after (ground (arith, k, l, after))
    ]

    ascending-insert_sorted :
        (x : A) (ys : List A) → ascending ys ≡ true → ascending (insert_sorted less x ys) ≡ true
    unfolding ascending from_head insert_sorted
    ascending-insert_sorted x [] k = refl
    ascending-insert_sorted x (y ∷ ys) k = elim (Bool-cases (less y x)) [
      | inl before ↦ rw before (from_head-insert_sorted y x ys k (asym y x before))
      | inr after ↦ rw after (ground (arith, k, after))
    ]

    pub ascending-sort : (xs : List A) → ascending (sort less xs) ≡ true
    unfolding sort ascending
    ascending-sort [] = refl
    ascending-sort (x ∷ xs) = ascending-insert_sorted x (sort less xs) (ascending-sort xs)

  -- If `less` compares a key, the keys of an ascending list ascend.
  module _ (key : A → Text) (compares : (x y : A) → less x y ≡ text_lt (key x) (key y)) where
    ascending-IsAscending : (xs : List A) → ascending xs ≡ true → IsAscending (map key xs)
    unfolding ascending from_head
    ascending-IsAscending [] h = no_text
    ascending-IsAscending (x ∷ []) h = one_text
    ascending-IsAscending (x ∷ y ∷ ys) h =
        next_text (λ p. absurd (ground (arith, compares y x, Precedes-text_lt p, h)))
          (ascending-IsAscending (y ∷ ys) (ground (arith, h)))

    pub sort-IsAscending : (xs : List A) → IsAscending (map key (sort less xs))
    sort-IsAscending xs = ascending-IsAscending (sort less xs) (
        ascending-sort
          (λ x y h. compares y x ∙ text_lt-asym (key x) (key y) (sym (compares x y) ∙ h)) xs)

  count_of-insert_sorted :
      (test : A → Bool) (x : A) (ys : List A)
      → count_of test (insert_sorted less x ys) ≡ (if test x then 1 else 0) + count_of test ys
  unfolding insert_sorted count_of
  count_of-insert_sorted test x [] = refl
  count_of-insert_sorted test x (y ∷ ys) = elim (Bool-cases (less y x)) [
    | inl before ↦ rw before (omega (arith, count_of-insert_sorted test x ys))
    | inr after ↦ rw after refl
  ]

  pub count_of-sort :
      (test : A → Bool) (xs : List A) → count_of test (sort less xs) ≡ count_of test xs
  unfolding sort count_of
  count_of-sort test [] = refl
  count_of-sort test (x ∷ xs) =
      count_of-insert_sorted test x (sort less xs)
      ∙ ap (λ n. (if test x then 1 else 0) + n) (count_of-sort test xs)
