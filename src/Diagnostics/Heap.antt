-- ===== src/Diagnostics/Heap.antt =====
-- The loops of the collector's heap (packages/core/src/features/diagnostics/collector.ts).
use get_modular.Base.{
  length-set, count_of, ℕ, zero, suc, ◌+◌, ◌-◌, ◌*◌, ◌/◌, ◌≤◌, ◌<◌, List, [], ◌∷◌, some, Bool, true,
  false, ◌≡◌, refl, ◌∙◌, arith, ltb, leb, ltb→lt, lt→ltb, get_elem?, set, length, get_elem?-some,
  Bool-cases, inl, inr, sort, insert_sorted,
}
use get_modular.Base.Outcome.{Outcome, done}
use get_modular.Diagnostics.Swaps.{count_of-swap}
use get_modular.Diagnostics.Types.{Diagnostic, Details}
use get_modular.Diagnostics.Collector.{swap, below, above, raise, lower, larger_child}

length-swap :
    (heap : List Diagnostic) (i j : ℕ) (a b : Diagnostic) → length (swap heap i a j b) ≡ length heap
length-swap heap i j a b = rw (length-set (set heap i b) j a, length-set heap i b)

-- A heap of the same length with the same elements: any test holds of as many of them.
abbrev pub Keeps : List Diagnostic → Outcome (List Diagnostic) → Type 0
Keeps heap m =
    (after : List Diagnostic) × (m ≡ done after)
    × (length after ≡ length heap)
    × ((test : Diagnostic → Bool) → count_of test after ≡ count_of test heap)

keep_after :
    (heap swapped : List Diagnostic) (m n : Outcome (List Diagnostic))
    → m ≡ n
    → length swapped ≡ length heap
    → ((test : Diagnostic → Bool) → count_of test swapped ≡ count_of test heap)
    → Keeps swapped n
    → Keeps heap m
keep_after heap swapped m n h l same (after, e, k, still) =
    (after, h ∙ e, omega (arith, l, k), λ test. still test ∙ same test)

module _ (canonicalize : Details → List ℕ) where
  -- One round of the first loop.
  raise_round :
      (fuel : ℕ) (heap : List Diagnostic) (index : ℕ) (parent own : Diagnostic)
      → 0 < index
      → get_elem? heap ((index - 1) / 2) ≡ some parent
      → get_elem? heap index ≡ some own
      → raise canonicalize (suc fuel) heap index ≡ elim (below canonicalize parent own) [
        | false ↦ done heap
        | true ↦
            raise canonicalize fuel (swap heap index own ((index - 1) / 2) parent) ((index - 1) / 2)
      ]
  unfolding raise
  raise_round fuel heap index parent own h p o = rw (lt→ltb 0 index h, raise) (rw p (rw o refl))

  pub raise-Keeps :
      (fuel : ℕ) (heap : List Diagnostic) (index : ℕ)
      → index < fuel
      → index < length heap
      → Keeps heap (raise canonicalize fuel heap index)
  unfolding raise
  raise-Keeps zero heap index h l = absurd (omega arith)
  raise-Keeps (suc fuel) heap index h l = elim (Bool-cases (ltb 0 index)) [
    | inr top ↦ rw (top, raise) (heap, refl, refl, λ test. refl)
    | inl low ↦
        let (parent, p) = get_elem?-some heap ((index - 1) / 2) (omega arith) in
        let (own, o) = get_elem?-some heap index l in
        let shorter = length-swap heap index ((index - 1) / 2) own parent in
        let swapped = swap heap index own ((index - 1) / 2) parent in
        rw (raise_round fuel heap index parent own (ltb→lt 0 index low) p o)
          (elim (Bool-cases (below canonicalize parent own)) [
            | inl less ↦ rw less (
                keep_after heap swapped _ _ refl shorter
                  (λ test. count_of-swap test heap index ((index - 1) / 2) own parent o p)
                  (raise-Keeps fuel swapped ((index - 1) / 2) (ground arith)
                    (ground (arith, shorter))))
            | inr more ↦ rw more (heap, refl, refl, λ test. refl)
          ])
  ]

  larger_child-bounds :
      (heap : List Diagnostic) (left : ℕ)
      → left < length heap
      → (child : ℕ) × (larger_child canonicalize heap left ≡ done child)
        × (left ≤ child)
        × (child < length heap)
  unfolding larger_child
  larger_child-bounds heap left l = elim (Bool-cases (ltb (left + 1) (length heap))) [
    | inr last ↦ rw (last, larger_child) (left, refl, omega arith, l)
    | inl more ↦
        let (r, at_right) = get_elem?-some heap (left + 1) (ltb→lt (left + 1) (length heap) more) in
        let (a, at_left) = get_elem?-some heap left l in
        rw (more, larger_child)
          (rw (at_right, at_left)
            (elim (Bool-cases (above canonicalize r a)) [
              | inl larger ↦
                  rw larger (left + 1, refl, omega arith, ltb→lt (left + 1) (length heap) more)
              | inr smaller ↦ rw smaller (left, refl, omega arith, l)
            ]))
  ]

  -- One round of the second loop.
  lower_round :
      (fuel : ℕ) (heap : List Diagnostic) (index child : ℕ) (own under : Diagnostic)
      → leb (length heap) (2 * index + 1) ≡ false
      → larger_child canonicalize heap (2 * index + 1) ≡ done child
      → get_elem? heap index ≡ some own
      → get_elem? heap child ≡ some under
      → lower canonicalize (suc fuel) heap index ≡ elim (below canonicalize own under) [
        | false ↦ done heap
        | true ↦ lower canonicalize fuel (swap heap index own child under) child
      ]
  unfolding lower
  lower_round fuel heap index child own under h c o u = rw (h, lower) (rw c (rw o (rw u refl)))

  pub lower-Keeps :
      (fuel : ℕ) (heap : List Diagnostic) (index : ℕ)
      → length heap < index + fuel
      → index < length heap
      → Keeps heap (lower canonicalize fuel heap index)
  unfolding lower
  lower-Keeps zero heap index h l = absurd (omega arith)
  lower-Keeps (suc fuel) heap index h l = elim (Bool-cases (leb (length heap) (2 * index + 1))) [
    | inl leaf ↦ rw (leaf, lower) (heap, refl, refl, λ test. refl)
    | inr inner ↦
        let (child, c, above_left, within) =
          larger_child-bounds heap (2 * index + 1) (ground arith) in
        let (own, o) = get_elem?-some heap index l in
        let (under, u) = get_elem?-some heap child within in
        let shorter = length-swap heap index child own under in
        let swapped = swap heap index own child under in
        rw (lower_round fuel heap index child own under inner c o u)
          (elim (Bool-cases (below canonicalize own under)) [
            | inl less ↦ rw less (
                keep_after heap swapped _ _ refl shorter
                  (λ test. count_of-swap test heap index child own under o u)
                  (lower-Keeps fuel swapped child (omega (arith, shorter))
                    (omega (arith, shorter))))
            | inr more ↦ rw more (heap, refl, refl, λ test. refl)
          ])
  ]

module _ {ℓ} {A : Type ℓ} (less : A → A → Bool) where
  length-insert_sorted : (x : A) (xs : List A) → length (insert_sorted less x xs) ≡ suc (length xs)
  unfolding insert_sorted
  length-insert_sorted x [] = refl
  length-insert_sorted x (y ∷ ys) = ground (arith, length-insert_sorted x ys)

  pub length-sort : (xs : List A) → length (sort less xs) ≡ length xs
  unfolding sort
  length-sort [] = refl
  length-sort (x ∷ xs) = omega (arith, length-insert_sorted x (sort less xs), length-sort xs)
