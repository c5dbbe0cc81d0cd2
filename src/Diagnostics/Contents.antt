-- ===== src/Diagnostics/Contents.antt =====
-- The contents and the order of what the collector returns
-- (packages/core/src/features/diagnostics/collector.ts).
use get_modular.Base.{
  left_zero, ℕ, suc, ◌+◌, ◌≤◌, ◌<◌, List, [], ◌∷◌, ◌++◌, Bool, true, false, ◌≡◌, refl, sym, ap, ◌∙◌,
  subst, arith, ltb, lt→ltb, length, count_of, count_of-sort, ascending, ascending-sort,
  length-append, sort,
}
use get_modular.Base.Outcome.{done_injective, done}
use get_modular.Diagnostics.Types.{Diagnostic, Details}
use get_modular.Diagnostics.Signs.{Sign, negative, neutral, positive, is_negative}
use get_modular.Diagnostics.Order.{compare_diagnostics}
use get_modular.Diagnostics.Linear.{flip}
use get_modular.Diagnostics.Total.{compare_diagnostics-flips}
use get_modular.Diagnostics.Collector.{
  Collector, new_collector, retained_limit, count_failure, below, retain, admit, add_unique,
  add_each, finish,
}
use get_modular.Diagnostics.Swaps.{count_of-append}
use get_modular.Diagnostics.Heap.{raise-Keeps}
use get_modular.Diagnostics.Counting.{Holds, new_collector-Holds, add_unique-Grown}

heap-count_failure : (c : Collector) → (count_failure c).heap ≡ c.heap
unfolding count_failure
heap-count_failure c = ground arith

flip-negative : (s : Sign) → is_negative s ≡ true → is_negative (flip s) ≡ false
unfolding flip is_negative
flip-negative negative h = refl
flip-negative neutral h = refl
flip-negative positive h = cc

module _ (canonicalize : Details → List ℕ) where
  below-asym : (a b : Diagnostic) → below canonicalize a b ≡ true → below canonicalize b a ≡ false
  below-asym a b h =
      ap is_negative (compare_diagnostics-flips canonicalize a b)
      ∙ flip-negative (compare_diagnostics canonicalize a b) h

  module _ (test : Diagnostic → Bool) where
    retain-counts :
        (d : Diagnostic) (c after : Collector)
        → retain canonicalize d c ≡ done after
        → count_of test after.heap ≡ count_of test c.heap + count_of test (d ∷ [])
    unfolding retain
    retain-counts d c after h =
        let added = length-append c.heap (d ∷ []) in
        let (heap, e, l, same) =
          raise-Keeps canonicalize (suc (length c.heap)) (c.heap ++ d ∷ []) (length c.heap)
            (omega arith) (omega (arith, added)) in
        let made : retain canonicalize d c
            ≡ done (record c { heap = heap; peak_retained = suc (length c.heap) }) =
          rw (e, retain) refl in
        let after_is =
          done_injective after (record c { heap = heap; peak_retained = suc (length c.heap) })
            (sym h ∙ made) in
        ap (λ c. count_of test c.heap) after_is ∙ same test ∙ count_of-append test c.heap (d ∷ [])

    add_unique-counts :
        (n : ℕ) (d : Diagnostic) (c after : Collector)
        → Holds n n c
        → n < retained_limit
        → add_unique canonicalize d c ≡ done after
        → count_of test after.heap ≡ count_of test c.heap + count_of test (d ∷ [])
    unfolding add_unique admit
    add_unique-counts n d c after h room e =
        let kept = heap-count_failure c in
        let more : ltb (length (count_failure c).heap) retained_limit ≡ true =
          rw kept (lt→ltb (length c.heap) retained_limit (omega (arith, h.retained))) in
        let retained : add_unique canonicalize d c ≡ retain canonicalize d (count_failure c) =
          simp (h.is_open, add_unique, more, admit) refl in
        retain-counts d (count_failure c) after (sym retained ∙ e)
        ∙ ap (λ heap. count_of test heap + count_of test (d ∷ [])) kept

    add_each-counts :
        (ds : List Diagnostic) (n : ℕ) (c : Collector)
        → Holds n n c
        → length ds + n ≤ retained_limit
        → (after : Collector) × (add_each canonicalize ds c ≡ done after)
          × Holds (length ds + n) (length ds + n) after
          × (count_of test after.heap ≡ count_of test c.heap + count_of test ds)
    unfolding add_each count_of
    add_each-counts [] n c h room =
        let same : n ≡ 0 + n = omega arith in
        (c, refl, subst (λ m. Holds m m c) same h, omega arith)
    add_each-counts (d ∷ ds) n c h room =
        let (next, e, holds) = add_unique-Grown canonicalize n d c h in
        let (after, e', holds', counts) =
          add_each-counts ds (suc n) next holds (omega (arith, room)) in
        let same : length ds + suc n ≡ suc (length ds) + n = omega arith in
        let one = add_unique-counts n d c next h (omega (arith, room)) e in
        (
          after,
          rw (e, add_each) e',
          subst (λ m. Holds m m after) same holds',
          omega (arith, counts, one),
        )

-- Up to the limit, the collector takes the diagnostics that it is given, and `finish` returns them in
-- ascending order: no diagnostic comes before the one ahead of it, and any test holds of as many of the
-- diagnostics returned as of those given.
pub finish_lem :
    (canonicalize : Details → List ℕ) (test : Diagnostic → Bool) (ds : List Diagnostic)
    → length ds ≤ retained_limit
    → (c : Collector) × (add_each canonicalize ds new_collector ≡ done c)
      × (ascending (below canonicalize) (finish canonicalize c).1 ≡ true)
      × (count_of test (finish canonicalize c).1 ≡ count_of test ds)
unfolding finish new_collector count_of
finish_lem canonicalize test ds room =
    let (c, e, h, counts) =
      add_each-counts canonicalize test ds 0 new_collector new_collector-Holds
        (omega (arith, room)) in
    let few : ltb retained_limit c.count ≡ false = ground (arith, h.counted, room) in
    let sorted : (finish canonicalize c).1 ≡ sort (below canonicalize) c.heap =
      simp (h.is_open, finish, few) refl in
    (
      c,
      e,
      rw sorted (ascending-sort (below canonicalize) (below-asym canonicalize) c.heap),
      rw sorted
          (count_of-sort (below canonicalize) test c.heap ∙ counts ∙ left_zero (count_of test ds)),
    )
