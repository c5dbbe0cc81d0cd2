-- ===== src/Diagnostics/Counting.antt =====
-- The counts and the bounds of the collector
-- (packages/core/src/features/diagnostics/collector.ts).
use get_modular.Base.{
  length-set, ℕ, suc, ◌+◌, ◌-◌, ◌≤◌, ◌<◌, List, [], ◌∷◌, ◌++◌, none, some, true, false, ◌≡◌, refl,
  arith, ltb, get_elem?, set, length, get_elem?-some, Bool-cases, inl, inr, min, length-append,
  sort, subst,
}
use get_modular.Base.Outcome.{Outcome, done, ◌>>=◌}
use get_modular.Diagnostics.Types.{Diagnostic, Details}
use get_modular.Diagnostics.Heap.{raise-Keeps, lower-Keeps, length-sort}
use get_modular.Diagnostics.Collector.{
  Collector, new_collector, retained_limit, count_ceiling, count_failure, below, retain,
  replace_greatest, admit, add_unique, add_each, finish, lower, pop_retained, overflow_record,
}

-- A collector that counts `n` candidates, all of them passed on to the heap but the last `n - kept`.
pub record Holds (kept n : ℕ) (c : Collector) : Type 0 where
  pub is_open : c.result ≡ none
  pub retained : length c.heap ≡ min retained_limit kept
  pub counted : c.count ≡ min count_ceiling n
  pub saturation : c.saturated ≡ ltb count_ceiling n
  pub peak : c.peak_retained ≡ min retained_limit kept

pub new_collector-Holds : Holds 0 0 new_collector
unfolding new_collector
new_collector-Holds = record {
  is_open = refl;
  retained = omega arith;
  counted = omega arith;
  saturation = refl;
  peak = omega arith;
}

count_failure-Holds : (n : ℕ) (c : Collector) → Holds n n c → Holds n (suc n) (count_failure c)
unfolding count_failure
count_failure-Holds n c h = elim (Bool-cases (ltb c.count count_ceiling)) [
  | inl below_ceiling ↦
      rw (below_ceiling, count_failure)
        (record {
          is_open = h.is_open;
          retained = h.retained;
          counted = ground (arith, h.counted);
          saturation = ground (arith, h.counted, h.saturation);
          peak = h.peak;
        })
  | inr at_ceiling ↦
      rw (at_ceiling, count_failure)
        (record {
          is_open = h.is_open;
          retained = h.retained;
          counted = ground (arith, h.counted);
          saturation = ground (arith, h.counted);
          peak = h.peak;
        })
]

-- The collector after the last candidate was passed on.
abbrev pub Grown : ℕ → ℕ → Outcome Collector → Type 0
Grown kept n m = (c : Collector) × (m ≡ done c) × Holds kept n c

module _ (canonicalize : Details → List ℕ) where
  retain-Grown :
      (kept n : ℕ) (d : Diagnostic) (c : Collector)
      → length c.heap < retained_limit
      → Holds kept n c
      → Grown (suc kept) n (retain canonicalize d c)
  unfolding retain
  retain-Grown kept n d c room h =
      let added = length-append c.heap (d ∷ []) in
      let (heap, e, l, _) =
        raise-Keeps canonicalize (suc (length c.heap)) (c.heap ++ d ∷ []) (length c.heap)
          (omega arith) (omega (arith, added)) in
      (
        record c { heap = heap; peak_retained = suc (length c.heap) },
        rw (e, retain) refl,
        record {
          is_open = h.is_open;
          retained = omega (arith, added, l, h.retained);
          counted = h.counted;
          saturation = h.saturation;
          peak = omega (arith, h.retained);
        },
      )

  replace_round :
      (d greatest : Diagnostic) (c : Collector)
      → get_elem? c.heap 0 ≡ some greatest
      → replace_greatest canonicalize d c ≡ elim (below canonicalize d greatest) [
        | false ↦ done c
        | true ↦ do
          heap ← lower canonicalize (suc (length c.heap)) (set c.heap 0 d) 0
          done (record c { heap = heap })
      ]
  unfolding replace_greatest
  replace_round d greatest c g = rw (g, replace_greatest) refl

  -- The candidate is dropped, or takes the place of the greatest.
  replace_greatest-Grown :
      (kept n : ℕ) (d : Diagnostic) (c : Collector)
      → retained_limit ≤ length c.heap
      → Holds kept n c
      → Grown (suc kept) n (replace_greatest canonicalize d c)
  unfolding replace_greatest
  replace_greatest-Grown kept n d c full h =
      let (greatest, g) = get_elem?-some c.heap 0 (omega arith) in
      let same = length-set c.heap 0 d in
      let (heap, e, l, _) =
        lower-Keeps canonicalize (suc (length c.heap)) (set c.heap 0 d) 0 (omega (arith, same))
          (omega (arith, same)) in
      rw (replace_round d greatest c g) (elim (Bool-cases (below canonicalize d greatest)) [
        | inr dropped ↦ rw dropped (
          c,
          refl,
          record {
            is_open = h.is_open;
            retained = omega (arith, h.retained);
            counted = h.counted;
            saturation = h.saturation;
            peak = omega (arith, h.retained, h.peak);
          },
        )
        | inl taken ↦ rw taken (
            rw e (
              record c { heap = heap },
              refl,
              record {
                is_open = h.is_open;
                retained = omega (arith, same, l, h.retained);
                counted = h.counted;
                saturation = h.saturation;
                peak = omega (arith, h.retained, h.peak);
              },
            ))
      ])

  pub add_unique-Grown :
      (n : ℕ) (d : Diagnostic) (c : Collector)
      → Holds n n c
      → Grown (suc n) (suc n) (add_unique canonicalize d c)
  unfolding add_unique admit
  add_unique-Grown n d c h =
      let counted = count_failure-Holds n c h in
      rw (h.is_open, add_unique)
        (elim (Bool-cases (ltb (length (count_failure c).heap) retained_limit)) [
          | inl room ↦
              rw (room, admit) (retain-Grown n (suc n) d (count_failure c) (ground arith) counted)
          | inr full ↦
              rw (full, admit)
                (replace_greatest-Grown n (suc n) d (count_failure c) (ground arith) counted)
        ])

  pub add_each-Grown :
      (ds : List Diagnostic) (n : ℕ) (c : Collector)
      → Holds n n c
      → Grown (length ds + n) (length ds + n) (add_each canonicalize ds c)
  unfolding add_each
  add_each-Grown [] n c h =
      let same : n ≡ 0 + n = omega arith in (c, refl, subst (λ m. Holds m m c) same h)
  add_each-Grown (d ∷ ds) n c h =
      let (c', e, h') = add_unique-Grown n d c h in
      let same : length ds + suc n ≡ suc (length ds) + n = omega arith in
      rw (e, add_each)
        (subst (λ m. Grown m m (add_each canonicalize ds c')) same
          (add_each-Grown ds (suc n) c' h'))

length-pop_retained : (ds : List Diagnostic) → length (pop_retained ds) ≡ length ds - 1
unfolding pop_retained
length-pop_retained [] = omega arith
length-pop_retained (d ∷ []) = omega arith
length-pop_retained (d ∷ d' ∷ ds) = omega (arith, length-pop_retained (d' ∷ ds))

module _ (canonicalize : Details → List ℕ) where
  finish_length :
      (n : ℕ) (c : Collector)
      → Holds n n c
      → length (finish canonicalize c).1 ≡ min retained_limit n
  unfolding finish
  finish_length n c h =
      let sorted = sort (below canonicalize) c.heap in
      let same = length-sort (below canonicalize) c.heap in
      let popped = length-pop_retained sorted in
      rw (h.is_open, finish)
        (elim (Bool-cases (ltb retained_limit c.count)) [
          | inr few ↦ rw few (omega (arith, same, h.retained))
          | inl many ↦ rw many (
              ground (
                arith,
                same,
                popped,
                h.retained,
                h.counted,
                length-append (pop_retained sorted)
                    (overflow_record (c.count - length (pop_retained sorted)) ∷ []),
              ))
        ])

  -- A new collector takes any number of diagnostics. It counts them up to the ceiling, notes whether
  -- there were more, and never holds nor returns more than the limit; up to the limit it returns as
  -- many as it was given.
  pub collect_lem :
      (ds : List Diagnostic)
      → (c : Collector) × (add_each canonicalize ds new_collector ≡ done c)
        × (c.count ≡ min count_ceiling (length ds))
        × (c.saturated ≡ ltb count_ceiling (length ds))
        × (length c.heap ≡ min retained_limit (length ds))
        × (length (finish canonicalize c).1 ≡ min retained_limit (length ds))
  collect_lem ds =
      let (c, e, h) = add_each-Grown canonicalize ds 0 new_collector new_collector-Holds in
      let total : length ds + 0 ≡ length ds = omega arith in
      let holds = subst (λ n. Holds n n c) total h in
      (c, e, holds.counted, holds.saturation, holds.retained, finish_length (length ds) c holds)
