-- ===== src/Observation/Depth.antt =====
-- `missedDepth` of packages/observation/src/features/store/engine.ts.
use get_modular.Base.{
  ℕ, zero, suc, ◌≤◌, ◌<◌, ◌≡◌, ◌⊎◌, refl, List, [], ◌∷◌, true, arith, number_key, eqb_iff, text_key,
  ltb, Text, contains, lookup, inl, inr, Bool-cases, Option-cases, ltb→lt, ◌==◌, ◌∙◌, text_eqb,
  text_eqb_iff, subst, sym, ap,
}
use get_modular.Observation.Engine.{
  StoreEngine, slot, get_or, deepest, missed_from, missed_depth, max_cascade_depth,
}

-- The result of the inner loop.
record Deepest (slots : List ℕ) (revision depth candidate result : ℕ) : Type 0 where
  above : depth ≤ result
  reason : (result ≡ depth) ⊎ (revision < slot slots result)
  bounded : (result ≤ candidate) ⊎ (result ≡ depth)
  greatest : (d : ℕ) → d ≤ candidate → revision < slot slots d → d ≤ result

deepest-Deepest :
    (slots : List ℕ) (revision depth candidate : ℕ)
    → Deepest slots revision depth candidate (deepest slots revision depth candidate)
unfolding deepest
deepest-Deepest slots revision depth zero = record {
  above = omega arith;
  reason = inl refl;
  bounded = inr refl;
  greatest = λ d low h. omega arith;
}
deepest-Deepest slots revision depth (suc candidate) =
    let further = deepest-Deepest slots revision depth candidate in
    elim (Bool-cases (ltb depth (suc candidate))) [
      | inr past ↦
          rw (past, deepest)
            (record {
              above = omega arith;
              reason = inl refl;
              bounded = inr refl;
              greatest = λ d low h. ground arith;
            })
      | inl more ↦ elim (Bool-cases (ltb revision (slot slots (suc candidate)))) [
        | inl found ↦
            rw (more, found, deepest)
              (record {
                above = ground arith;
                reason = inr (ltb→lt revision (slot slots (suc candidate)) found);
                bounded = inl (omega arith);
                greatest = λ d low h. low;
              })
        | inr lower ↦
            rw (more, lower, deepest)
              (record {
                above = further.above;
                reason = further.reason;
                bounded = elim further.bounded [ inl b ↦ inl (omega arith) | inr b ↦ inr b ];
                greatest = λ d low h. elim (Bool-cases (d == suc candidate)) [
                  | inl e ↦
                      absurd (ground (arith, ap (slot slots) ((eqb_iff d (suc candidate)).0 e)))
                  | inr e ↦ further.greatest d (ground arith) h
                ];
              })
      ]
    ]

-- The slots of a key: none before the key is written.
abbrev pub slots_of : List (Text × List ℕ) → Text → List ℕ
slots_of at_depth key = get_or [] key at_depth

-- The result over all keys, from a depth on.
record Missed (at_depth : List (Text × List ℕ)) (revision depth : ℕ) (keys : List Text) (result : ℕ)
    : Type 0 where
  above : depth ≤ result
  reason :
      (result ≡ depth)
      ⊎ ((key : Text) × (contains keys key ≡ true)
          × (revision < slot (slots_of at_depth key) result))
  greatest :
      (key : Text) (d : ℕ)
      → contains keys key ≡ true
      → d ≤ max_cascade_depth
      → revision < slot (slots_of at_depth key) d
      → d ≤ result

contains_head : (key : Text) (keys : List Text) → contains (key ∷ keys) key ≡ true
contains_head key keys = ground (arith, text_eqb_iff key key)

contains_tail :
    (key k : Text) (keys : List Text) → contains keys k ≡ true → contains (key ∷ keys) k ≡ true
contains_tail key k keys h = ground arith

module _ (at_depth : List (Text × List ℕ)) (revision : ℕ) where
  further_key :
      (depth between result : ℕ) (key : Text) (keys : List Text)
      → depth ≤ between
      → (between ≡ depth) ⊎ (revision < slot (slots_of at_depth key) between)
      → ((d : ℕ) → d ≤ max_cascade_depth → revision < slot (slots_of at_depth key) d → d ≤ between)
      → Missed at_depth revision between keys result
      → Missed at_depth revision depth (key ∷ keys) result
  further_key depth between result key keys low why most m = record {
    above = omega (arith, m.above);
    reason = elim m.reason [
      | inl e ↦ elim why [
        | inl w ↦ inl (e ∙ w)
        | inr w ↦ inr (
          key,
          contains_head key keys,
          subst (λ (r : ℕ). revision < slot (slots_of at_depth key) r) (sym e) w,
        )
      ]
      | inr (k, there, h) ↦ inr (k, contains_tail key k keys there, h)
    ];
    greatest = λ k d within bound h. elim (Bool-cases (text_eqb key k)) [
      | inl same ↦
          let back =
            subst (λ (x : Text). revision < slot (slots_of at_depth x) d)
              (sym ((text_eqb_iff key k).0 same)) h in
          omega (arith, most d bound back, m.above)
      | inr other ↦ m.greatest k d (ground (arith, within)) bound h
    ];
  }

  missed_from-Missed :
      (depth : ℕ) (keys : List Text)
      → Missed at_depth revision depth keys (missed_from at_depth revision depth keys)
  unfolding missed_from
  missed_from-Missed depth [] = record {
    above = omega arith;
    reason = inl refl;
    greatest = λ k d within. absurd (cc);
  }
  missed_from-Missed depth (key ∷ keys) = elim (Option-cases (lookup key at_depth)) [
    | inl e ↦
        rw (e, missed_from)
          (further_key depth depth _ key keys (omega arith) (inl refl)
            (λ d bound h. absurd (ground (arith, e))) (missed_from-Missed depth keys))
    | inr (slots, e) ↦
        let found = deepest-Deepest slots revision depth max_cascade_depth in
        let same : slots_of at_depth key ≡ slots = rw (e, get_or) refl in
        rw (e, missed_from)
          (further_key depth (deepest slots revision depth max_cascade_depth) _ key keys found.above
            (rw same found.reason)
            (λ d bound h.
              found.greatest d bound (subst (λ (xs : List ℕ). revision < slot xs d) same h))
            (missed_from-Missed (deepest slots revision depth max_cascade_depth) keys))
  ]

-- The missed depth is the greatest depth, up to the limit, at which one of the keys was written after
-- the revision, and 0 if there was no such write.
pub missed_depth_lem :
    {V : Type 0} (e : StoreEngine V) (keys : List Text) (revision : ℕ)
    → ((missed_depth e keys revision ≡ 0)
        ⊎ ((key : Text) × (contains keys key ≡ true)
            × (revision
                < slot (slots_of e.latest_revision_at_depth key) (missed_depth e keys revision))))
      × ((key : Text) (d : ℕ)
          → contains keys key ≡ true
          → d ≤ max_cascade_depth
          → revision < slot (slots_of e.latest_revision_at_depth key) d
          → d ≤ missed_depth e keys revision)
unfolding missed_depth
missed_depth_lem e keys revision =
    let m = missed_from-Missed e.latest_revision_at_depth revision 0 keys in (m.reason, m.greatest)
