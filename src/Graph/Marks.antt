-- ===== src/Graph/Marks.antt =====
-- Marks of vertices, and one round of `findRootClosure`
-- (packages/core/src/features/composition-semantics/selected-graph.ts).
use get_modular.Base.{
  length-set, ℕ, zero, suc, ◌+◌, ◌<◌, List, [], ◌∷◌, true, false, ◌≡◌, ◌≢◌, refl, sym, ap, subst,
  ◌∙◌, arith, ◌⊎◌, inl, inr, ◌||◌, ◌==◌, number_key, if◌then◌else◌, set, length, contains,
  Bool-cases,
}
use get_modular.Graph.Components.{marked}
use get_modular.Graph.Closure.{Closing, reach, note_peak, reach_providers}

pub marked-set :
    (marks : List ℕ) (i j : ℕ)
    → i < length marks
    → marked (set marks i 1) j ≡ (i == j || marked marks j)
unfolding marked
marked-set [] i j h = absurd (omega arith)
marked-set (m ∷ marks) zero zero h = ground arith
marked-set (m ∷ marks) zero (suc j) h = ground arith
marked-set (m ∷ marks) (suc i) zero h = ground arith
marked-set (m ∷ marks) (suc i) (suc j) h = ground (arith, marked-set marks i j)

-- The vertices without a mark.
unfoldable pub unmarked : List ℕ → ℕ
unmarked [] = 0
unmarked (m ∷ marks) = (if m == 1 then 0 else 1) + unmarked marks

pub unmarked-set :
    (marks : List ℕ) (i : ℕ)
    → i < length marks
    → marked marks i ≡ false
    → unmarked marks ≡ suc (unmarked (set marks i 1))
unfolding marked unmarked
unmarked-set [] i l h = absurd (omega arith)
unmarked-set (m ∷ marks) zero l h = ground arith
unmarked-set (m ∷ marks) (suc i) l h = ground (arith, unmarked-set marks i)

-- What the loop over some providers does: it marks them, and what it marks anew is pending.
pub record Reached (ps : List ℕ) (c d : Closing) : Type 0 where
  pub same_length : length d.reached ≡ length c.reached
  pub keeps : (v : ℕ) → marked c.reached v ≡ true → marked d.reached v ≡ true
  pub marks : (v : ℕ) → contains ps v ≡ true → marked d.reached v ≡ true
  pub only :
      (v : ℕ) → marked d.reached v ≡ true → (marked c.reached v ≡ true) ⊎ (contains ps v ≡ true)
  pub waits :
      (v : ℕ) → contains d.pending v ≡ true → (contains c.pending v ≡ true) ⊎ (contains ps v ≡ true)
  pub waited : (v : ℕ) → contains c.pending v ≡ true → contains d.pending v ≡ true
  pub renews :
      (v : ℕ) → marked d.reached v ≡ true → contains d.pending v ≡ false → marked c.reached v ≡ true
  pub measure : unmarked d.reached + length d.pending ≡ unmarked c.reached + length c.pending

true_not_false : true ≢ false
true_not_false h = cc

pub no_provider : (c : Closing) → Reached [] c c
no_provider c = record {
  same_length = refl;
  keeps = λ v h. h;
  marks = λ v h. cc;
  only = λ v h. inl h;
  waits = λ v h. inl h;
  waited = λ v h. h;
  renews = λ v h k. h;
  measure = refl;
}

single-contains : (p v : ℕ) → contains (p ∷ []) v ≡ true → p ≡ v
single-contains p v h = ground arith

-- A provider that is marked already.
reach_old :
    (p : ℕ) (c d : Closing)
    → marked c.reached p ≡ true
    → d.reached ≡ c.reached
    → d.pending ≡ c.pending
    → Reached (p ∷ []) c d
reach_old p c d old r q = record {
  same_length = ap length r;
  keeps = λ v h. ap (λ m. marked m v) r ∙ h;
  marks = λ v h.
      ap (λ m. marked m v) r ∙ subst (λ w. marked c.reached w ≡ true) (single-contains p v h) old;
  only = λ v h. inl (sym (ap (λ m. marked m v) r) ∙ h);
  waits = λ v h. inl (sym (ap (λ m. contains m v) q) ∙ h);
  waited = λ v h. ap (λ m. contains m v) q ∙ h;
  renews = λ v h k. sym (ap (λ m. marked m v) r) ∙ h;
  measure = rw (r, q) refl;
}

-- A provider that is new: it is marked and pending.
reach_new :
    (p : ℕ) (c d : Closing)
    → p < length c.reached
    → marked c.reached p ≡ false
    → d.reached ≡ set c.reached p 1
    → d.pending ≡ p ∷ c.pending
    → Reached (p ∷ []) c d
reach_new p c d l new r q =
    let mark : (v : ℕ) → marked d.reached v ≡ (p == v || marked c.reached v) =
      λ v. ap (λ m. marked m v) r ∙ marked-set c.reached p v l in
    let wait : (v : ℕ) → contains d.pending v ≡ (p == v || contains c.pending v) =
      λ v. ap (λ m. contains m v) q in
    record {
      same_length = ap length r ∙ length-set c.reached p 1;
      keeps = λ v h. mark v ∙ ground (arith, h);
      marks = λ v h. mark v ∙ ground (arith, h);
      only = λ v h. ground (arith, h, mark v);
      waits = λ v h. ground (arith, h, wait v);
      waited = λ v h. wait v ∙ ground (arith, h);
      renews = λ v h k. ground (arith, h, k, mark v, wait v);
      measure = rw (r, q) (omega (arith, unmarked-set c.reached p l new));
    }

pub next_provider :
    (p : ℕ) (ps : List ℕ) (c d e : Closing)
    → Reached (p ∷ []) c d
    → Reached ps d e
    → Reached (p ∷ ps) c e
next_provider p ps c d e first rest = record {
  same_length = rest.same_length ∙ first.same_length;
  keeps = λ v h. rest.keeps v (first.keeps v h);
  marks = λ v h. elim (Bool-cases (contains (p ∷ []) v)) [
    | inl here ↦ rest.keeps v (first.marks v here)
    | inr there ↦ rest.marks v (ground (arith, h, there))
  ];
  only = λ v h. elim (rest.only v h) [
    | inl before ↦ elim (first.only v before) [
      | inl old ↦ inl old
      | inr here ↦ inr (ground (arith, here))
    ]
    | inr later ↦ inr (ground (arith, later))
  ];
  waits = λ v h. elim (rest.waits v h) [
    | inl before ↦ elim (first.waits v before) [
      | inl old ↦ inl old
      | inr here ↦ inr (ground (arith, here))
    ]
    | inr later ↦ inr (ground (arith, later))
  ];
  waited = λ v h. rest.waited v (first.waited v h);
  renews = λ v h k. elim (Bool-cases (contains d.pending v)) [
    | inl waiting ↦ absurd (true_not_false (sym (rest.waited v waiting) ∙ k))
    | inr gone ↦ first.renews v (rest.renews v h k) gone
  ];
  measure = rest.measure ∙ first.measure;
}

-- One round of the loop.
abbrev visit_one : ℕ → Closing → Closing
visit_one p c =
    let c' = record c { edge_visits = c.edge_visits + 1 } in
    if marked c.reached p then c' else note_peak (reach p c')

reach_one : (p : ℕ) (c : Closing) → p < length c.reached → Reached (p ∷ []) c (visit_one p c)
unfolding reach
reach_one p c l = elim (Bool-cases (marked c.reached p)) [
  | inl old ↦ rw old (reach_old p c _ old refl refl)
  | inr new ↦ rw new (reach_new p c _ l new refl refl)
]

pub reach_providers-Reached :
    (ps : List ℕ) (c : Closing)
    → ((p : ℕ) → contains ps p ≡ true → p < length c.reached)
    → Reached ps c (reach_providers ps c)
unfolding reach_providers reach
reach_providers-Reached [] c bound = no_provider c
reach_providers-Reached (p ∷ ps) c bound =
    let first = reach_one p c (bound p (ground arith)) in
    next_provider p ps c (visit_one p c) (reach_providers ps (visit_one p c)) first (
      reach_providers-Reached ps (visit_one p c)
        (λ v h. omega (arith, first.same_length, bound v (ground (arith, h)))))

-- A root.
pub reach-Reached : (p : ℕ) (c : Closing) → p < length c.reached → Reached (p ∷ []) c (reach p c)
unfolding reach
reach-Reached p c l = elim (Bool-cases (marked c.reached p)) [
  | inl old ↦ rw (old, reach) (reach_old p c _ old refl refl)
  | inr new ↦ rw (new, reach) (reach_new p c _ l new refl refl)
]
