-- ===== src/Graph/Reachability.antt =====
-- Reachability, and the loop of `findRootClosure` of
-- packages/core/src/features/composition-semantics/selected-graph.ts.
use get_modular.Base.{
  false_not_true, ℕ, zero, suc, ◌+◌, ◌<◌, List, [], ◌∷◌, some, true, false, ◌≡◌, refl, sym, ap,
  subst, ◌∙◌, arith, inl, inr, ◌==◌, number_key, eqb_iff, get_elem?, get_elem?-some, length,
  contains, Bool-cases, List-cases,
}
use get_modular.Base.Outcome.{done}
use get_modular.Graph.Components.{Adjacency, marked}
use get_modular.Graph.Closure.{Closing, reach_providers, close}
use get_modular.Graph.Marks.{unmarked, reach_providers-Reached}

marked-bound : (marks : List ℕ) (v : ℕ) → marked marks v ≡ true → v < length marks
unfolding marked
marked-bound [] v h = cc
marked-bound (m ∷ marks) zero h = omega arith
marked-bound (m ∷ marks) (suc v) h = omega (arith, marked-bound marks v h)

row-same :
    (incoming : Adjacency) (v w : ℕ) (ps qs : List ℕ)
    → v ≡ w
    → get_elem? incoming v ≡ some ps
    → get_elem? incoming w ≡ some qs
    → ps ≡ qs
row-same incoming v w ps qs e h k = cc

module _ (incoming : Adjacency) (starts : List ℕ) where
  -- A vertex that is reached from the starting vertices by going from consumers to providers.
  pub data Reaches : ℕ → Type 0 where
    start : (v : ℕ) → contains starts v ≡ true → Reaches v
    follow :
        (v p : ℕ) (ps : List ℕ)
        → Reaches v
        → get_elem? incoming v ≡ some ps
        → contains ps p ≡ true
        → Reaches p

  -- All vertices of the adjacency lie in the graph.
  abbrev pub Within : Type 0
  Within =
      (v p : ℕ) (ps : List ℕ)
      → get_elem? incoming v ≡ some ps
      → contains ps p ≡ true
      → p < length incoming

  -- The state of the closure between two rounds.
  pub record Closes (c : Closing) : Type 0 where
    pub sized : length c.reached ≡ length incoming
    pub started : (v : ℕ) → contains starts v ≡ true → marked c.reached v ≡ true
    pub sound : (v : ℕ) → marked c.reached v ≡ true → Reaches v
    pub waits : (v : ℕ) → contains c.pending v ≡ true → marked c.reached v ≡ true
    pub closed :
        (v p : ℕ) (ps : List ℕ)
        → marked c.reached v ≡ true
        → contains c.pending v ≡ false
        → get_elem? incoming v ≡ some ps
        → contains ps p ≡ true
        → marked c.reached p ≡ true

  -- One round: the providers of the vertex on top are reached.
  round-Closes :
      (c : Closing) (node : ℕ) (rest ps : List ℕ)
      → Within
      → c.pending ≡ node ∷ rest
      → get_elem? incoming node ≡ some ps
      → Closes c
      → Closes (reach_providers ps (record c { pending = rest }))
  round-Closes c node rest ps within top row h =
      let reached =
        reach_providers-Reached ps (record c { pending = rest })
          (λ p k. omega (arith, within node p ps row k, h.sized)) in
      record {
        sized = reached.same_length ∙ h.sized;
        started = λ v k. reached.keeps v (h.started v k);
        sound = λ v k. elim (reached.only v k) [
          | inl old ↦ h.sound v old
          | inr provider ↦
              follow node v ps (h.sound node (h.waits node (rw top (ground arith)))) row provider
        ];
        waits = λ v k. elim (reached.waits v k) [
          | inl old ↦ reached.keeps v (h.waits v (rw top (ground (arith, old))))
          | inr provider ↦ reached.marks v provider
        ];
        closed = λ v p qs k gone row' member. elim (Bool-cases (node == v)) [
          | inl here ↦ reached.marks p (
              subst (λ l. contains l p ≡ true)
                (sym (row-same incoming node v ps qs ((eqb_iff node v).0 here) row row')) member)
          | inr elsewhere ↦ elim (Bool-cases (contains rest v)) [
            | inl waiting ↦ absurd (false_not_true (sym gone ∙ reached.waited v waiting))
            | inr settled ↦ reached.keeps p (
                h.closed v p qs (reached.renews v k gone)
                  (rw top (ground (arith, elsewhere, settled))) row' member)
          ]
        ];
      }

  close_round :
      (fuel : ℕ) (c : Closing) (node : ℕ) (rest ps : List ℕ)
      → c.pending ≡ node ∷ rest
      → get_elem? incoming node ≡ some ps
      → close incoming (suc fuel) c
        ≡ close incoming fuel (reach_providers ps (record c { pending = rest }))
  unfolding close
  close_round fuel c node rest ps top row = rw (top, close) (rw row refl)

  -- The loop ends with the fuel above the number of vertices that are pending or not marked.
  pub close-Closes :
      (fuel : ℕ) (c : Closing)
      → Within
      → Closes c
      → unmarked c.reached + length c.pending < fuel
      → (d : Closing) × (close incoming fuel c ≡ done d) × (d.pending ≡ []) × Closes d
  unfolding close
  close-Closes zero c within h l = absurd (omega arith)
  close-Closes (suc fuel) c within h l = elim (List-cases c.pending) [
    | inl empty ↦ (c, simp (empty, close) refl, empty, h)
    | inr (node, rest, top) ↦
        let in_graph = marked-bound c.reached node (h.waits node (rw top (ground arith))) in
        let (ps, row) = get_elem?-some incoming node (omega (arith, in_graph, h.sized)) in
        let reached =
          reach_providers-Reached ps (record c { pending = rest })
            (λ p k. omega (arith, within node p ps row k, h.sized)) in
        let popped : length c.pending ≡ suc (length rest) = ap length top in
        rw (close_round fuel c node rest ps top row) (
          close-Closes fuel (reach_providers ps (record c { pending = rest })) within
            (round-Closes c node rest ps within top row h)
            (omega (arith, l, popped, reached.measure)))
  ]

  -- When nothing is pending, all that is reached is marked.
  pub Closes-complete :
      (c : Closing) (v : ℕ) → Closes c → c.pending ≡ [] → Reaches v → marked c.reached v ≡ true
  Closes-complete c v h empty (start _ root) = h.started v root
  Closes-complete c v h empty (follow w _ ps before row member) =
      h.closed w v ps (Closes-complete c w h empty before) (ap (λ l. contains l w) empty) row member
