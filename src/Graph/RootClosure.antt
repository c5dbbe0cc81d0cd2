-- ===== src/Graph/RootClosure.antt =====
-- `findRootClosure` of packages/core/src/features/composition-semantics/selected-graph.ts on a graph
-- whose roots are resolved.
use get_modular.Base.{
  false_not_true, ℕ, zero, suc, ◌+◌, ◌<◌, List, [], ◌∷◌, some, true, false, ◌≡◌, ◌≢◌, refl, sym,
  ◌∙◌, arith, inl, inr, ◌↔◌, number_key, text_key, lookup, length, contains, Text, Bool-cases,
}
use get_modular.Base.Outcome.{done}
use get_modular.Graph.Components.{Adjacency, marked, zeros, rounds}
use get_modular.Graph.Closure.{
  Rank, Closing, RootClosure, vertex_of, reach, reach_roots, note_peak, reached_nodes,
  find_root_closure,
}
use get_modular.Graph.Marks.{unmarked, Reached, reach-Reached, no_provider, next_provider}
use get_modular.Graph.Reachability.{Reaches, start, Within, Closes, close-Closes, Closes-complete}

-- The vertices of some identities.
pub data Resolves (rank : Rank) : List Text → List ℕ → Type 0 where
  no_more : Resolves rank [] []
  one_more :
      (id : Text) (ids : List Text) (v : ℕ) (vs : List ℕ)
      → lookup id rank ≡ some v
      → Resolves rank ids vs
      → Resolves rank (id ∷ ids) (v ∷ vs)

-- The second list has those elements of the first, in order, whose index has the property.
pub data Keeps (P : ℕ → Type 0) : ℕ → List Text → List Text → Type 0 where
  ended : {index : ℕ} → Keeps P index [] []
  kept :
      {index : ℕ} {id : Text} {ids rest : List Text}
      → P index
      → Keeps P (index + 1) ids rest
      → Keeps P index (id ∷ ids) (id ∷ rest)
  left_out :
      {index : ℕ} {id : Text} {ids rest : List Text}
      → ¬ P index
      → Keeps P (index + 1) ids rest
      → Keeps P index (id ∷ ids) rest

reached_nodes-Keeps :
    (P : ℕ → Type 0) (marks : List ℕ) (nodes : List Text) (index : ℕ)
    → ((v : ℕ) → (marked marks v ≡ true) ↔ P v)
    → Keeps P index nodes (reached_nodes marks nodes index)
unfolding reached_nodes
reached_nodes-Keeps P marks [] index exact = ended
reached_nodes-Keeps P marks (id ∷ ids) index exact =
    let rest = reached_nodes-Keeps P marks ids (index + 1) exact in
    elim (Bool-cases (marked marks index)) [
      | inl there ↦ rw there (kept ((exact index).0 there) rest)
      | inr absent ↦
          rw absent (left_out (λ p. false_not_true (sym absent ∙ (exact index).1 p)) rest)
    ]

reach_roots-Reached :
    (rank : Rank) (ids : List Text) (vs : List ℕ) (c : Closing)
    → Resolves rank ids vs
    → ((v : ℕ) → contains vs v ≡ true → v < length c.reached)
    → (d : Closing) × (reach_roots rank ids c ≡ done d) × Reached vs c d
unfolding reach_roots vertex_of
reach_roots-Reached rank [] [] c no_more bound = (c, refl, no_provider c)
reach_roots-Reached rank [] (v ∷ vs) c none_left bound = elim none_left [ ]
reach_roots-Reached rank (id ∷ ids) [] c none_left bound = elim none_left [ ]
reach_roots-Reached rank (id ∷ ids) (v ∷ vs) c (one_more _ _ _ _ known rest) bound =
    let first = reach-Reached v c (bound v (ground arith)) in
    let (d, e, later) =
      reach_roots-Reached rank ids vs (reach v c) rest
        (λ w h. omega (arith, first.same_length, bound w (ground (arith, h)))) in
    (d, rw (known, reach_roots) e, next_provider v vs c (reach v c) d first later)

unmarked-zeros {ℓ} : {A : Type ℓ} (xs : List A) → unmarked (zeros xs) ≡ length xs
unfolding unmarked zeros
unmarked-zeros [] = refl
unmarked-zeros (x ∷ xs) = ground (arith, unmarked-zeros xs)

length-zeros {ℓ} : {A : Type ℓ} (xs : List A) → length (zeros xs) ≡ length xs
unfolding zeros
length-zeros [] = refl
length-zeros (x ∷ xs) = omega (arith, length-zeros xs)

marked-zeros {ℓ} : {A : Type ℓ} (xs : List A) (v : ℕ) → marked (zeros xs) v ≡ false
unfolding marked zeros
marked-zeros [] v = refl
marked-zeros (x ∷ xs) zero = ground arith
marked-zeros (x ∷ xs) (suc v) = marked-zeros xs v

length-rounds : (graph : Adjacency) → length graph < rounds graph
unfolding rounds
length-rounds [] = omega arith
length-rounds (row ∷ graph) = omega (arith, length-rounds graph)

abbrev nothing_reached : List Text → ℕ → Closing
nothing_reached nodes peak = record {
  reached = zeros nodes;
  pending = [];
  edge_visits = 0;
  peak_frames = peak;
}

start-Closes :
    (incoming : Adjacency) (nodes : List Text) (vs : List ℕ) (peak : ℕ) (d : Closing)
    → length incoming ≡ length nodes
    → Reached vs (nothing_reached nodes peak) d
    → Closes incoming vs (note_peak d)
start-Closes incoming nodes vs peak d sized reached =
    let clean : (v : ℕ) → marked (zeros nodes) v ≢ true =
      λ v h. false_not_true (sym (marked-zeros nodes v) ∙ h) in
    record {
      sized = reached.same_length ∙ length-zeros nodes ∙ sym sized;
      started = reached.marks;
      sound = λ v h. elim (reached.only v h) [
        | inl old ↦ absurd (clean v old)
        | inr root ↦ start v root
      ];
      waits = λ v h. elim (reached.waits v h) [
        | inl old ↦ absurd (false_not_true old)
        | inr root ↦ reached.marks v root
      ];
      closed = λ v p ps h gone row member. absurd (clean v (reached.renews v h gone));
    }

-- On a graph whose edges and resolved roots lie within the nodes, `findRootClosure` returns, and it
-- returns exactly the nodes that the roots reach, going from consumers to providers, in their order.
pub find_root_closure_lem :
    (nodes roots : List Text) (vs : List ℕ) (rank : Rank) (incoming : Adjacency) (peak : ℕ)
    → length incoming ≡ length nodes
    → Within incoming vs
    → Resolves rank roots vs
    → ((v : ℕ) → contains vs v ≡ true → v < length nodes)
    → (r : RootClosure) × (find_root_closure nodes roots rank incoming peak ≡ done r)
      × Keeps (Reaches incoming vs) 0 nodes r.root_closure
unfolding find_root_closure
find_root_closure_lem nodes roots vs rank incoming peak sized within resolved bound =
    let begin = nothing_reached nodes peak in
    let (d, e, reached) =
      reach_roots-Reached rank roots vs begin resolved
        (λ v h. omega (arith, bound v h, length-zeros nodes)) in
    let enough : unmarked d.reached + length d.pending < rounds incoming =
      omega (arith, reached.measure, unmarked-zeros nodes, length-rounds incoming, sized) in
    let (f, e', empty, final) =
      close-Closes incoming vs (rounds incoming) (note_peak d) within
        (start-Closes incoming nodes vs peak d sized reached) enough in
    (
      record {
        root_closure = reached_nodes f.reached nodes 0;
        edge_visits = f.edge_visits;
        peak_frames = f.peak_frames;
      },
      rw (e, find_root_closure) (rw e' refl),
      reached_nodes-Keeps (Reaches incoming vs) f.reached nodes 0
          (λ v. (final.sound v, Closes-complete incoming vs f v final empty)),
    )
