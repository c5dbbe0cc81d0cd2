-- ===== src/Graph/Examples.antt =====
-- The root closure at a concrete graph
-- (packages/core/src/features/composition-semantics/selected-graph.ts).
use get_modular.Base.{
  ℕ, zero, suc, ◌<◌, List, [], ◌∷◌, true, ◌≡◌, refl, arith, number_key, contains, Text,
}
use get_modular.Base.Outcome.{done}
use get_modular.Graph.Components.{Adjacency}
use get_modular.Graph.Closure.{Rank, RootClosure, find_root_closure}
use get_modular.Graph.Reachability.{Reaches, Within}
use get_modular.Graph.RootClosure.{no_more, one_more, Keeps, find_root_closure_lem}

-- A provider, its consumer, which is the root, and a node apart.
abbrev three_nodes : List Text
three_nodes = (b'P' ∷ []) ∷ (b'Q' ∷ []) ∷ (b'R' ∷ []) ∷ []

abbrev three_ranks : Rank
three_ranks = (b'P' ∷ [], 0) ∷ (b'Q' ∷ [], 1) ∷ (b'R' ∷ [], 2) ∷ []

abbrev three_incoming : Adjacency
three_incoming = [] ∷ (0 ∷ []) ∷ [] ∷ []

three_within : Within three_incoming (1 ∷ [])
three_within zero p ps row member = cc
three_within (suc zero) p ps row member = ground (arith, row, member)
three_within (suc (suc zero)) p ps row member = cc
three_within (suc (suc (suc v))) p ps row member = cc

root_below : (v : ℕ) → contains (1 ∷ []) v ≡ true → v < 3
root_below v h = ground (arith, h)

find_root_closure_lem_example :
    (r : RootClosure) × (find_root_closure three_nodes
        ((b'Q' ∷ []) ∷ [])
        three_ranks
        three_incoming
        0
      ≡ done r)
    × Keeps (Reaches three_incoming (1 ∷ [])) 0 three_nodes r.root_closure
find_root_closure_lem_example =
    find_root_closure_lem three_nodes ((b'Q' ∷ []) ∷ []) (1 ∷ []) three_ranks three_incoming 0 refl
      three_within (one_more (b'Q' ∷ []) [] 1 [] refl no_more) root_below
