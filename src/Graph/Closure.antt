-- ===== src/Graph/Closure.antt =====
-- `buildAdjacency` and `findRootClosure` of
-- packages/core/src/features/composition-semantics/selected-graph.ts.
use get_modular.Base.{
  ℕ, zero, suc, ◌+◌, List, [], ◌∷◌, ◌++◌, true, false, number_key, text_key, if◌then◌else◌,
  get_elem?, set, length, max, Text, lookup, insert, contains, add,
}
use get_modular.Base.Outcome.{Outcome, done, out_of_fuel, defined, ◌>>=◌}
use get_modular.Graph.Components.{Adjacency, zeros, marked, rounds}

abbrev pub Rank : Type 0
Rank = List (Text × ℕ)

-- `new Map(nodes.map((id, index) => [id, index]))`
unfoldable pub rank_from : List Text → ℕ → Rank → Rank
rank_from [] index rank = rank
rank_from (id ∷ ids) index rank = rank_from ids (index + 1) (insert id index rank)

-- An unresolved identity throws.
unfoldable pub vertex_of : Rank → Text → Outcome ℕ
vertex_of rank id = defined (lookup id rank)

pub record GraphEdges : Type 0 where
  pub outgoing : Adjacency
  pub incoming : Adjacency
  pub unique : Adjacency
  pub adjacency_edges : ℕ

unfoldable pub empty_rows {ℓ} : {A : Type ℓ} → List A → Adjacency
empty_rows [] = []
empty_rows (x ∷ xs) = [] ∷ empty_rows xs

-- An edge that is there already is passed over.
unfoldable pub add_edge : ℕ → ℕ → GraphEdges → Outcome GraphEdges
add_edge provider consumer g = do
  known ← defined (get_elem? g.unique provider)
  elim (contains known consumer) [
    | true ↦ done g
    | false ↦ do
      out ← defined (get_elem? g.outgoing provider)
      into ← defined (get_elem? g.incoming consumer)
      done (record {
        unique = set g.unique provider (add consumer known);
        outgoing = set g.outgoing provider (out ++ consumer ∷ []);
        incoming = set g.incoming consumer (into ++ provider ∷ []);
        adjacency_edges = g.adjacency_edges + 1;
      })
  ]

-- Edges are pairs of a provider and a consumer.
unfoldable pub add_edges : Rank → List (Text × Text) → GraphEdges → Outcome GraphEdges
add_edges rank [] g = done g
add_edges rank ((provider_id, consumer_id) ∷ edges) g = do
  provider ← vertex_of rank provider_id
  consumer ← vertex_of rank consumer_id
  g' ← add_edge provider consumer g
  add_edges rank edges g'

unfoldable pub build_adjacency : List Text → List (Text × Text) → Rank → Outcome GraphEdges
build_adjacency nodes edges rank = add_edges rank edges (record {
  outgoing = empty_rows nodes;
  incoming = empty_rows nodes;
  unique = empty_rows nodes;
  adjacency_edges = 0;
})

pub record Closing : Type 0 where
  pub reached : List ℕ
  pub pending : List ℕ
  pub edge_visits : ℕ
  pub peak_frames : ℕ

unfoldable pub reach : ℕ → Closing → Closing
reach node c =
    if marked c.reached node
    then c
    else record c { reached = set c.reached node 1; pending = node ∷ c.pending }

unfoldable pub reach_roots : Rank → List Text → Closing → Outcome Closing
reach_roots rank [] c = done c
reach_roots rank (id ∷ ids) c = do node ← vertex_of rank id; reach_roots rank ids (reach node c)

abbrev pub note_peak : Closing → Closing
note_peak c = record c { peak_frames = max c.peak_frames (length c.pending) }

-- The `for` loop over the providers of a node. The peak only grows when a provider is new.
unfoldable pub reach_providers : List ℕ → Closing → Closing
reach_providers [] c = c
reach_providers (provider ∷ providers) c =
    let c' = record c { edge_visits = c.edge_visits + 1 } in
    reach_providers providers
      (if marked c.reached provider then c' else note_peak (reach provider c'))

-- Each round closes a node that was reached once.
unfoldable pub close : Adjacency → ℕ → Closing → Outcome Closing
close incoming zero c = out_of_fuel
close incoming (suc fuel) c = elim c.pending [
  | [] ↦ done c
  | node ∷ rest ↦ do
    providers ← defined (get_elem? incoming node)
    close incoming fuel (reach_providers providers (record c { pending = rest }))
]

-- `nodes.filter((_node, index) => reached[index] === 1)`, from an index on.
unfoldable pub reached_nodes : List ℕ → List Text → ℕ → List Text
reached_nodes reached [] index = []
reached_nodes reached (id ∷ ids) index =
    let rest = reached_nodes reached ids (index + 1) in
    if marked reached index then id ∷ rest else rest

pub record RootClosure : Type 0 where
  pub root_closure : List Text
  pub edge_visits : ℕ
  pub peak_frames : ℕ

unfoldable pub find_root_closure :
    List Text → List Text → Rank → Adjacency → ℕ → Outcome RootClosure
find_root_closure nodes roots rank incoming initial_peak = do
  start ←
      reach_roots rank roots (record {
        reached = zeros nodes;
        pending = [];
        edge_visits = 0;
        peak_frames = initial_peak;
      })
  c ← close incoming (rounds incoming) (note_peak start)
  done (record {
    root_closure = reached_nodes c.reached nodes 0;
    edge_visits = c.edge_visits;
    peak_frames = c.peak_frames;
  })
