-- ===== src/Graph/Residual.antt =====
-- `analyzeResidual` of packages/core/src/features/composition-semantics/selected-graph.ts: an order of
-- the acyclic rest of the graph, and its depth.
use get_modular.Base.{
  ℕ, zero, suc, ◌+◌, ◌-◌, ◌%◌, ◌^◌, List, [], ◌∷◌, ◌++◌, true, false, ◌==◌, number_key,
  if◌then◌else◌, get_elem?, set, length, max, min, Text,
}
use get_modular.Base.Outcome.{Outcome, done, thrown, out_of_fuel, defined, ◌>>=◌}
use get_modular.Graph.Queue.{ReadyQueue, new_queue, push, take}
use get_modular.Graph.Components.{Adjacency, zeros, marked}

abbrev pub selected_graph_depth_limit : ℕ
selected_graph_depth_limit = 2048

-- A decrement in a `Uint32Array`.
abbrev pub decrement : ℕ → ℕ
decrement n = (n + (2 ^ 32 - 1)) % 2 ^ 32

pub record Residual : Type 0 where
  pub indegree : List ℕ
  pub depth : List ℕ
  pub ready : ReadyQueue
  pub edge_visits : ℕ
  pub size : ℕ
  pub order : List Text
  pub residual_depth : ℕ

-- The providers of a node: those off the cycles count for its indegree.
unfoldable pub count_providers : List ℕ → ℕ → List ℕ → Residual → Outcome Residual
count_providers cyclic node [] r = done r
count_providers cyclic node (provider ∷ providers) r =
    let r' = record r { edge_visits = r.edge_visits + 1 } in
    elim (marked cyclic provider) [
      | true ↦ count_providers cyclic node providers r'
      | false ↦ do
        degree ← defined (get_elem? r.indegree node)
        count_providers cyclic node providers
            (record r' { indegree = set r.indegree node (degree + 1) })
    ]

-- A node without a provider left is ready.
unfoldable pub push_ready : ℕ → Residual → Outcome Residual
push_ready node r = do
  degree ← defined (get_elem? r.indegree node)
  elim (degree == 0) [
    | false ↦ done r
    | true ↦ do ready ← push r.ready node; done (record r { ready = ready })
  ]

unfoldable pub census_node : List ℕ → Adjacency → ℕ → Residual → Outcome Residual
census_node cyclic incoming node r = elim (marked cyclic node) [
  | true ↦ done r
  | false ↦ do
    providers ← defined (get_elem? incoming node)
    counted ←
        count_providers cyclic node providers
          (record r { size = r.size + 1; depth = set r.depth node 1 })
    push_ready node counted
]

unfoldable pub census_nodes : List ℕ → Adjacency → List Text → ℕ → Residual → Outcome Residual
census_nodes cyclic incoming [] node r = done r
census_nodes cyclic incoming (_ ∷ nodes) node r =
    census_node cyclic incoming node r >>= census_nodes cyclic incoming nodes (node + 1)

-- A consumer lies one deeper than the node, up to one above the limit, and waits for one less.
unfoldable pub settle_consumer : ℕ → ℕ → Residual → Outcome Residual
settle_consumer node consumer r = do
  deep ← defined (get_elem? r.depth consumer)
  above ← defined (get_elem? r.depth node)
  degree ← defined (get_elem? r.indegree consumer)
  push_ready consumer (record r {
    depth = set r.depth consumer (min (selected_graph_depth_limit + 1) (max deep (above + 1)));
    indegree = set r.indegree consumer (decrement degree);
  })

unfoldable pub settle_consumers : List ℕ → ℕ → List ℕ → Residual → Outcome Residual
settle_consumers cyclic node [] r = done r
settle_consumers cyclic node (consumer ∷ consumers) r =
    let r' = record r { edge_visits = r.edge_visits + 1 } in
    elim (marked cyclic consumer) [
      | true ↦ settle_consumers cyclic node consumers r'
      | false ↦ settle_consumer node consumer r' >>= settle_consumers cyclic node consumers
    ]

unfoldable pub take_node :
    List Text → List ℕ → Adjacency → ReadyQueue → ℕ → Residual → Outcome Residual
take_node nodes cyclic outgoing ready node r = do
  id ← defined (get_elem? nodes node)
  deep ← defined (get_elem? r.depth node)
  consumers ← defined (get_elem? outgoing node)
  settle_consumers cyclic node consumers (record r {
    ready = ready;
    order = r.order ++ id ∷ [];
    residual_depth = max r.residual_depth deep;
  })

-- The `while` loop. Each node is ready once, so a round for each and one more are enough.
unfoldable pub drain_ready : List Text → List ℕ → Adjacency → ℕ → Residual → Outcome Residual
drain_ready nodes cyclic outgoing zero r = out_of_fuel
drain_ready nodes cyclic outgoing (suc fuel) r = elim (length r.ready.items) [
  | zero ↦ done r
  | suc _ ↦ do
    taken ← take r.ready
    r' ← take_node nodes cyclic outgoing taken.0 taken.1 r
    drain_ready nodes cyclic outgoing fuel r'
]

-- An order that misses a node is an internal error.
unfoldable pub complete_order : Residual → Outcome Residual
complete_order r = if length r.order == r.size then done r else thrown

unfoldable pub analyze_residual : List Text → List ℕ → Adjacency → Adjacency → Outcome Residual
analyze_residual nodes cyclic outgoing incoming = do
  start ← census_nodes cyclic incoming nodes 0 (record {
    indegree = zeros nodes;
    depth = zeros nodes;
    ready = new_queue;
    edge_visits = 0;
    size = 0;
    order = [];
    residual_depth = 0;
  })
  r ← drain_ready nodes cyclic outgoing (suc (length nodes)) start
  complete_order r
