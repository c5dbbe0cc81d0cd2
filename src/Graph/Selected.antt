-- ===== src/Graph/Selected.antt =====
-- `findCycles` and `analyzeSelectedGraph` of
-- packages/core/src/features/composition-semantics/selected-graph.ts, and graph-diagnostics.ts.
use get_modular.Base.{
  ℕ, ◌+◌, List, [], ◌∷◌, ◌++◌, Option, none, some, Bool, true, false, ◌==◌, number_key, text_key,
  if◌then◌else◌, get_elem?, set, length, ltb, Text, text_lt, sort, contains, map,
}
use get_modular.Base.Outcome.{Outcome, done, thrown, defined, ◌>>=◌}
use get_modular.Graph.Components.{Adjacency, graph_components, zeros}
use get_modular.Graph.Residual.{analyze_residual, selected_graph_depth_limit}
use get_modular.Graph.Closure.{build_adjacency, rank_from, find_root_closure}
use get_modular.Diagnostics.Types.{
  Diagnostic, Stage, cycle, limit_exceeded, nowhere, component, limits, LimitName,
}

-- A component of one vertex is a cycle only when the vertex has an edge to itself.
unfoldable pub is_cycle : Adjacency → List ℕ → Outcome Bool
is_cycle unique members = elim (length members == 1) [
  | false ↦ done true
  | true ↦ do
    vertex ← defined (get_elem? members 0)
    targets ← defined (get_elem? unique vertex)
    done (contains targets vertex)
]

unfoldable pub names_of : List Text → List ℕ → Outcome (List Text)
names_of nodes [] = done []
names_of nodes (member ∷ members) = do
  id ← defined (get_elem? nodes member)
  ids ← names_of nodes members
  done (id ∷ ids)

unfoldable pub mark_all : List ℕ → List ℕ → List ℕ
mark_all marks [] = marks
mark_all marks (vertex ∷ vertices) = mark_all (set marks vertex 1) vertices

-- The marks of the vertices on cycles, and the cycles.
unfoldable pub find_cycles_in :
    List Text → Adjacency → List (List ℕ) → List ℕ → Outcome (List ℕ × List (List Text))
find_cycles_in nodes unique [] cyclic = done (cyclic, [])
find_cycles_in nodes unique (members ∷ components) cyclic = do
  cyclical ← is_cycle unique members
  elim cyclical [
    | false ↦ find_cycles_in nodes unique components cyclic
    | true ↦ do
      ids ← names_of nodes members
      found ← find_cycles_in nodes unique components (mark_all cyclic members)
      done (found.0, ids ∷ found.1)
  ]

pub record Statistics : Type 0 where
  pub selected_nodes : ℕ
  pub valid_edge_occurrences : ℕ
  pub adjacency_edges : ℕ
  pub scc_edge_visits : ℕ
  pub depth_edge_visits : ℕ
  pub closure_edge_visits : ℕ
  pub peak_traversal_frames : ℕ
  pub peak_ready : ℕ
  pub ready_comparisons : ℕ

pub record SelectedGraphAnalysis : Type 0 where
  pub cycles : List (List Text)
  pub dependency_order : Option (List Text)
  pub residual_depth : ℕ
  pub root_closure : List Text
  pub statistics : Statistics

-- `cycles.length ? null : order`
abbrev pub order_unless : List (List Text) → List Text → Option (List Text)
order_unless [] order = some order
order_unless (c ∷ cs) order = none

unfoldable pub analyze_graph :
    List Text → List (Text × Text) → List Text → List (Text × ℕ) → Outcome SelectedGraphAnalysis
analyze_graph nodes edges roots rank = do
  g ← build_adjacency nodes edges rank
  parts ← graph_components g.outgoing g.incoming
  found ← find_cycles_in nodes g.unique parts.members (zeros nodes)
  r ← analyze_residual nodes found.0 g.outgoing g.incoming
  c ← find_root_closure nodes roots rank g.incoming parts.peak_frames
  done (record {
    cycles = found.1;
    dependency_order = order_unless found.1 r.order;
    residual_depth = r.residual_depth;
    root_closure = c.root_closure;
    statistics = record {
      selected_nodes = length nodes;
      valid_edge_occurrences = length edges;
      adjacency_edges = g.adjacency_edges;
      scc_edge_visits = parts.edge_visits;
      depth_edge_visits = r.edge_visits;
      closure_edge_visits = c.edge_visits;
      peak_traversal_frames = c.peak_frames;
      peak_ready = r.ready.peak_size;
      ready_comparisons = r.ready.comparisons;
    };
  })

-- A duplicate node throws.
unfoldable pub analyze_selected_graph :
    List Text → List (Text × Text) → List Text → Outcome SelectedGraphAnalysis
analyze_selected_graph implementation_ids edges roots =
    let nodes = sort text_lt implementation_ids in
    let rank = rank_from nodes 0 [] in
    if length rank == length nodes then analyze_graph nodes edges roots rank else thrown

abbrev pub graph_diagnostic : List Text → Diagnostic
graph_diagnostic ids = record {
  code = cycle;
  phase = Stage.graph;
  path = [];
  coordinate = nowhere;
  details = component ids;
}

-- A depth above the limit, which is reported as one above it.
abbrev pub depth_failures : SelectedGraphAnalysis → List Diagnostic
depth_failures analysis =
    if ltb selected_graph_depth_limit analysis.residual_depth
    then record {
      code = limit_exceeded;
      phase = Stage.graph;
      path = [];
      coordinate = nowhere;
      details =
          limits LimitName.graph_depth selected_graph_depth_limit (selected_graph_depth_limit + 1);
    }
      ∷ []
    else []

unfoldable pub collect_graph_failures : SelectedGraphAnalysis → List Diagnostic
collect_graph_failures analysis = depth_failures analysis ++ map graph_diagnostic analysis.cycles
