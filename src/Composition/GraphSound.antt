-- ===== src/Composition/GraphSound.antt =====
-- What an unreported selected graph satisfies
-- (packages/core/src/features/composition-semantics/semantic-analysis.ts: `buildGraph`).
use get_modular.Base.{
  ℕ, ◌≤◌, List, [], ◌++◌, Option, none, some, Bool, true, false, ◌≡◌, refl, ap, subst, ◌∙◌, arith,
  map, append-empty, map-empty,
}
use get_modular.Base.Outcome.{done, bind_done}
use get_modular.Composition.Declarations.{DeclaredImplementation}
use get_modular.Composition.Profiles.{ProfileCensus}
use get_modular.Composition.Bindings.{SelectedBindings}
use get_modular.Graph.Selected.{
  SelectedGraphAnalysis, analyze_selected_graph, collect_graph_failures, graph_diagnostic,
  depth_failures,
}
use get_modular.Graph.Residual.{selected_graph_depth_limit}
use get_modular.Diagnostics.Types.{Diagnostic}
use get_modular.Composition.Analysis.{
  provider_edges, roots_or_none, reachability_diagnostics, analyze_nodes, build_with,
}

-- A selected graph without faults: it has no cycle, its depth is within the limit, its vertices are all
-- ordered, and nothing is reported on what the roots reach.
pub record Sound (selected : ProfileCensus) (bindings : SelectedBindings)
    (nodes : List DeclaredImplementation) (graph : SelectedGraphAnalysis) : Type 0 where
  pub analyzed :
      analyze_selected_graph selected.selected_implementation_ids
        (provider_edges bindings.valid_bindings)
        (roots_or_none selected.resolved_roots)
      ≡ done graph
  pub acyclic : graph.cycles ≡ []
  pub shallow : graph.residual_depth ≤ selected_graph_depth_limit
  pub reachable : reachability_diagnostics selected bindings nodes graph ≡ []

collect_graph_failures-empty :
    (g : SelectedGraphAnalysis)
    → collect_graph_failures g ≡ []
    → (g.cycles ≡ []) × (g.residual_depth ≤ selected_graph_depth_limit)
unfolding collect_graph_failures
collect_graph_failures-empty g h =
    let (deep, cyclic) = append-empty (depth_failures g) (map graph_diagnostic g.cycles) h in
    (map-empty graph_diagnostic g.cycles cyclic, ground (arith, deep))

-- A built graph is sound when nothing is reported on it.
analyze_nodes-done :
    (selected : ProfileCensus) (bindings : SelectedBindings) (nodes : List DeclaredImplementation)
    (graph : SelectedGraphAnalysis)
    → analyze_nodes selected bindings nodes ≡ done (some graph, [])
    → Sound selected bindings nodes graph
unfolding analyze_nodes
analyze_nodes-done selected bindings nodes graph h =
    let reported : SelectedGraphAnalysis → List Diagnostic =
      λ g. collect_graph_failures g ++ reachability_diagnostics selected bindings nodes g in
    let (g, e, k) =
      bind_done
        (analyze_selected_graph selected.selected_implementation_ids
          (provider_edges bindings.valid_bindings) (roots_or_none selected.resolved_roots))
        (λ g. done (some g, reported g)) h in
    let same : g ≡ graph = cc in
    let silent : reported g ≡ [] = cc in
    let (failures, reachable) =
      append-empty (collect_graph_failures graph)
        (reachability_diagnostics selected bindings nodes graph)
        (subst (λ g. reported g ≡ []) same silent) in
    let (acyclic, shallow) = collect_graph_failures-empty graph failures in
    record {
      analyzed = e ∙ ap done same;
      acyclic = acyclic;
      shallow = shallow;
      reachable = reachable;
    }

pub build_with-done :
    (selected : ProfileCensus) (bindings : SelectedBindings)
    (resolved : Option (List DeclaredImplementation)) (edges : Option ℕ) (exceeded : Bool)
    (graph : SelectedGraphAnalysis)
    → build_with selected bindings resolved edges exceeded ≡ done (some graph, [])
    → (nodes : List DeclaredImplementation) × (resolved ≡ some nodes)
      × Sound selected bindings nodes graph
unfolding build_with
build_with-done selected bindings (some nodes) (some edges) false graph h =
    (nodes, refl, analyze_nodes-done selected bindings nodes graph h)
build_with-done selected bindings (some nodes) (some edges) true graph h = cc
build_with-done selected bindings (some nodes) none exceeded graph h = cc
build_with-done selected bindings none edges exceeded graph h = cc
