-- ===== src/Composition/Analysis.antt =====
-- packages/core/src/features/composition-semantics/semantic-analysis.ts, and `SemanticInput` and
-- `SemanticResult` of ports.ts. The collector is threaded through.
use get_modular.Base.{
  ℕ, List, [], ◌∷◌, ◌++◌, Option, none, some, Bool, true, false, not, ◌&&◌, ◌||◌, if◌then◌else◌,
  Text, text_key, text_lt, sort, contains, map,
}
use get_modular.Base.Outcome.{Outcome, done, thrown, ◌>>=◌}
use get_modular.Composition.Wire.{
  CompositionProfile, ModuleDeclaration, CompositionPlan, PlanBinding, Selection,
}
use get_modular.Composition.Declarations.{
  DeclarationCensus, DeclaredImplementation, create_declaration_census, declaration_diagnostics,
}
use get_modular.Composition.Profiles.{ProfileCensus, create_profile_census, profile_diagnostics}
use get_modular.Composition.Bindings.{
  SelectedBindings, ResolvedBinding, validate_selected_bindings, validation_context,
  frontier_complete,
}
use get_modular.Composition.Resources.{
  ProfileResourceObservations, GraphResourceResult, collect_graph_resource_limits,
}
use get_modular.Graph.Selected.{
  SelectedGraphAnalysis, analyze_selected_graph, collect_graph_failures,
}
use get_modular.Diagnostics.Types.{
  Diagnostic, Details, Stage, unreachable_selection, nowhere, reason, Reason,
}
use get_modular.Diagnostics.Collector.{Collector, add_each, finish}

pub record SemanticInput : Type 0 where
  pub declarations : List ModuleDeclaration
  pub all_declarations_admitted : Bool
  pub profile : Option CompositionProfile
  pub profile_resources : Option ProfileResourceObservations
  pub has_errors : Bool

pub data SemanticResult : Type 0 where
  accepted : CompositionPlan → SemanticResult
  rejected : List Diagnostic → SemanticResult

unfoldable pub provider_edges : List ResolvedBinding → List (Text × Text)
provider_edges [] = []
provider_edges (r ∷ rs) =
    map (λ id. (id, r.binding.consumer_implementation_id)) r.binding.provider_implementation_ids
    ++ provider_edges rs

unfoldable pub all_complete : SelectedBindings → List Text → Bool
all_complete bindings [] = true
all_complete bindings (id ∷ ids) = frontier_complete bindings id && all_complete bindings ids

abbrev unreachable_diagnostic : ModuleDeclaration → Diagnostic
unreachable_diagnostic d = record {
  code = unreachable_selection;
  phase = Stage.graph;
  path = [];
  coordinate = record nowhere {
    module_id = some d.module_id;
    implementation_id = some d.implementation_id;
  };
  details = reason Reason.unreachable;
}

unfoldable pub unreached : List Text → List DeclaredImplementation → List Diagnostic
unreached reached [] = []
unreached reached (node ∷ nodes) =
    let rest = unreached reached nodes in
    if contains reached node.declaration.implementation_id
    then rest
    else unreachable_diagnostic node.declaration ∷ rest

-- `resolvedRoots ?? []`
abbrev pub roots_or_none : Option (List Text) → List Text
roots_or_none none = []
roots_or_none (some ids) = ids

-- What is reported on selections that no root reaches.
unfoldable pub reachability_diagnostics :
    ProfileCensus
    → SelectedBindings
    → List DeclaredImplementation
    → SelectedGraphAnalysis
    → List Diagnostic
reachability_diagnostics selected bindings nodes graph = elim selected.resolved_roots [
  | none ↦ []
  | some _ ↦
      if all_complete bindings graph.root_closure then unreached graph.root_closure nodes else []
]

abbrev pub Graph : Type 0
Graph = Option SelectedGraphAnalysis

unfoldable pub analyze_nodes :
    ProfileCensus
    → SelectedBindings
    → List DeclaredImplementation
    → Outcome (Graph × List Diagnostic)
analyze_nodes selected bindings nodes = do
  graph ←
      analyze_selected_graph selected.selected_implementation_ids
        (provider_edges bindings.valid_bindings) (roots_or_none selected.resolved_roots)
  done (
    some graph,
    collect_graph_failures graph ++ reachability_diagnostics selected bindings nodes graph,
  )

abbrev no_graph : Outcome (Graph × List Diagnostic)
no_graph = done (none, [])

-- The graph is analyzed when the nodes are resolved and the edges are counted and within the limit.
unfoldable pub build_with :
    ProfileCensus
    → SelectedBindings
    → Option (List DeclaredImplementation)
    → Option ℕ
    → Bool
    → Outcome (Graph × List Diagnostic)
build_with selected bindings (some nodes) (some edges) false = analyze_nodes selected bindings nodes
build_with selected bindings _ _ _ = no_graph

unfoldable pub build_graph :
    ProfileCensus → SelectedBindings → GraphResourceResult → Outcome (Graph × List Diagnostic)
build_graph selected bindings resources =
    build_with selected bindings selected.resolved_nodes resources.counted_input_edges
      resources.edge_limit_exceeded

unfoldable pub selection_lt : Selection → Selection → Bool
selection_lt a b = text_lt a.module_id b.module_id

abbrev pub plan_binding : ResolvedBinding → PlanBinding
plan_binding r = record {
  consumer_implementation_id = r.binding.consumer_implementation_id;
  slot_id = r.binding.slot_id;
  provider_implementation_ids = r.binding.provider_implementation_ids;
  capability_id = r.slot.capability_id;
  compatibility = r.slot.compatibility;
}

unfoldable pub create_plan : CompositionProfile → SelectedBindings → List Text → CompositionPlan
create_plan p bindings order = record {
  profile_id = p.profile_id;
  roots = sort text_lt p.roots;
  selections = sort selection_lt p.selections;
  bindings = map plan_binding bindings.valid_bindings;
  dependency_order = order;
}

-- What the analysis has when the collector is finished. The profile's parts are absent together.
pub record AnalysisState : Type 0 where
  pub input : SemanticInput
  pub declared : DeclarationCensus
  pub profiled : Option (CompositionProfile × ProfileCensus × SelectedBindings)
  pub graph : Graph

abbrev pub failed_census :
    SemanticInput → DeclarationCensus → ProfileCensus → SelectedBindings → Bool
failed_census input declared selected bindings =
    input.has_errors
    || not input.all_declarations_admitted
    || declared.has_errors
    || selected.has_errors
    || bindings.has_errors

-- `assertPrerequisites`, then `createPlan`: first with the profile's parts, the roots and the order.
unfoldable pub plan_with :
    SemanticInput
    → DeclarationCensus
    → CompositionProfile
    → ProfileCensus
    → SelectedBindings
    → Option (List Text)
    → Option (List Text)
    → Outcome CompositionPlan
plan_with input declared p selected bindings (some roots) (some order) =
    if failed_census input declared selected bindings
    then thrown
    else done (create_plan p bindings order)
plan_with input declared p selected bindings _ _ = thrown

unfoldable pub plan_from :
    SemanticInput
    → DeclarationCensus
    → Option (CompositionProfile × ProfileCensus × SelectedBindings)
    → Graph
    → Outcome CompositionPlan
plan_from input declared (some (p, selected, bindings)) (some graph) =
    plan_with input declared p selected bindings selected.resolved_roots graph.dependency_order
plan_from input declared _ _ = thrown

unfoldable pub plan_of : AnalysisState → Outcome CompositionPlan
plan_of state = plan_from state.input state.declared state.profiled state.graph

unfoldable pub result_of : AnalysisState → List Diagnostic → Outcome SemanticResult
result_of state (d ∷ ds) = done (rejected (d ∷ ds))
result_of state [] = do plan ← plan_of state; done (accepted plan)

-- The profile's part: the state, and the diagnostics in the order of their emission.
abbrev pub profiled_state :
    SemanticInput
    → DeclarationCensus
    → CompositionProfile
    → Graph × List Diagnostic
    → AnalysisState × List Diagnostic
profiled_state input declared p (graph, reported) =
    let selected = create_profile_census p declared in
    (
      record {
        input = input;
        declared = declared;
        profiled = some (p, selected, validate_selected_bindings p declared selected);
        graph = graph;
      },
      profile_diagnostics p declared
          ++ ((validation_context p declared selected).reported ++ reported),
    )

unfoldable pub analyze_profile :
    SemanticInput
    → DeclarationCensus
    → GraphResourceResult
    → Option CompositionProfile
    → Outcome (AnalysisState × List Diagnostic)
analyze_profile input declared resources none =
    done (record { input = input; declared = declared; profiled = none; graph = none }, [])
analyze_profile input declared resources (some p) = do
  let selected = create_profile_census p declared
  built ← build_graph selected (validate_selected_bindings p declared selected) resources
  done (profiled_state input declared p built)

unfoldable pub analyze_composition_semantics :
    (Details → List ℕ) → SemanticInput → Collector → Outcome SemanticResult
analyze_composition_semantics canonicalize input collector = do
  let declared = create_declaration_census input.declarations input.all_declarations_admitted
  let resources = collect_graph_resource_limits input.profile_resources declared
  analyzed ← analyze_profile input declared resources.0 input.profile
  filled ←
      add_each canonicalize
        (declaration_diagnostics input.declarations ++ (resources.1 ++ analyzed.1)) collector
  result_of analyzed.0 (finish canonicalize filled).1
