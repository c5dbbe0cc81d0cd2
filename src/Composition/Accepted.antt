-- ===== src/Composition/Accepted.antt =====
-- What an accepted composition satisfies
-- (packages/core/src/features/composition-semantics/semantic-analysis.ts).
use get_modular.Base.{
  ℕ, List, [], ◌∷◌, ◌++◌, Option, none, some, Bool, true, false, ◌≡◌, ◌≢◌, refl, sym, ap, ◌∙◌,
  arith, length, if◌then◌else◌, Text, append-empty, length-empty,
}
use get_modular.Base.Outcome.{done_injective, Outcome, done, thrown, ◌>>=◌, bind_done}
use get_modular.Composition.Wire.{CompositionProfile, CompositionPlan}
use get_modular.Composition.Declarations.{
  DeclarationCensus, DeclaredImplementation, create_declaration_census, declaration_diagnostics,
}
use get_modular.Composition.Profiles.{ProfileCensus, create_profile_census, profile_diagnostics}
use get_modular.Composition.Bindings.{
  SelectedBindings, validate_selected_bindings, validation_context,
}
use get_modular.Composition.Resources.{GraphResourceResult, collect_graph_resource_limits}
use get_modular.Graph.Selected.{SelectedGraphAnalysis}
use get_modular.Diagnostics.Types.{Diagnostic, Details}
use get_modular.Diagnostics.Collector.{Collector, new_collector, add_each, finish}
use get_modular.Diagnostics.Counting.{collect_lem}
use get_modular.Composition.Analysis.{
  SemanticInput, SemanticResult, accepted, AnalysisState, Graph, build_graph, create_plan,
  plan_with, plan_from, failed_census, plan_of, result_of, profiled_state, analyze_profile,
  analyze_composition_semantics,
}
use get_modular.Composition.GraphSound.{Sound, build_with-done}

thrown-done {ℓ} : {A : Type ℓ} (a : A) → thrown ≢ done a
thrown-done a h = cc

abbrev pub declared_of : SemanticInput → DeclarationCensus
declared_of input = create_declaration_census input.declarations input.all_declarations_admitted

abbrev selected_of : SemanticInput → CompositionProfile → ProfileCensus
selected_of input p = create_profile_census p (declared_of input)

abbrev bindings_of : SemanticInput → CompositionProfile → SelectedBindings
bindings_of input p = validate_selected_bindings p (declared_of input) (selected_of input p)

-- What is established of an input, its profile and the plan made of them.
pub record Established (input : SemanticInput) (p : CompositionProfile) (plan : CompositionPlan)
    : Type 0 where
  pub error_free : input.has_errors ≡ false
  pub complete : input.all_declarations_admitted ≡ true
  pub profile_sound : profile_diagnostics p (declared_of input) ≡ []
  pub bindings_sound :
      (validation_context p (declared_of input) (selected_of input p)).reported ≡ []
  pub nodes : List DeclaredImplementation
  pub resolved : (selected_of input p).resolved_nodes ≡ some nodes
  pub graph : SelectedGraphAnalysis
  pub sound : Sound (selected_of input p) (bindings_of input p) nodes graph
  pub order : List Text
  pub ordered : graph.dependency_order ≡ some order
  pub planned : plan ≡ create_plan p (bindings_of input p) order

result_of-accepted :
    (state : AnalysisState) (ds : List Diagnostic) (plan : CompositionPlan)
    → result_of state ds ≡ done (accepted plan)
    → (ds ≡ []) × (plan_of state ≡ done plan)
unfolding result_of
result_of-accepted state (d ∷ ds) plan h = cc
result_of-accepted state [] plan h =
    let (plan', e, k) = bind_done (plan_of state) (λ plan. done (accepted plan)) h in (refl, cc)

failed_census-false :
    (input : SemanticInput) (declared : DeclarationCensus) (selected : ProfileCensus)
    (bindings : SelectedBindings)
    → failed_census input declared selected bindings ≡ false
    → (input.has_errors ≡ false) × (input.all_declarations_admitted ≡ true)
failed_census-false input declared selected bindings h = ground arith

unless-done {ℓ} :
    {A : Type ℓ} (b : Bool) (x y : A)
    → (if b then thrown else done x) ≡ done y
    → (b ≡ false) × (x ≡ y)
unless-done true x y h = cc
unless-done false x y h = (refl, cc)

-- What a plan needs.
plan_with-done :
    (input : SemanticInput) (declared : DeclarationCensus) (p : CompositionProfile)
    (selected : ProfileCensus) (bindings : SelectedBindings) (roots order : Option (List Text))
    (plan : CompositionPlan)
    → plan_with input declared p selected bindings roots order ≡ done plan
    → (input.has_errors ≡ false)
      × (input.all_declarations_admitted ≡ true)
      × ((ids : List Text) × (order ≡ some ids) × (plan ≡ create_plan p bindings ids))
unfolding plan_with
plan_with-done input declared p selected bindings none order plan h = cc
plan_with-done input declared p selected bindings (some roots) none plan h = cc
plan_with-done input declared p selected bindings (some roots) (some ids) plan h =
    let (passed, made) = unless-done (failed_census input declared selected bindings) _ plan h in
    let (error_free, complete) = failed_census-false input declared selected bindings passed in
    (error_free, complete, (ids, refl, sym made))

plan_from-done :
    (input : SemanticInput) (declared : DeclarationCensus) (p : CompositionProfile)
    (selected : ProfileCensus) (bindings : SelectedBindings) (graph : Graph)
    (plan : CompositionPlan)
    → plan_from input declared (some (p, selected, bindings)) graph ≡ done plan
    → (g : SelectedGraphAnalysis) × (graph ≡ some g)
      × (plan_with input declared p selected bindings selected.resolved_roots g.dependency_order
          ≡ done plan)
unfolding plan_from
plan_from-done input declared p selected bindings none plan h = cc
plan_from-done input declared p selected bindings (some g) plan h = (g, refl, h)

abbrev resources_of : SemanticInput → GraphResourceResult
resources_of input = (collect_graph_resource_limits input.profile_resources (declared_of input)).0

-- The graph and the plan of a profile on which nothing is reported.
profiled-Established :
    (input : SemanticInput) (p : CompositionProfile) (graph : Graph) (plan : CompositionPlan)
    → profile_diagnostics p (declared_of input) ≡ []
    → (validation_context p (declared_of input) (selected_of input p)).reported ≡ []
    → build_graph (selected_of input p) (bindings_of input p) (resources_of input)
      ≡ done (graph, [])
    → plan_of (profiled_state input (declared_of input) p (graph, [])).0 ≡ done plan
    → Established input p plan
unfolding build_graph plan_of
profiled-Established input p graph plan profile_sound bindings_sound built made =
    let selected = selected_of input p in
    let bindings = bindings_of input p in
    let (g, same, made') =
      plan_from-done input (declared_of input) p selected bindings graph plan made in
    let (error_free, complete, (order, ordered, planned)) =
      plan_with-done input (declared_of input) p selected bindings selected.resolved_roots
        g.dependency_order plan made' in
    let (nodes, resolved, sound) =
      build_with-done selected bindings selected.resolved_nodes
        (resources_of input).counted_input_edges (resources_of input).edge_limit_exceeded g
        (built ∙ ap (λ g. done (g, [])) same) in
    record {
      error_free = error_free;
      complete = complete;
      profile_sound = profile_sound;
      bindings_sound = bindings_sound;
      nodes = nodes;
      resolved = resolved;
      graph = g;
      sound = sound;
      order = order;
      ordered = ordered;
      planned = planned;
    }

analyze_profile-Established :
    (input : SemanticInput) (profile : Option CompositionProfile) (state : AnalysisState)
    (plan : CompositionPlan)
    → analyze_profile input (declared_of input) (resources_of input) profile ≡ done (state, [])
    → plan_of state ≡ done plan
    → (p : CompositionProfile) × (profile ≡ some p) × Established input p plan
unfolding analyze_profile plan_of plan_from
analyze_profile-Established input none state plan h made =
    let same =
      done_injective
        (record { input = input; declared = declared_of input; profiled = none; graph = none }, [])
        (state, []) h in
    absurd (thrown-done plan (ap (λ s. plan_of s.0) same ∙ made))
analyze_profile-Established input (some p) state plan h made =
    let declared = declared_of input in
    let reported = (validation_context p declared (selected_of input p)).reported in
    let (built, e, k) =
      bind_done (build_graph (selected_of input p) (bindings_of input p) (resources_of input))
        (λ built. done (profiled_state input declared p built)) h in
    let same = done_injective (profiled_state input declared p built) (state, []) k in
    let (profile_sound, rest) =
      append-empty (profile_diagnostics p declared) (reported ++ built.1) (λ i. (same i).1) in
    let (bindings_sound, graph_sound) = append-empty reported built.1 rest in
    (
      p,
      refl,
      profiled-Established input p built.0 plan profile_sound bindings_sound
          (e ∙ (λ i. done (built.0, graph_sound i))) (ap (λ s. plan_of s.0) same ∙ made),
    )

-- Nothing is returned only if nothing was added.
collected-empty :
    (canonicalize : Details → List ℕ) (ds : List Diagnostic) (filled : Collector)
    → add_each canonicalize ds new_collector ≡ done filled
    → (finish canonicalize filled).1 ≡ []
    → ds ≡ []
collected-empty canonicalize ds filled e silent =
    let (c, e', _, _, _, returned) = collect_lem canonicalize ds in
    let same = done_injective c filled (sym e' ∙ e) in
    let none_returned : length (finish canonicalize c).1 ≡ 0 =
      ap (λ c. length (finish canonicalize c).1) same ∙ ap length silent in
    length-empty ds (omega (arith, returned, none_returned))

-- An accepted composition has a profile, no error in its input, no document that was not admitted, and
-- nothing reported on its declarations, resources, profile and bindings; its selected graph was built,
-- has no cycle, is not deeper than the limit, has nothing reported on reachability, and its dependency
-- order is that of the plan, which `createPlan` made.
pub analyze-accepted :
    (canonicalize : Details → List ℕ) (input : SemanticInput) (plan : CompositionPlan)
    → analyze_composition_semantics canonicalize input new_collector ≡ done (accepted plan)
    → (declaration_diagnostics input.declarations ≡ [])
      × ((collect_graph_resource_limits input.profile_resources (declared_of input)).1 ≡ [])
      × ((p : CompositionProfile) × (input.profile ≡ some p) × Established input p plan)
unfolding analyze_composition_semantics
analyze-accepted canonicalize input plan h =
    let declared = declared_of input in
    let resources = collect_graph_resource_limits input.profile_resources declared in
    let declaration_part = declaration_diagnostics input.declarations in
    let finished : AnalysisState × List Diagnostic → Outcome SemanticResult = λ analyzed.
      add_each canonicalize (declaration_part ++ (resources.1 ++ analyzed.1)) new_collector
      >>= (λ filled. result_of analyzed.0 (finish canonicalize filled).1) in
    let (analyzed, e, k) =
      bind_done (analyze_profile input declared resources.0 input.profile) finished h in
    let all = declaration_part ++ (resources.1 ++ analyzed.1) in
    let (filled, e', k') =
      bind_done (add_each canonicalize all new_collector)
        (λ filled. result_of analyzed.0 (finish canonicalize filled).1) k in
    let (silent, made) = result_of-accepted analyzed.0 (finish canonicalize filled).1 plan k' in
    let (declarations_sound, rest) =
      append-empty declaration_part (resources.1 ++ analyzed.1)
        (collected-empty canonicalize all filled e' silent) in
    let (resources_sound, profile_silent) = append-empty resources.1 analyzed.1 rest in
    (
      declarations_sound,
      resources_sound,
      analyze_profile-Established input input.profile analyzed.0 plan
          (e ∙ (λ i. done (analyzed.0, profile_silent i))) made,
    )
