-- ===== src/Composition/EdgeCount.antt =====
-- The resource limits of packages/core/src/features/composition-semantics/graph-resources.ts against a
-- count without saturation.
use get_modular.Base.{
  left_zero, ℕ, ◌+◌, List, [], ◌∷◌, ◌++◌, Option, none, some, Bool, true, false, ◌≡◌, refl, sym, ap,
  ◌∙◌, arith, if◌then◌else◌, ltb, min, Text, text_key, contains, add_all, map, Bool-cases, inl, inr,
}
use get_modular.Composition.Declarations.{DeclarationCensus}
use get_modular.Composition.Resources.{
  ObservedBinding, ProfileResourceObservations, GraphResourceResult, Counted, add_edges, exceeds,
  graph_edges_limit, check_many_limit, count_bindings, collect_graph_resource_limits,
}

-- The provider occurrences in the bindings of selected consumers.
occurrences_in : List Text → List ObservedBinding → ℕ
occurrences_in selected [] = 0
occurrences_in selected (b ∷ bs) =
    (if contains selected b.consumer_implementation_id then b.provider_occurrences else 0)
    + occurrences_in selected bs

-- The implementations that the observed selections name.
abbrev observed_selected : ProfileResourceObservations → List Text
observed_selected o = add_all [] (map (λ s. s.implementation_id) o.selections)

pub input_edges : ProfileResourceObservations → ℕ
input_edges o = occurrences_in (observed_selected o) o.bindings

right_zero : (n : ℕ) → n ≡ n + 0
right_zero n = omega arith

right_add : (n a b : ℕ) → n + a + b ≡ n + (a + b)
right_add n a b = omega arith

saturate : (n a : ℕ) → min 262145 (min 262145 n + a) ≡ min 262145 (n + a)
saturate n a = omega arith

module _ (declarations : DeclarationCensus) (selected : List Text) where
  count_bindings-edges :
      (bs : List ObservedBinding) (n : ℕ) (c : Counted)
      → c.edges ≡ some (min (graph_edges_limit + 1) n)
      → (count_bindings declarations selected bs c).edges
        ≡ some (min (graph_edges_limit + 1) (n + occurrences_in selected bs))
  unfolding count_bindings occurrences_in
  count_bindings-edges [] n c h = h ∙ (λ i. some (min 262145 (right_zero n i)))
  count_bindings-edges (b ∷ bs) n c h =
      elim (Bool-cases (contains selected b.consumer_implementation_id)) [
        | inl chosen ↦
            rw (chosen, count_bindings)
              (count_bindings-edges bs (n + b.provider_occurrences)
                  (record {
                    edges = add_edges c.edges b.provider_occurrences;
                    reported = c.reported ++ check_many_limit declarations b;
                  })
                  (rw h (ap some (saturate n b.provider_occurrences)))
                ∙ (λ i. some (
                    min 262145
                      (right_add n b.provider_occurrences (occurrences_in selected bs) i))))
        | inr passed ↦
            rw (passed, count_bindings)
              (count_bindings-edges bs n c h
                ∙ (λ i. some (min 262145 (n + sym (left_zero (occurrences_in selected bs)) i))))
      ]

  count_bindings-none :
      (bs : List ObservedBinding) (c : Counted)
      → c.edges ≡ none
      → (count_bindings declarations selected bs c).edges ≡ none
  unfolding count_bindings
  count_bindings-none [] c h = h
  count_bindings-none (b ∷ bs) c h =
      count_bindings-none bs
        (if contains selected b.consumer_implementation_id
          then record {
            edges = add_edges c.edges b.provider_occurrences;
            reported = c.reported ++ check_many_limit declarations b;
          }
          else c)
        (ground (arith, h))

abbrev result_with : Option ℕ → Bool → GraphResourceResult
result_with edges exceeded = record { counted_input_edges = edges; edge_limit_exceeded = exceeded }

exceeds-min : (n : ℕ) → exceeds (some (min 262145 n)) ≡ ltb graph_edges_limit n
exceeds-min n = ground arith

-- With a complete census of the selections, the counted edges are the provider occurrences of the
-- selected consumers, up to one above the limit, and the limit is exceeded exactly when they are more.
-- Without one, nothing is counted and nothing exceeds the limit.
pub collect_graph_resource_limits_lem :
    (declarations : DeclarationCensus) (o : ProfileResourceObservations)
    → (collect_graph_resource_limits (some o) declarations).0 ≡ (
        if o.selection_census_complete
        then record {
          counted_input_edges = some (min (graph_edges_limit + 1) (input_edges o));
          edge_limit_exceeded = ltb graph_edges_limit (input_edges o);
        }
        else record { counted_input_edges = none; edge_limit_exceeded = false })
unfolding collect_graph_resource_limits input_edges
collect_graph_resource_limits_lem declarations o =
    let counted : Bool → Option ℕ = λ complete.
      (count_bindings declarations (observed_selected o) o.bindings
        (record { edges = if complete then some 0 else none; reported = [] })).edges in
    elim (Bool-cases o.selection_census_complete) [
      | inl complete ↦
          let edges : counted true ≡ some (min 262145 (input_edges o)) =
            count_bindings-edges declarations (observed_selected o) o.bindings 0
              (record { edges = some 0; reported = [] }) (ap some (omega arith))
            ∙ (λ i. some (min 262145 (left_zero (input_edges o) i))) in
          rw complete (
            ap (λ e. result_with e (exceeds e)) edges
            ∙ ap (result_with (some (min 262145 (input_edges o)))) (exceeds-min (input_edges o)))
      | inr partial ↦ rw partial (
          ap (λ e. result_with e (exceeds e))
            (count_bindings-none declarations (observed_selected o) o.bindings
              (record { edges = none; reported = [] }) refl))
    ]
