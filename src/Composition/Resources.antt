-- ===== src/Composition/Resources.antt =====
-- packages/core/src/features/composition-semantics/graph-resources.ts, and the observations of ports.ts.
use get_modular.Base.{
  ℕ, ◌+◌, List, [], ◌∷◌, ◌++◌, Option, none, some, Bool, true, false, not, ◌||◌, if◌then◌else◌, leb,
  ltb, Text, text_key, contains, add_all, map, min,
}
use get_modular.Composition.Wire.{Selection, Slot, Cardinality}
use get_modular.Composition.Declarations.{
  DeclarationCensus, DeclaredImplementation, implementation, slot,
}
use get_modular.Diagnostics.Types.{
  Diagnostic, Stage, limit_exceeded, nowhere, limits, field, index, PathSegment, LimitName,
}

pub record ObservedBinding : Type 0 where
  pub ordinal : ℕ
  pub consumer_implementation_id : Text
  pub slot_id : Option Text
  pub provider_occurrences : ℕ

pub record ProfileResourceObservations : Type 0 where
  pub selections : List Selection
  pub selection_census_complete : Bool
  pub bindings : List ObservedBinding

pub record GraphResourceResult : Type 0 where
  pub counted_input_edges : Option ℕ
  pub edge_limit_exceeded : Bool

abbrev pub graph_edges_limit : ℕ
graph_edges_limit = 262144

abbrev pub providers_limit : ℕ
providers_limit = 1024

abbrev pub limit_diagnostic : Stage → List PathSegment → LimitName → ℕ → Diagnostic
limit_diagnostic phase path name limit = record {
  code = limit_exceeded;
  phase = phase;
  path = path;
  coordinate = nowhere;
  details = limits name limit (limit + 1);
}

-- "profile", "bindings" and "providerImplementationIds".
abbrev profile_text : Text
profile_text = b'p' ∷ b'r' ∷ b'o' ∷ b'f' ∷ b'i' ∷ b'l' ∷ b'e' ∷ []

abbrev bindings_text : Text
bindings_text = b'b' ∷ b'i' ∷ b'n' ∷ b'd' ∷ b'i' ∷ b'n' ∷ b'g' ∷ b's' ∷ []

abbrev providers_text : Text
providers_text =
    b'p' ∷ b'r' ∷ b'o' ∷ b'v' ∷ b'i' ∷ b'd' ∷ b'e' ∷ b'r' ∷ b'I' ∷ b'm' ∷ b'p' ∷ b'l' ∷ b'e' ∷ b'm'
    ∷ b'e' ∷ b'n' ∷ b't' ∷ b'a' ∷ b't' ∷ b'i' ∷ b'o' ∷ b'n' ∷ b'I' ∷ b'd' ∷ b's' ∷ []

-- The count saturates one above the limit; `none` stands for an incomplete census.
abbrev pub add_edges : Option ℕ → ℕ → Option ℕ
add_edges none n = none
add_edges (some edges) n = some (min (graph_edges_limit + 1) (edges + n))

abbrev is_many : Option (Option Slot) → Bool
is_many (some (some s)) = elim s.cardinality [ Cardinality.many a b ↦ true | _ ↦ false ]
is_many _ = false

-- `consumer?.slot(slotId)`
abbrev slot_of : Option (Option DeclaredImplementation) → Text → Option (Option Slot)
slot_of (some (some d)) id = slot d id
slot_of _ id = none

unfoldable pub check_many_limit : DeclarationCensus → ObservedBinding → List Diagnostic
check_many_limit declarations b = elim b.slot_id [
  | none ↦ []
  | some slot_id ↦
      if leb b.provider_occurrences providers_limit
        || not
            (is_many (slot_of (implementation declarations b.consumer_implementation_id) slot_id))
      then []
      else limit_diagnostic Stage.binding
          (field profile_text ∷ field bindings_text ∷ index b.ordinal ∷ field providers_text ∷ [])
          LimitName.providers_per_many_slot providers_limit
        ∷ []
]

pub record Counted : Type 0 where
  pub edges : Option ℕ
  pub reported : List Diagnostic

unfoldable pub count_bindings :
    DeclarationCensus → List Text → List ObservedBinding → Counted → Counted
count_bindings declarations selected [] c = c
count_bindings declarations selected (b ∷ bs) c = count_bindings declarations selected bs (
    if contains selected b.consumer_implementation_id
    then record {
      edges = add_edges c.edges b.provider_occurrences;
      reported = c.reported ++ check_many_limit declarations b;
    }
    else c)

abbrev pub exceeds : Option ℕ → Bool
exceeds none = false
exceeds (some edges) = ltb graph_edges_limit edges

unfoldable pub collect_graph_resource_limits :
    Option ProfileResourceObservations → DeclarationCensus → GraphResourceResult × List Diagnostic
collect_graph_resource_limits none declarations =
    (record { counted_input_edges = none; edge_limit_exceeded = false }, [])
collect_graph_resource_limits (some o) declarations =
    let selected = add_all [] (map (λ s. s.implementation_id) o.selections) in
    let start : Counted = record {
      edges = if o.selection_census_complete then some 0 else none;
      reported = [];
    } in
    let c = count_bindings declarations selected o.bindings start in
    (
      record { counted_input_edges = c.edges; edge_limit_exceeded = exceeds c.edges },
      c.reported
          ++ (if exceeds c.edges
              then limit_diagnostic Stage.graph [] LimitName.graph_edges graph_edges_limit ∷ []
              else []),
    )
