-- ===== src/Diagnostics/Order.antt =====
-- `compareDiagnostics` of packages/core/src/features/diagnostics/order.ts, by the sign of its result. The
-- provider of canonical bytes is an argument, as in the code.
use get_modular.Base.{ℕ, List, [], Text, Bool, ◌&&◌, ◌==◌, number_key, if◌then◌else◌}
use get_modular.Diagnostics.Types.{
  Diagnostic, Coordinate, PathSegment, field, index, Details, component, Code, cycle,
}
use get_modular.Diagnostics.Ranks.{phase_rank, code_rank}
use get_modular.Diagnostics.Signs.{
  Sign, negative, positive, or_else, number_sign, list_sign, option_sign, text_sign,
}

unfoldable pub compare_coordinates : Coordinate → Coordinate → Sign
compare_coordinates a b = or_else (option_sign text_sign a.module_id b.module_id) (
    or_else (option_sign text_sign a.implementation_id b.implementation_id) (
      or_else (option_sign text_sign a.slot_id b.slot_id)
        (option_sign text_sign a.provider_implementation_id b.provider_implementation_id)))

-- A field comes before an index.
unfoldable pub compare_segments : PathSegment → PathSegment → Sign
compare_segments (field s) (field t) = text_sign s t
compare_segments (field s) (index n) = negative
compare_segments (index m) (field t) = positive
compare_segments (index m) (index n) = number_sign m n

unfoldable pub compare_paths : List PathSegment → List PathSegment → Sign
compare_paths = list_sign compare_segments

unfoldable pub compare_cycles : List Text → List Text → Sign
compare_cycles = list_sign text_sign

unfoldable pub compare_bytes : List ℕ → List ℕ → Sign
compare_bytes = list_sign number_sign

-- `details.component`, which a cycle has.
abbrev pub component_of : Details → List Text
component_of (component ids) = ids
component_of _ = []

abbrev pub is_cycle_code : Code → Bool
is_cycle_code c = code_rank c == code_rank cycle

module _ (canonicalize : Details → List ℕ) where
  unfoldable pub compare_details : Diagnostic → Diagnostic → Sign
  compare_details a b =
      if is_cycle_code a.code && is_cycle_code b.code
      then compare_cycles (component_of a.details) (component_of b.details)
      else compare_bytes (canonicalize a.details) (canonicalize b.details)

  unfoldable pub compare_diagnostics : Diagnostic → Diagnostic → Sign
  compare_diagnostics a b = or_else (number_sign (phase_rank a.phase) (phase_rank b.phase)) (
      or_else (number_sign (code_rank a.code) (code_rank b.code)) (
        or_else (compare_coordinates a.coordinate b.coordinate)
          (or_else (compare_paths a.path b.path) (compare_details a b))))
