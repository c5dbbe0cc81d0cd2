-- ===== src/Diagnostics/Ranks.antt =====
-- The ranks of phases and codes: packages/core/src/features/diagnostics/order.ts.
use get_modular.Base.{ℕ}
use get_modular.Diagnostics.Types.{
  Code, limit_exceeded, invalid_value, invalid_identity, duplicate_implementation,
  duplicate_capability, duplicate_slot, duplicate_root, unknown_root, duplicate_selection,
  unknown_module, unknown_implementation, implementation_mismatch, missing_selection,
  unreachable_selection, duplicate_record, duplicate_binding, missing_binding, unknown_consumer,
  unknown_slot, unknown_provider, provider_not_selected, cardinality, capability_missing,
  compatibility_mismatch, cycle, truncated, Stage, decode, schema, declaration, profile, binding,
  graph, output,
}

unfoldable pub phase_rank : Stage → ℕ
phase_rank decode = 0
phase_rank schema = 1
phase_rank declaration = 2
phase_rank profile = 3
phase_rank binding = 4
phase_rank graph = 5
phase_rank output = 6

unfoldable pub code_rank : Code → ℕ
code_rank Code.invalid_byte_carrier = 0
code_rank Code.invalid_json = 1
code_rank Code.duplicate_key = 2
code_rank limit_exceeded = 3
code_rank Code.unsupported_version = 4
code_rank Code.unknown_field = 5
code_rank invalid_value = 6
code_rank Code.non_plain_value = 7
code_rank invalid_identity = 8
code_rank duplicate_implementation = 9
code_rank duplicate_capability = 10
code_rank duplicate_slot = 11
code_rank duplicate_root = 12
code_rank unknown_root = 13
code_rank duplicate_selection = 14
code_rank unknown_module = 15
code_rank unknown_implementation = 16
code_rank implementation_mismatch = 17
code_rank missing_selection = 18
code_rank unreachable_selection = 19
code_rank duplicate_record = 20
code_rank duplicate_binding = 21
code_rank missing_binding = 22
code_rank unknown_consumer = 23
code_rank unknown_slot = 24
code_rank unknown_provider = 25
code_rank provider_not_selected = 26
code_rank cardinality = 27
code_rank capability_missing = 28
code_rank compatibility_mismatch = 29
code_rank cycle = 30
code_rank truncated = 32
