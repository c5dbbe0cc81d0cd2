-- ===== src/Diagnostics/Types.antt =====
-- Diagnostics: packages/core/src/features/authoring/diagnostic-types.ts. A literal object that the code
-- builds for a code has that code's phase; the coordinate's absent fields are `none`.
use get_modular.Base.{ℕ, List, Option, none, Text}
use get_modular.Composition.Wire.{Compatibility}

pub data Code : Type 0 where
  invalid_byte_carrier invalid_json duplicate_key limit_exceeded unsupported_version : Code
  unknown_field invalid_value non_plain_value invalid_identity : Code
  duplicate_implementation duplicate_capability duplicate_slot : Code
  duplicate_root unknown_root duplicate_selection unknown_module unknown_implementation : Code
  implementation_mismatch missing_selection unreachable_selection : Code
  duplicate_record duplicate_binding missing_binding unknown_consumer unknown_slot : Code
  unknown_provider provider_not_selected cardinality capability_missing : Code
  compatibility_mismatch cycle truncated : Code

pub data Stage : Type 0 where
  decode schema declaration profile binding graph output : Stage

pub data PathSegment : Type 0 where
  field : Text → PathSegment
  index : ℕ → PathSegment

pub record Coordinate : Type 0 where
  pub module_id : Option Text
  pub implementation_id : Option Text
  pub slot_id : Option Text
  pub provider_implementation_id : Option Text

pub data Reason : Type 0 where
  not_uint8array unusable_view shared_storage not_document_list : Reason
  invalid_json duplicate_key unsupported_version unknown_field invalid_type invalid_format : Reason
  non_plain_value duplicate unknown mismatch missing unreachable : Reason

pub data LimitName : Type 0 where
  declaration_raw_document_bytes profile_raw_document_bytes aggregate_raw_bytes : LimitName
  json_value_occurrences json_depth aggregate_string_bytes identifier_bytes : LimitName
  owner_path_segments declarations capabilities_per_declaration slots_per_declaration : LimitName
  total_capabilities total_slots roots selections bindings : LimitName
  graph_edges providers_per_many_slot graph_depth diagnostics diagnostic_path_segments : LimitName

pub data CardinalityKind : Type 0 where
  required optional many : CardinalityKind

pub data Details : Type 0 where
  reason : Reason → Details
  cardinalities : CardinalityKind → ℕ → Details
  compatibilities : Compatibility → Compatibility → Details
  limits : LimitName → ℕ → ℕ → Details
  component : List Text → Details
  omitted : ℕ → Details

pub record Diagnostic : Type 0 where
  pub code : Code
  pub phase : Stage
  pub path : List PathSegment
  pub coordinate : Coordinate
  pub details : Details

abbrev pub nowhere : Coordinate
nowhere = record {
  module_id = none;
  implementation_id = none;
  slot_id = none;
  provider_implementation_id = none;
}
