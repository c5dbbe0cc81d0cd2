-- ===== src/Composition/Wire.antt =====
-- The wire data of packages/core/src/features/authoring/wire-types.ts, after admission. Fields of a
-- single literal value (`kind`, `schemaVersion`, `family`, `familyVersion`, `order`) are left out, and so
-- is a declaration's `owner`, which the analysis does not read. A string is a `Text`.
use get_modular.Base.{ℕ, List, Text}

pub record Compatibility : Type 0 where
  pub token : Text

pub record Capability : Type 0 where
  pub capability_id : Text
  pub compatibility : Compatibility

pub data Cardinality : Type 0 where
  required optional : Cardinality
  many : ℕ → ℕ → Cardinality

pub record Slot : Type 0 where
  pub capability_id : Text
  pub compatibility : Compatibility
  pub slot_id : Text
  pub cardinality : Cardinality

pub record ModuleDeclaration : Type 0 where
  pub module_id : Text
  pub implementation_id : Text
  pub provides : List Capability
  pub slots : List Slot

pub record Selection : Type 0 where
  pub module_id : Text
  pub implementation_id : Text

pub record Binding : Type 0 where
  pub consumer_implementation_id : Text
  pub slot_id : Text
  pub provider_implementation_ids : List Text

pub record CompositionProfile : Type 0 where
  pub profile_id : Text
  pub roots : List Text
  pub selections : List Selection
  pub bindings : List Binding

pub record PlanBinding : Type 0 where
  pub consumer_implementation_id : Text
  pub slot_id : Text
  pub provider_implementation_ids : List Text
  pub capability_id : Text
  pub compatibility : Compatibility

pub record CompositionPlan : Type 0 where
  pub profile_id : Text
  pub roots : List Text
  pub selections : List Selection
  pub bindings : List PlanBinding
  pub dependency_order : List Text
