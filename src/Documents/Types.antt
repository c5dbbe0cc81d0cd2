-- ===== src/Documents/Types.antt =====
-- The types of packages/core/src/features/input-admission/raw-document.ts, and the limits of
-- resource-limits.ts beside it.
use get_modular.Base.{ℕ, List, Option, Bool, Text}

pub record RawDocumentBudget : Type 0 where
  pub values_remaining : ℕ
  pub string_bytes_remaining : ℕ

-- `RawDocumentScan["stoppedBy"]`, less `null`.
pub data Stop : Type 0 where
  json_value_occurrences aggregate_string_bytes json_depth : Stop

-- A string or a number.
pub data Segment : Type 0 where
  member : Text → Segment
  position : ℕ → Segment

pub data SpanKind : Type 0 where
  record_span array_span string_span number_span boolean_span null_span : SpanKind

pub data ObjectState : Type 0 where
  first_key key colon value after_value : ObjectState

pub data ArrayState : Type 0 where
  first_value value after_value : ArrayState

-- The two variants of `ScanFrame`. A root has no segment.
pub record ObjectFrame : Type 0 where
  pub segment : Option Segment
  pub keys : List Text
  pub state : ObjectState
  pub key : Text

pub record ArrayFrame : Type 0 where
  pub segment : Option Segment
  pub state : ArrayState
  pub next_index : ℕ

pub data ScanFrame : Type 0 where
  object : ObjectFrame → ScanFrame
  array : ArrayFrame → ScanFrame

-- A call of `onDuplicate` or of `depthLimit`, with its path.
pub data Report : Type 0 where
  duplicate depth_limit : List Segment → Report

-- The innermost frame stands first. `reports` are the calls made so far.
pub record ScanState : Type 0 where
  pub frames : List ScanFrame
  pub root_seen : Bool
  pub invalid_json : Bool
  pub duplicate_key : Bool
  pub stopped_by : Option Stop
  pub value_occurrences : ℕ
  pub string_bytes : ℕ
  pub maximum_depth : ℕ
  pub reports : List Report

-- The result, with the calls of the observers: `replay_boundary` is the argument of the last call.
pub record RawDocumentScan : Type 0 where
  pub decoded : Bool
  pub invalid_json : Bool
  pub duplicate_key : Bool
  pub stopped_by : Option Stop
  pub value_occurrences : ℕ
  pub string_bytes : ℕ
  pub maximum_depth : ℕ
  pub reports : List Report
  pub replay_boundary : ℕ

pub data FrameResult : Type 0 where
  go_on value invalid : FrameResult

-- `admissionLimits.jsonDepth`
abbrev pub json_depth_limit : ℕ
json_depth_limit = 32
