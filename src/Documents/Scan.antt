-- ===== src/Documents/Scan.antt =====
-- `scanRawDocument` of packages/core/src/features/input-admission/raw-document.ts.
use get_modular.Base.{
  ℕ, zero, suc, ◌+◌, List, [], ◌∷◌, Option, none, some, Bool, true, false, not, ◌&&◌, ◌||◌, length,
}
use get_modular.Base.Outcome.{Outcome, done, out_of_fuel, ◌>>=◌}
use get_modular.Scanner.Strings.{RawToken, TokenKind, invalid, end_of_input}
use get_modular.Scanner.Cursor.{Cursor, open_cursor, next}
use get_modular.Documents.Types.{
  RawDocumentBudget, Stop, SpanKind, ScanFrame, ScanState, RawDocumentScan, FrameResult,
}
use get_modular.Documents.Frames.{handle_frame_token, lexical_kind, charge_value, commit_value}

-- How a round of the loop ends: by going round again, or by `break`.
pub data Round : Type 0 where
  goes_on breaks : ScanState → Round

abbrev pub is_open : List ScanFrame → Bool
is_open [] = false
is_open (_ ∷ _) = true

abbrev pub fails : ScanState → Round
fails state = breaks (record state { invalid_json = true })

abbrev pub after_charge : SpanKind → ScanState × Bool → Round
after_charge kind (state, true) = goes_on (commit_value state kind state.frames)
after_charge kind (state, false) = breaks state

-- The rest of the round, from `lexicalKind(current)` on.
unfoldable pub read_value :
    RawDocumentBudget → ScanState → TokenKind → Option SpanKind → Outcome Round
unfolding charge_value commit_value
read_value budget state token_kind none = done (fails state)
read_value budget state token_kind (some kind) =
    charge_value state token_kind kind budget >>= λ charged. done (after_charge kind charged)

abbrev pub unless_stopped : ScanState → Option Stop → Round
unless_stopped state none = goes_on state
unless_stopped state (some _) = breaks state

unfoldable pub after_frame : RawDocumentBudget → TokenKind → ScanState × FrameResult → Outcome Round
unfolding read_value lexical_kind
after_frame budget kind (state, FrameResult.go_on) = done (unless_stopped state state.stopped_by)
after_frame budget kind (state, FrameResult.invalid) = done (fails state)
after_frame budget kind (state, FrameResult.value) =
    read_value budget state kind (lexical_kind kind)

-- A round after `cursor.next()`; the last argument is the kind of the token.
unfoldable pub scan_round :
    List ℕ → RawDocumentBudget → ScanState → RawToken → TokenKind → Outcome Round
unfolding after_frame handle_frame_token
scan_round bytes budget state current invalid = done (fails state)
scan_round bytes budget state current end_of_input =
    done (breaks (record state { invalid_json = not state.root_seen || is_open state.frames }))
scan_round bytes budget state current kind =
    handle_frame_token bytes budget state current state.frames kind >>= after_frame budget kind

-- The loop on fuel; `observed_end` is the end of the last token that was passed over.
unfoldable pub scan_loop :
    ℕ → List ℕ → RawDocumentBudget → Cursor → ScanState → ℕ → Outcome (ScanState × ℕ)
unfolding scan_round
scan_loop zero bytes budget cursor state observed_end = out_of_fuel
scan_loop (suc fuel) bytes budget cursor state observed_end = elim (next bytes cursor) [
  | none ↦ out_of_fuel
  | some (moved, current) ↦ scan_round bytes budget state current current.kind >>= λ round.
      elim round [
        | breaks last ↦ done (last, observed_end)
        | goes_on further ↦ scan_loop fuel bytes budget moved further current.stop
      ]
]

unfoldable pub initial_scan : ScanState
initial_scan = record {
  frames = [];
  root_seen = false;
  invalid_json = false;
  duplicate_key = false;
  stopped_by = none;
  value_occurrences = 0;
  string_bytes = 0;
  maximum_depth = 0;
  reports = [];
}

abbrev pub is_none {ℓ} : {A : Type ℓ} → Option A → Bool
is_none none = true
is_none (some _) = false

abbrev pub scan_of : ScanState × ℕ → RawDocumentScan
scan_of (state, observed_end) = record {
  decoded = not state.invalid_json && not state.duplicate_key && is_none state.stopped_by;
  invalid_json = state.invalid_json;
  duplicate_key = state.duplicate_key;
  stopped_by = state.stopped_by;
  value_occurrences = state.value_occurrences;
  string_bytes = state.string_bytes;
  maximum_depth = state.maximum_depth;
  reports = state.reports;
  replay_boundary = observed_end;
}

-- Each round but the last passes over a byte, and the last one may stand at the end.
unfoldable pub scan_raw_document : List ℕ → RawDocumentBudget → Outcome RawDocumentScan
unfolding scan_loop initial_scan open_cursor
scan_raw_document bytes budget =
    scan_loop (length bytes + 1) bytes budget open_cursor initial_scan 0 >>= λ finished.
    done (scan_of finished)
