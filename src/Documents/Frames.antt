-- ===== src/Documents/Frames.antt =====
-- What a token does to the innermost frame
-- (packages/core/src/features/input-admission/raw-document.ts).
use get_modular.Base.{
  ℕ, ◌+◌, List, [], ◌∷◌, ◌++◌, Option, none, some, Bool, true, false, min, max, leb, if◌then◌else◌,
  length, contains, Text, text_key,
}
use mathlib.Core.List.{reverse}
use get_modular.Base.Outcome.{Outcome, done, thrown, out_of_fuel, ◌>>=◌}
use get_modular.Scanner.Strings.{
  RawToken, TokenKind, object_start, object_end, array_start, array_end, colon, comma, true_literal,
  false_literal, null_literal, number, string,
}
use get_modular.Scanner.Cursor.{Decoded, text, decode_string}
use get_modular.Documents.Types.{
  RawDocumentBudget, json_value_occurrences, aggregate_string_bytes, json_depth, Segment, member,
  position, SpanKind, record_span, array_span, string_span, number_span, boolean_span, null_span,
  ObjectState, ArrayState, ObjectFrame, ArrayFrame, ScanFrame, object, array, duplicate,
  depth_limit, ScanState, FrameResult, json_depth_limit,
}

unfoldable pub lexical_kind : TokenKind → Option SpanKind
lexical_kind object_start = some record_span
lexical_kind array_start = some array_span
lexical_kind (string n w) = some string_span
lexical_kind number = some number_span
lexical_kind true_literal = some boolean_span
lexical_kind false_literal = some boolean_span
lexical_kind null_literal = some null_span
lexical_kind _ = none

abbrev pub segment_of : ScanFrame → Option Segment
segment_of (object f) = f.segment
segment_of (array f) = f.segment

unfoldable pub segments_of : List ScanFrame → List Segment
segments_of [] = []
segments_of (frame ∷ frames) = elim (segment_of frame) [
  | none ↦ segments_of frames
  | some segment ↦ segment ∷ segments_of frames
]

-- From the outermost frame inwards.
unfoldable pub duplicate_path : List ScanFrame → Segment → List Segment
duplicate_path frames key = segments_of (reverse frames) ++ key ∷ []

unfoldable pub charge_string : ScanState → ℕ → RawDocumentBudget → ScanState × Bool
charge_string state decoded_utf8_bytes budget =
    let charged =
      min (budget.string_bytes_remaining + 1) (state.string_bytes + decoded_utf8_bytes) in
    if leb charged budget.string_bytes_remaining
    then (record state { string_bytes = charged }, true)
    else (record state { string_bytes = charged; stopped_by = some aggregate_string_bytes }, false)

-- The key is decoded: it is new, or a duplicate that is reported.
unfoldable pub take_key : ScanState → ObjectFrame → List ScanFrame → Text → ScanState
unfolding duplicate_path
take_key state frame outer key =
    if contains frame.keys key
    then record state {
      duplicate_key = true;
      reports = state.reports ++ duplicate (duplicate_path state.frames (member key)) ∷ [];
      frames = object (record frame { key = key; state = ObjectState.colon }) ∷ outer;
    }
    else record state {
      frames =
          object
            (record frame { keys = frame.keys ++ key ∷ []; key = key; state = ObjectState.colon })
          ∷ outer;
    }

-- `cursor.decodeString(current)`, whose `TypeError` ends the scan.
unfoldable pub key_of_text : Option Decoded → Outcome Text
key_of_text none = out_of_fuel
key_of_text (some (text key)) = done key
key_of_text (some _) = thrown

-- Once the key is charged: whether it fits decides if it is decoded.
unfoldable pub decode_key :
    List ℕ
    → ScanState × Bool
    → ObjectFrame
    → List ScanFrame
    → RawToken
    → Outcome (ScanState × FrameResult)
unfolding key_of_text take_key
decode_key bytes (charged, true) frame outer current =
    key_of_text (decode_string bytes current.start current.stop) >>= λ key.
    done (take_key charged frame outer key, FrameResult.go_on)
decode_key bytes (charged, false) frame outer current = done (charged, FrameResult.go_on)

-- The last argument is the kind of the current token, here and below.
unfoldable pub read_key :
    List ℕ
    → RawDocumentBudget
    → ScanState
    → ObjectFrame
    → List ScanFrame
    → RawToken
    → TokenKind
    → Outcome (ScanState × FrameResult)
unfolding decode_key charge_string
read_key bytes budget state frame outer current (string n w) =
    decode_key bytes (charge_string state n budget) frame outer current
read_key bytes budget state frame outer current _ = done (state, FrameResult.invalid)

abbrev pub with_top : ScanState → ScanFrame → List ScanFrame → ScanState × FrameResult
with_top state frame outer = (record state { frames = frame ∷ outer }, FrameResult.go_on)

abbrev pub pop : ScanState → List ScanFrame → ScanState × FrameResult
pop state outer = (record state { frames = outer }, FrameResult.go_on)

abbrev pub in_state : ObjectFrame → ObjectState → ScanFrame
in_state frame state = object (record frame { state = state })

-- The innermost frame is `frame`, those round it are `outer`; the state of the frame comes before the
-- kind.
unfoldable pub handle_object_frame :
    List ℕ
    → RawDocumentBudget
    → ScanState
    → ObjectFrame
    → List ScanFrame
    → RawToken
    → ObjectState
    → TokenKind
    → Outcome (ScanState × FrameResult)
unfolding read_key
handle_object_frame bytes budget state frame outer current ObjectState.first_key object_end =
    done (pop state outer)
handle_object_frame bytes budget state frame outer current ObjectState.first_key kind =
    read_key bytes budget state frame outer current kind
handle_object_frame bytes budget state frame outer current ObjectState.key kind =
    read_key bytes budget state frame outer current kind
handle_object_frame bytes budget state frame outer current ObjectState.colon colon =
    done (with_top state (in_state frame ObjectState.value) outer)
handle_object_frame bytes budget state frame outer current ObjectState.after_value object_end =
    done (pop state outer)
handle_object_frame bytes budget state frame outer current ObjectState.after_value comma =
    done (with_top state (in_state frame ObjectState.key) outer)
handle_object_frame bytes budget state frame outer current ObjectState.value kind =
    done (state, FrameResult.value)
handle_object_frame bytes budget state frame outer current _ kind =
    done (state, FrameResult.invalid)

unfoldable pub handle_array_frame :
    ScanState → ArrayFrame → List ScanFrame → ArrayState → TokenKind → ScanState × FrameResult
handle_array_frame state frame outer ArrayState.first_value array_end = pop state outer
handle_array_frame state frame outer ArrayState.after_value array_end = pop state outer
handle_array_frame state frame outer ArrayState.after_value comma =
    with_top state (array (record frame { state = ArrayState.value })) outer
handle_array_frame state frame outer ArrayState.after_value kind = (state, FrameResult.invalid)
handle_array_frame state frame outer _ kind = (state, FrameResult.value)

-- The last arguments are the frames and the kind.
unfoldable pub handle_frame_token :
    List ℕ
    → RawDocumentBudget
    → ScanState
    → RawToken
    → List ScanFrame
    → TokenKind
    → Outcome (ScanState × FrameResult)
unfolding handle_object_frame handle_array_frame
handle_frame_token bytes budget state current (object frame ∷ outer) kind =
    handle_object_frame bytes budget state frame outer current frame.state kind
handle_frame_token bytes budget state current (array frame ∷ outer) kind =
    done (handle_array_frame state frame outer frame.state kind)
handle_frame_token bytes budget state current [] kind =
    done (state, if state.root_seen then FrameResult.invalid else FrameResult.value)

abbrev pub is_container : SpanKind → Bool
is_container record_span = true
is_container array_span = true
is_container _ = false

-- The segment under which the innermost frame holds the value that is read next.
abbrev pub next_segment : ScanFrame → Segment
next_segment (object f) = member f.key
next_segment (array f) = position f.next_index

-- The part of `chargeValue` on the depth; the last argument is the frames.
unfoldable pub charge_depth : ScanState → List ScanFrame → Outcome (ScanState × Bool)
unfolding duplicate_path
charge_depth state frames =
    let depth = length frames + 1 in
    let deeper = record state { maximum_depth = max state.maximum_depth depth } in
    if leb depth json_depth_limit then done (deeper, true) else elim frames [
      | [] ↦ thrown
      | frame ∷ outer ↦ done (
        record deeper {
          stopped_by = some json_depth;
          reports =
              state.reports
              ++ depth_limit (duplicate_path (frame ∷ outer) (next_segment frame)) ∷ [];
        },
        false,
      )
    ]

-- `current.kind === "string" && !chargeString(state, current, budget)`
unfoldable pub charge_text : ScanState → TokenKind → RawDocumentBudget → ScanState × Bool
unfolding charge_string
charge_text state (string n w) budget = charge_string state n budget
charge_text state _ budget = (state, true)

unfoldable pub charge_kind : SpanKind → ScanState × Bool → Outcome (ScanState × Bool)
unfolding charge_depth
charge_kind kind (state, true) =
    if is_container kind then charge_depth state state.frames else done (state, true)
charge_kind kind (state, false) = done (state, false)

-- The kind of the token, and the kind of the value.
unfoldable pub charge_value :
    ScanState → TokenKind → SpanKind → RawDocumentBudget → Outcome (ScanState × Bool)
unfolding charge_kind charge_text
charge_value state token_kind kind budget =
    let occurrences = min (budget.values_remaining + 1) (state.value_occurrences + 1) in
    let counted = record state { value_occurrences = occurrences } in
    if leb occurrences budget.values_remaining
    then charge_kind kind (charge_text counted token_kind budget)
    else done (record counted { stopped_by = some json_value_occurrences }, false)

-- The frame that a container opens.
abbrev pub open_frame : SpanKind → Option Segment → List ScanFrame → List ScanFrame
open_frame record_span segment frames =
    object (record { segment = segment; keys = []; state = ObjectState.first_key; key = [] })
    ∷ frames
open_frame array_span segment frames =
    array (record { segment = segment; state = ArrayState.first_value; next_index = 0 }) ∷ frames
open_frame _ segment frames = frames

-- The last argument is the frames.
unfoldable pub commit_value : ScanState → SpanKind → List ScanFrame → ScanState
commit_value state kind (object frame ∷ outer) = record state {
  frames =
      open_frame kind (some (member frame.key))
        (object (record frame { key = []; state = ObjectState.after_value }) ∷ outer);
}
commit_value state kind (array frame ∷ outer) = record state {
  frames = open_frame kind (some (position frame.next_index)) (
      array (record frame { next_index = frame.next_index + 1; state = ArrayState.after_value })
      ∷ outer);
}
commit_value state kind [] = record state { root_seen = true; frames = open_frame kind none [] }
