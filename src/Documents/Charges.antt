-- ===== src/Documents/Charges.antt =====
-- The limits after a value is charged
-- (packages/core/src/features/input-admission/raw-document.ts: `chargeValue`, `commitValue`).
use get_modular.Base.{
  ℕ, ◌+◌, ◌≤◌, ◌≡◌, ◌⊎◌, refl, ap, List, [], ◌∷◌, Option, none, some, Bool, true, false, arith,
  number_key, length, Text, inl, inr, Bool-cases, leb, min, if◌then◌else◌,
}
use get_modular.Base.Outcome.{Returns, returns}
use get_modular.Scanner.Strings.{RawToken, TokenKind, string}
use get_modular.Scanner.Cursor.{decode_string, text}
use get_modular.Documents.Types.{
  RawDocumentBudget, Stop, json_value_occurrences, aggregate_string_bytes, json_depth, SpanKind,
  Segment, ObjectState, ArrayState, ScanFrame, object, array, ScanState, FrameResult,
}
use get_modular.Documents.Frames.{
  charge_depth, charge_kind, charge_value, charge_string, charge_text, commit_value, is_container,
  open_frame,
}
use get_modular.Documents.Scan.{Round, goes_on, breaks}

-- If it is a string, the token decodes.
abbrev pub Decodes : List ℕ → RawToken → TokenKind → Type 0
Decodes bytes token kind =
    (n : ℕ) (w : Bool)
    → kind ≡ string n w
    → (t : Text) × (decode_string bytes token.start token.stop ≡ some (text t))

-- The counters at the end of a scan: a limit that stopped it is exceeded by one, the others are kept.
abbrev pub WithinBudget : RawDocumentBudget → Option Stop → ℕ → ℕ → ℕ → Type 0
WithinBudget b none values bytes depth =
    (values ≤ b.values_remaining) × (bytes ≤ b.string_bytes_remaining) × (depth ≤ 32)
WithinBudget b (some json_value_occurrences) values bytes depth =
    (values ≡ b.values_remaining + 1) × (bytes ≤ b.string_bytes_remaining) × (depth ≤ 32)
WithinBudget b (some aggregate_string_bytes) values bytes depth =
    (values ≤ b.values_remaining) × (bytes ≡ b.string_bytes_remaining + 1) × (depth ≤ 32)
WithinBudget b (some json_depth) values bytes depth =
    (values ≤ b.values_remaining) × (bytes ≤ b.string_bytes_remaining) × (depth ≡ 33)

abbrev pub Ended : RawDocumentBudget → ScanState → Type 0
Ended b s = WithinBudget b s.stopped_by s.value_occurrences s.string_bytes s.maximum_depth

-- A state between two rounds.
pub record Running (b : RawDocumentBudget) (s : ScanState) : Type 0 where
  pub going : s.stopped_by ≡ none
  pub values : s.value_occurrences ≤ b.values_remaining
  pub bytes : s.string_bytes ≤ b.string_bytes_remaining
  pub deepest : s.maximum_depth ≤ 32
  pub nested : length s.frames ≤ s.maximum_depth

abbrev pub Charged : RawDocumentBudget → ScanState × Bool → Type 0
Charged b (s, true) = Running b s
Charged b (s, false) = (stop : Stop) × (s.stopped_by ≡ some stop) × Ended b s

-- After the frame: on the way round a charge may have stopped the scan.
abbrev pub Handled : RawDocumentBudget → ScanState × FrameResult → Type 0
Handled b (s, FrameResult.go_on) =
    (Running b s) ⊎ ((stop : Stop) × (s.stopped_by ≡ some stop) × Ended b s)
Handled b (s, _) = Running b s

abbrev pub Rounded : RawDocumentBudget → Round → Type 0
Rounded b (goes_on s) = Running b s
Rounded b (breaks s) = Ended b s

module _ (b : RawDocumentBudget) where
  pub Running-Ended : (s : ScanState) → Running b s → Ended b s
  Running-Ended s r = rw r.going (r.values, r.bytes, r.deepest)

  pub charge_string-Charged :
      (s : ScanState) (n : ℕ) → Running b s → Charged b (charge_string s n b)
  unfolding charge_string
  charge_string-Charged s n r =
      let charged = min (b.string_bytes_remaining + 1) (s.string_bytes + n) in
      elim (Bool-cases (leb charged b.string_bytes_remaining)) [
        | inl h ↦ rw (h, charge_string) (ground arith)
        | inr h ↦ rw (h, charge_string) (aggregate_string_bytes, refl, ground arith)
      ]

  pub frames-charge_string : (s : ScanState) (n : ℕ) → (charge_string s n b).0.frames ≡ s.frames
  unfolding charge_string
  frames-charge_string s n = ground arith

  charge_text-Charged :
      (s : ScanState) (kind : TokenKind) → Running b s → Charged b (charge_text s kind b)
  unfolding charge_text
  charge_text-Charged s (string n w) r = charge_string-Charged s n r
  charge_text-Charged s _ r = r

  -- A container is counted as one more level.
  abbrev pub Deepened : SpanKind → ScanState × Bool → Type 0
  Deepened kind (s, true) =
      Running b s × (is_container kind ≡ true → length s.frames + 1 ≤ s.maximum_depth)
  Deepened kind (s, false) = Ended b s

  charge_depth-Returns :
      (kind : SpanKind) (s : ScanState) (frames : List ScanFrame)
      → s.frames ≡ frames
      → Running b s
      → Returns (Deepened kind) (charge_depth s frames)
  unfolding charge_depth
  charge_depth-Returns kind s [] e r =
      returns (ground (arith, ap length e), λ _. ground (arith, ap length e))
  charge_depth-Returns kind s (frame ∷ frames) e r =
      elim (Bool-cases (leb (length (frame ∷ frames) + 1) 32)) [
        | inl h ↦
            rw (h, charge_depth)
              (returns (ground (arith, ap length e), λ _. ground (arith, ap length e)))
        | inr h ↦ rw (h, charge_depth) (returns (ground (arith, ap length e)))
      ]

  charge_kind-Returns :
      (kind : SpanKind) (c : ScanState × Bool)
      → Charged b c
      → Returns (Deepened kind) (charge_kind kind c)
  unfolding charge_kind
  charge_kind-Returns kind (s, true) r = elim (Bool-cases (is_container kind)) [
    | inl h ↦ rw (h, charge_kind) (charge_depth-Returns kind s s.frames refl r)
    | inr h ↦ rw (h, charge_kind) (returns (r, λ z. cc))
  ]
  charge_kind-Returns kind (s, false) (_, _, r) = returns r

  pub charge_value-Returns :
      (s : ScanState) (token : TokenKind) (kind : SpanKind)
      → Running b s
      → Returns (Deepened kind) (charge_value s token kind b)
  unfolding charge_value
  charge_value-Returns s token kind r =
      let counted = min (b.values_remaining + 1) (s.value_occurrences + 1) in
      elim (Bool-cases (leb counted b.values_remaining)) [
        | inl h ↦
            rw (h, charge_value)
              (charge_kind-Returns kind _ (charge_text-Charged _ token (ground arith)))
        | inr h ↦ rw (h, charge_value) (returns (ground arith))
      ]

  length-open_frame :
      (kind : SpanKind) (segment : Option Segment) (frames : List ScanFrame)
      → length (open_frame kind segment frames)
        ≡ length frames + (if is_container kind then 1 else 0)
  length-open_frame SpanKind.record_span segment frames = omega arith
  length-open_frame SpanKind.array_span segment frames = omega arith
  length-open_frame _ segment frames = omega arith

  pub commit_value-Running :
      (kind : SpanKind) (s : ScanState) (frames : List ScanFrame)
      → s.frames ≡ frames
      → Deepened kind (s, true)
      → Running b (commit_value s kind frames)
  unfolding commit_value
  commit_value-Running kind s [] e r = ground (arith, ap length e, length-open_frame kind none [])
  commit_value-Running kind s (array f ∷ frames) e r = ground (
    arith,
    ap length e,
    length-open_frame kind (some (Segment.position f.next_index)) (
        array (record f { next_index = f.next_index + 1; state = ArrayState.after_value })
        ∷ frames),
  )
  commit_value-Running kind s (object f ∷ frames) e r = ground (
    arith,
    ap length e,
    length-open_frame kind (some (Segment.member f.key))
        (object (record f { key = []; state = ObjectState.after_value }) ∷ frames),
  )
