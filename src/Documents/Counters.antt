-- ===== src/Documents/Counters.antt =====
-- The counters of the scan (packages/core/src/features/input-admission/raw-document.ts).
use get_modular.Base.{
  ℕ, ◌+◌, ◌≤◌, ◌≡◌, refl, ap, List, [], ◌∷◌, Option, none, some, Bool, true, false, arith,
  number_key, length, Text, inl, inr, if◌then◌else◌,
}
use get_modular.Base.Outcome.{Returns, returns, Returns-bind}
use get_modular.Scanner.Strings.{RawToken, TokenKind, string, invalid, end_of_input}
use get_modular.Scanner.Cursor.{decode_string, text}
use get_modular.Documents.Types.{
  RawDocumentBudget, Stop, SpanKind, ObjectState, ObjectFrame, ArrayFrame, ArrayState, ScanFrame,
  object, array, ScanState, FrameResult,
}
use get_modular.Documents.Frames.{
  read_key, decode_key, take_key, handle_object_frame, handle_array_frame, handle_frame_token,
  key_of_text, charge_string, lexical_kind,
}
use get_modular.Documents.Scan.{read_value, after_frame, scan_round, after_charge, unless_stopped}
use get_modular.Documents.Charges.{
  Charged, Decodes, Deepened, Handled, Rounded, Running, Running-Ended, charge_string-Charged,
  charge_value-Returns, commit_value-Running, frames-charge_string,
}

module _ (b : RawDocumentBudget) where
  after_charge-Rounded :
      (kind : SpanKind) (c : ScanState × Bool) → Deepened b kind c → Rounded b (after_charge kind c)
  after_charge-Rounded kind (s, true) r = commit_value-Running b kind s s.frames refl r
  after_charge-Rounded kind (s, false) r = r

  read_value-Returns :
      (s : ScanState) (token : TokenKind) (kind : Option SpanKind)
      → Running b s
      → Returns (Rounded b) (read_value b s token kind)
  unfolding read_value
  read_value-Returns s token none r = returns (Running-Ended b s r)
  read_value-Returns s token (some kind) r =
      Returns-bind (charge_value-Returns b s token kind r)
        λ c p. returns (after_charge-Rounded kind c p)

  unless_stopped-Rounded :
      (s : ScanState) (stop : Option Stop)
      → s.stopped_by ≡ stop
      → Handled b (s, FrameResult.go_on)
      → Rounded b (unless_stopped s stop)
  unless_stopped-Rounded s none e (inl r) = r
  unless_stopped-Rounded s none e (inr (stop, f, r)) = absurd (cc)
  unless_stopped-Rounded s (some stop) e (inl r) = absurd (cc (r.going))
  unless_stopped-Rounded s (some stop) e (inr (_, f, r)) = r

  after_frame-Returns :
      (token : TokenKind) (h : ScanState × FrameResult)
      → Handled b h
      → Returns (Rounded b) (after_frame b token h)
  unfolding after_frame
  after_frame-Returns token (s, FrameResult.go_on) r =
      returns (unless_stopped-Rounded s s.stopped_by refl r)
  after_frame-Returns token (s, FrameResult.invalid) r = returns (Running-Ended b s r)
  after_frame-Returns token (s, FrameResult.value) r =
      read_value-Returns s token (lexical_kind token) r

  module _ (bytes : List ℕ) (outer : List ScanFrame) (current : RawToken) where
    take_key-Running :
        (s : ScanState) (frame : ObjectFrame) (key : Text)
        → length outer + 1 ≤ length s.frames
        → Running b s
        → Running b (take_key s frame outer key)
    unfolding take_key
    take_key-Running s frame key l r = ground arith

    decode_key-Returns :
        (c : ScanState × Bool) (frame : ObjectFrame) (t : Text)
        → length outer + 1 ≤ length c.0.frames
        → decode_string bytes current.start current.stop ≡ some (text t)
        → Charged b c
        → Returns (Handled b) (decode_key bytes c frame outer current)
    unfolding decode_key key_of_text
    decode_key-Returns (s, true) frame t l e r =
        rw (e, key_of_text) (returns (inl (take_key-Running s frame t l r)))
    decode_key-Returns (s, false) frame t l e r = returns (inr r)

    read_key-Returns :
        (s : ScanState) (frame : ObjectFrame) (kind : TokenKind)
        → length outer + 1 ≤ length s.frames
        → Decodes bytes current kind
        → Running b s
        → Returns (Handled b) (read_key bytes b s frame outer current kind)
    unfolding read_key
    read_key-Returns s frame (string n w) l d r =
        let (t, e) = d n w refl in
        decode_key-Returns (charge_string s n b) frame t (rw (frames-charge_string b s n) l) e
          (charge_string-Charged b s n r)
    read_key-Returns s frame _ l d r = returns r

    handle_object_frame-Returns :
        (s : ScanState) (frame : ObjectFrame) (at : ObjectState) (kind : TokenKind)
        → length outer + 1 ≤ length s.frames
        → Decodes bytes current kind
        → Running b s
        → Returns (Handled b) (handle_object_frame bytes b s frame outer current at kind)
    unfolding handle_object_frame
    handle_object_frame-Returns s frame ObjectState.first_key TokenKind.object_end l d r =
        returns (inl (ground arith))
    handle_object_frame-Returns s frame ObjectState.first_key kind l d r =
        read_key-Returns s frame kind l d r
    handle_object_frame-Returns s frame ObjectState.key kind l d r =
        read_key-Returns s frame kind l d r
    handle_object_frame-Returns s frame ObjectState.colon TokenKind.colon l d r =
        returns (inl (ground arith))
    handle_object_frame-Returns s frame ObjectState.after_value TokenKind.object_end l d r =
        returns (inl (ground arith))
    handle_object_frame-Returns s frame ObjectState.after_value TokenKind.comma l d r =
        returns (inl (ground arith))
    handle_object_frame-Returns s frame _ _ l d r = returns r

    handle_array_frame-Handled :
        (s : ScanState) (frame : ArrayFrame) (at : ArrayState) (kind : TokenKind)
        → length outer + 1 ≤ length s.frames
        → Running b s
        → Handled b (handle_array_frame s frame outer at kind)
    unfolding handle_array_frame
    handle_array_frame-Handled s frame ArrayState.first_value TokenKind.array_end l r =
        inl (ground arith)
    handle_array_frame-Handled s frame ArrayState.after_value TokenKind.array_end l r =
        inl (ground arith)
    handle_array_frame-Handled s frame ArrayState.after_value TokenKind.comma l r =
        inl (ground arith)
    handle_array_frame-Handled s frame _ _ l r = r

  root-Handled :
      (s : ScanState) (seen : Bool)
      → Running b s
      → Handled b (s, if seen then FrameResult.invalid else FrameResult.value)
  root-Handled s true r = r
  root-Handled s false r = r

  handle_frame_token-Returns :
      (bytes : List ℕ) (s : ScanState) (current : RawToken) (frames : List ScanFrame)
      (kind : TokenKind)
      → s.frames ≡ frames
      → Decodes bytes current kind
      → Running b s
      → Returns (Handled b) (handle_frame_token bytes b s current frames kind)
  unfolding handle_frame_token
  handle_frame_token-Returns bytes s current (object f ∷ outer) kind e d r =
      handle_object_frame-Returns bytes outer current s f f.state kind (omega (arith, ap length e))
        d r
  handle_frame_token-Returns bytes s current (array f ∷ outer) kind e d r = returns (
      handle_array_frame-Handled bytes outer current s f f.state kind (omega (arith, ap length e))
        r)
  handle_frame_token-Returns bytes s current [] kind e d r = returns (root-Handled s s.root_seen r)

  -- A round returns, and keeps the counters.
  pub scan_round-Returns :
      (bytes : List ℕ) (s : ScanState) (current : RawToken) (kind : TokenKind)
      → Decodes bytes current kind
      → Running b s
      → Returns (Rounded b) (scan_round bytes b s current kind)
  unfolding scan_round
  scan_round-Returns bytes s current invalid d r = returns (Running-Ended b s r)
  scan_round-Returns bytes s current end_of_input d r = returns (Running-Ended b s r)
  scan_round-Returns bytes s current kind d r =
      Returns-bind (handle_frame_token-Returns bytes s current s.frames kind refl d r)
        λ h p. after_frame-Returns kind h p
