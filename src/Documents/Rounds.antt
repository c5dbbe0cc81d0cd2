-- ===== src/Documents/Rounds.antt =====
-- A round of the scan and what the frames accept
-- (packages/core/src/features/input-admission/raw-document.ts: `scanRawDocument`).
use get_modular.Base.{
  ℕ, ◌+◌, ◌≡◌, ◌↔◌, ◌≢◌, ◌∙◌, inl, inr, refl, List, [], ◌∷◌, Option, none, some, Bool, true, false,
  number_key, subst, ap, Bool-cases, leb, min, length, if◌then◌else◌,
}
use get_modular.Base.Outcome.{Returns, returns, Returns-bind, Returns-value, Returns-mono}
use get_modular.Scanner.Strings.{RawToken, TokenKind, string, invalid, end_of_input}
use get_modular.Documents.Types.{
  RawDocumentBudget, Stop, SpanKind, ScanFrame, object, array, ScanState, FrameResult, ObjectState,
  ArrayState, ObjectFrame, ArrayFrame,
}
use get_modular.Documents.Frames.{
  handle_frame_token, handle_object_frame, handle_array_frame, read_key, lexical_kind, charge_value,
  charge_kind, charge_text, charge_depth, is_container,
}
use get_modular.Documents.Scan.{
  Round, goes_on, breaks, read_value, after_frame, scan_round, after_charge, unless_stopped,
}
use get_modular.Documents.Grammar.{IsValue}
use get_modular.Documents.Accepts.{Completes, Accepts}
use get_modular.Documents.Charges.{Decodes}
use get_modular.Documents.Steps.{
  Expects, Expects-none, Never, Taken, Handled, commit_value-frames, commit_value-Completes,
}
use get_modular.Documents.Members.{
  Kept, SameFrames, charge_string-Kept, handle_object_frame-Returns,
}
use get_modular.Documents.Elements.{handle_array_frame-Handled}

-- What a charge does to the frames.
module _ (b : RawDocumentBudget) where
  charge_text-Kept : (s : ScanState) (kind : TokenKind) → Kept s (charge_text s kind b)
  unfolding charge_text
  charge_text-Kept s (string n w) = charge_string-Kept s n b
  charge_text-Kept s _ = record { frames = refl; root_seen = refl; duplicate_key = refl }

  charge_depth-Kept :
      (s : ScanState) (frames : List ScanFrame) → Returns (Kept s) (charge_depth s frames)
  unfolding charge_depth
  charge_depth-Kept s [] =
      returns (record { frames = refl; root_seen = refl; duplicate_key = refl })
  charge_depth-Kept s (frame ∷ frames) = elim (Bool-cases (leb (length (frame ∷ frames) + 1) 32)) [
    | inl h ↦
        rw (h, charge_depth)
          (returns (record { frames = refl; root_seen = refl; duplicate_key = refl }))
    | inr h ↦ rw (h, charge_depth) (returns (λ z. cc))
  ]

  Kept-trans : (s s' : ScanState) (c : ScanState × Bool) → SameFrames s s' → Kept s' c → Kept s c
  Kept-trans s s' (last, true) k l = record {
    frames = l.frames ∙ k.frames;
    root_seen = l.root_seen ∙ k.root_seen;
    duplicate_key = l.duplicate_key ∙ k.duplicate_key;
  }
  Kept-trans s s' (last, false) k l = l

  charge_kind-Kept :
      (s : ScanState) (kind : SpanKind) (c : ScanState × Bool)
      → Kept s c
      → Returns (Kept s) (charge_kind kind c)
  unfolding charge_kind
  charge_kind-Kept s kind (s', true) k = elim (Bool-cases (is_container kind)) [
    | inl h ↦
        rw (h, charge_kind)
          (Returns-mono (λ c l. Kept-trans s s' c k l) (charge_depth-Kept s' s'.frames))
    | inr h ↦ rw (h, charge_kind) (returns k)
  ]
  charge_kind-Kept s kind (s', false) k = returns k

  charge_value-Kept :
      (s : ScanState) (token : TokenKind) (kind : SpanKind)
      → Returns (Kept s) (charge_value s token kind b)
  unfolding charge_value
  charge_value-Kept s token kind =
      let counted = min (b.values_remaining + 1) (s.value_occurrences + 1) in
      elim (Bool-cases (leb counted b.values_remaining)) [
        | inl h ↦
            rw (h, charge_value)
              (charge_kind-Kept s kind _ (
                Kept-trans s (record s { value_occurrences = counted }) _
                  (record { frames = refl; root_seen = refl; duplicate_key = refl })
                  (charge_text-Kept (record s { value_occurrences = counted }) token)))
        | inr h ↦ rw (h, charge_value) (returns (λ z. cc))
      ]

module _ (bytes : List ℕ) where
  root-Handled :
      (s : ScanState) (t : RawToken) (seen : Bool)
      → s.frames ≡ []
      → s.root_seen ≡ seen
      → Handled bytes s t (s, if seen then FrameResult.invalid else FrameResult.value)
  root-Handled s t true e seen = (
    refl,
    λ ts a. absurd (
        cc (
          subst (λ (fs : List ScanFrame). Completes bytes fs true (t ∷ ts)) e
            (subst (λ (x : Bool). Completes bytes s.frames x (t ∷ ts)) seen a))),
  )
  root-Handled s t false e seen = (
    refl,
    λ ts.
        rw (e, seen)
          (
            λ v. ([], v, refl),
            λ (more, v, all). subst (λ (x : List RawToken). IsValue bytes (t ∷ ts) x) all v,
          ),
  )

  handle_frame_token-Returns :
      (b : RawDocumentBudget) (s : ScanState) (t : RawToken) (frames : List ScanFrame)
      (kind : TokenKind)
      → s.frames ≡ frames
      → t.kind ≡ kind
      → Decodes bytes t kind
      → Returns (Handled bytes s t) (handle_frame_token bytes b s t frames kind)
  unfolding handle_frame_token
  handle_frame_token-Returns b s t (object f ∷ outer) kind e k d =
      handle_object_frame-Returns bytes b s t f outer e f.state kind refl k d
  handle_frame_token-Returns b s t (array f ∷ outer) kind e k d =
      returns (handle_array_frame-Handled bytes s t f outer e f.state kind refl k)
  handle_frame_token-Returns b s t [] kind e k d = returns (root-Handled s t s.root_seen e refl)

  -- What a round says of the tokens that the state accepts, if no limit stops the scan.
  abbrev pub Follows : ScanState → RawToken → Round → Type 0
  Follows s t (goes_on s') = Taken bytes s t s'
  Follows s t (breaks s') = s'.stopped_by ≡ none → (s'.invalid_json ≡ true) × Never bytes s t

  -- A value may stand here.
  abbrev Begins : ScanState → RawToken → Type 0
  Begins s t =
      (ts : List RawToken) → Accepts bytes s (t ∷ ts) ↔ Expects bytes s.frames s.root_seen (t ∷ ts)

  Expects-SameFrames :
      (s s' : ScanState) (ts : List RawToken)
      → SameFrames s s'
      → Expects bytes s'.frames s'.root_seen ts ↔ Expects bytes s.frames s.root_seen ts
  Expects-SameFrames s s' ts k = rw (k.frames, k.root_seen) (λ a. a, λ a. a)

  after_charge-Follows :
      (s : ScanState) (t : RawToken) (span : SpanKind) (c : ScanState × Bool)
      → lexical_kind t.kind ≡ some span
      → Begins s t
      → Kept s c
      → Follows s t (after_charge span c)
  after_charge-Follows s t span (s', true) e h k =
      let (_, _, d) = commit_value-frames s' span s'.frames refl in
      inl (
        d ∙ k.duplicate_key,
        λ ts.
            (let commit = commit_value-Completes bytes s' s'.frames t span ts refl e in
              let moved = Expects-SameFrames s s' (t ∷ ts) k in
              (λ a. (h ts).1 (moved.0 (commit.0 a)), λ a. commit.1 (moved.1 ((h ts).0 a)))),
      )
  after_charge-Follows s t span (s', false) e h k = λ z. absurd (k z)

  read_value-Follows :
      (b : RawDocumentBudget) (s : ScanState) (t : RawToken) (kind : TokenKind)
      (span : Option SpanKind)
      → lexical_kind t.kind ≡ span
      → Begins s t
      → Returns (Follows s t) (read_value b s kind span)
  unfolding read_value
  read_value-Follows b s t kind none e h =
      returns (λ z. (refl, λ ts a. Expects-none bytes s.frames s.root_seen t ts e ((h ts).0 a)))
  read_value-Follows b s t kind (some span) e h =
      Returns-bind (charge_value-Kept b s kind span)
        λ c k. returns (after_charge-Follows s t span c e h k)

  unless_stopped-Follows :
      (s s' : ScanState) (t : RawToken) (stop : Option Stop)
      → s'.stopped_by ≡ stop
      → Handled bytes s t (s', FrameResult.go_on)
      → Follows s t (unless_stopped s' stop)
  unless_stopped-Follows s s' t none e h = h e
  unless_stopped-Follows s s' t (some stop) e h = λ z. absurd (cc)

  after_frame-Follows :
      (b : RawDocumentBudget) (s : ScanState) (t : RawToken) (kind : TokenKind)
      (h : ScanState × FrameResult)
      → t.kind ≡ kind
      → Handled bytes s t h
      → Returns (Follows s t) (after_frame b kind h)
  unfolding after_frame
  after_frame-Follows b s t kind (s', FrameResult.go_on) k h =
      returns (unless_stopped-Follows s s' t s'.stopped_by refl h)
  after_frame-Follows b s t kind (s', FrameResult.invalid) k h = returns (λ z. (refl, h.1))
  after_frame-Follows b s t kind (s', FrameResult.value) k h =
      rw (h.0) (read_value-Follows b s t kind (lexical_kind kind) (ap lexical_kind k) h.1)

  -- A token that is neither the end nor invalid.
  pub scan_round-Follows :
      (b : RawDocumentBudget) (s : ScanState) (t : RawToken) (kind : TokenKind)
      → t.kind ≡ kind
      → kind ≢ invalid
      → kind ≢ end_of_input
      → Decodes bytes t kind
      → Returns (Follows s t) (scan_round bytes b s t kind)
  unfolding scan_round
  scan_round-Follows b s t invalid k i e d = absurd (i refl)
  scan_round-Follows b s t end_of_input k i e d = absurd (e refl)
  scan_round-Follows b s t kind k i e d =
      Returns-bind (handle_frame_token-Returns b s t s.frames kind refl k d)
        λ h p. after_frame-Follows b s t kind h k p

  module _ (b : RawDocumentBudget) (s : ScanState) (t : RawToken) (k : t.kind ≡ invalid) where
    Begins-Never : Begins s t → Never bytes s t
    unfolding lexical_kind
    Begins-Never h ts a =
        Expects-none bytes s.frames s.root_seen t ts (ap lexical_kind k) ((h ts).0 a)

    invalid-object :
        (f : ObjectFrame) (outer : List ScanFrame) (at : ObjectState)
        → s.frames ≡ object f ∷ outer
        → f.state ≡ at
        → Never bytes s t
    unfolding handle_object_frame read_key
    invalid-object f outer ObjectState.value e q =
        Begins-Never
          (Returns-value _ (
            handle_object_frame-Returns bytes b s t f outer e ObjectState.value invalid q k
              (λ n w z. cc))).1
    invalid-object f outer at e q =
        (Returns-value (s, FrameResult.invalid)
          (handle_object_frame-Returns bytes b s t f outer e at invalid q k (λ n w z. cc))).1

    invalid-array :
        (f : ArrayFrame) (outer : List ScanFrame) (at : ArrayState)
        → s.frames ≡ array f ∷ outer
        → f.state ≡ at
        → Never bytes s t
    unfolding handle_array_frame
    invalid-array f outer ArrayState.after_value e q =
        (handle_array_frame-Handled bytes s t f outer e ArrayState.after_value invalid q k).1
    invalid-array f outer at e q =
        Begins-Never (handle_array_frame-Handled bytes s t f outer e at invalid q k).1

    invalid-root : (seen : Bool) → s.frames ≡ [] → s.root_seen ≡ seen → Never bytes s t
    invalid-root true e q = (root-Handled s t true e q).1
    invalid-root false e q = Begins-Never (root-Handled s t false e q).1

    invalid-frames : (frames : List ScanFrame) → s.frames ≡ frames → Never bytes s t
    invalid-frames [] e = invalid-root s.root_seen e refl
    invalid-frames (object f ∷ outer) e = invalid-object f outer f.state e refl
    invalid-frames (array f ∷ outer) e = invalid-array f outer f.state e refl

    -- An invalid token is never accepted.
    pub invalid-Never : Never bytes s t
    invalid-Never = invalid-frames s.frames refl
