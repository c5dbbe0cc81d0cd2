-- ===== src/Documents/Steps.antt =====
-- What a token does to what the frames accept
-- (packages/core/src/features/input-admission/raw-document.ts: the frame handlers and `commitValue`).
use get_modular.Base.{
  ℕ, ◌+◌, ◌≡◌, ◌⊎◌, ◌↔◌, ◌≢◌, refl, List, [], ◌∷◌, Option, none, some, Bool, true, arith, text_key,
  subst, sym, number_key,
}
use get_modular.Scanner.Strings.{
  RawToken, TokenKind, object_start, array_start, string, number, true_literal, false_literal,
  null_literal,
}
use get_modular.Documents.Types.{
  ObjectState, ArrayState, ScanFrame, object, array, ScanState, SpanKind, Segment, FrameResult,
}
use get_modular.Documents.Frames.{lexical_kind, open_frame, commit_value}
use get_modular.Documents.Grammar.{IsScalar, IsValue}
use get_modular.Documents.Accepts.{
  Completes, Accepts, Opened, IsValue-iff, IsObject-iff, IsArray-iff,
}

-- The frames once a value has been read.
abbrev pub settled : List ScanFrame → List ScanFrame
settled [] = []
settled (object f ∷ fs) = object (record f { key = []; state = ObjectState.after_value }) ∷ fs
settled (array f ∷ fs) =
    array (record f { next_index = f.next_index + 1; state = ArrayState.after_value }) ∷ fs

abbrev pub seen_after : List ScanFrame → Bool → Bool
seen_after [] seen = true
seen_after (f ∷ fs) seen = seen

abbrev pub segment_in : List ScanFrame → Option Segment
segment_in [] = none
segment_in (object f ∷ fs) = some (Segment.member f.key)
segment_in (array f ∷ fs) = some (Segment.position f.next_index)

pub commit_value-frames :
    (s : ScanState) (kind : SpanKind) (fs : List ScanFrame)
    → s.frames ≡ fs
    → ((commit_value s kind fs).frames ≡ open_frame kind (segment_in fs) (settled fs))
      × ((commit_value s kind fs).root_seen ≡ seen_after fs s.root_seen)
      × ((commit_value s kind fs).duplicate_key ≡ s.duplicate_key)
unfolding commit_value
commit_value-frames s kind [] e = (refl, refl, refl)
commit_value-frames s kind (object f ∷ fs) e = (refl, refl, refl)
commit_value-frames s kind (array f ∷ fs) e = (refl, refl, refl)

-- `lexicalKind`, with some kind of value where there is none.
span_of : TokenKind → SpanKind
span_of object_start = SpanKind.record_span
span_of array_start = SpanKind.array_span
span_of (string n w) = SpanKind.string_span
span_of number = SpanKind.number_span
span_of null_literal = SpanKind.null_span
span_of _ = SpanKind.boolean_span

span_of_lem :
    (kind : TokenKind) (span : SpanKind) → lexical_kind kind ≡ some span → span_of kind ≡ span
unfolding span_of lexical_kind
span_of_lem kind span e = ground arith

module _ (bytes : List ℕ) where
  -- The list begins with a value, after which the frames accept the rest.
  abbrev pub Expects : List ScanFrame → Bool → List RawToken → Type 0
  Expects fs seen ts =
      (more : List RawToken) × IsValue bytes ts more
      × Completes bytes (settled fs) (seen_after fs seen) more

  IsScalar-Completes :
      (kind : TokenKind) (fs : List ScanFrame) (seen : Bool) (ts : List RawToken)
      → IsScalar kind
      → Completes bytes fs seen ts
        ↔ ((rest : List RawToken) × (IsScalar kind × (ts ≡ rest)) × Completes bytes fs seen rest)
  IsScalar-Completes kind fs seen ts s = (
    λ c. (ts, (s, refl), c),
    λ (rest, (_, same), c). subst (Completes bytes fs seen) (sym same) c,
  )

  open_frame-Completes :
      (kind : TokenKind) (segment : Option Segment) (fs : List ScanFrame) (seen : Bool)
      (ts : List RawToken)
      → lexical_kind kind ≢ none
      → Completes bytes (open_frame (span_of kind) segment fs) seen ts
        ↔ ((rest : List RawToken) × Opened bytes kind ts rest × Completes bytes fs seen rest)
  unfolding lexical_kind span_of
  open_frame-Completes object_start segment fs seen ts e = (
    λ (rest, h, c). (rest, (IsObject-iff bytes ts rest).1 h, c),
    λ (rest, h, c). (rest, (IsObject-iff bytes ts rest).0 h, c),
  )
  open_frame-Completes array_start segment fs seen ts e = (
    λ (rest, h, c). (rest, (IsArray-iff bytes ts rest).1 h, c),
    λ (rest, h, c). (rest, (IsArray-iff bytes ts rest).0 h, c),
  )
  open_frame-Completes (string n w) segment fs seen ts e =
      IsScalar-Completes (string n w) fs seen ts tt
  open_frame-Completes number segment fs seen ts e = IsScalar-Completes number fs seen ts tt
  open_frame-Completes true_literal segment fs seen ts e =
      IsScalar-Completes true_literal fs seen ts tt
  open_frame-Completes false_literal segment fs seen ts e =
      IsScalar-Completes false_literal fs seen ts tt
  open_frame-Completes null_literal segment fs seen ts e =
      IsScalar-Completes null_literal fs seen ts tt
  open_frame-Completes _ segment fs seen ts e = absurd (e refl)

  -- A container or a scalar in the place of a value.
  pub commit_value-Completes :
      (s : ScanState) (fs : List ScanFrame) (t : RawToken) (span : SpanKind) (ts : List RawToken)
      → s.frames ≡ fs
      → lexical_kind t.kind ≡ some span
      → Accepts bytes (commit_value s span fs) ts ↔ Expects fs s.root_seen (t ∷ ts)
  commit_value-Completes s fs t span ts same e =
      let (frames, seen, _) = commit_value-frames s span fs same in
      let c =
        open_frame-Completes t.kind (segment_in fs) (settled fs) (seen_after fs s.root_seen) ts
          (λ z. cc) in
      rw (frames, seen, sym (span_of_lem t.kind span e))
        (
          λ a.
              (let (rest, o, f) = c.0 a in
                (rest, (IsValue-iff bytes t t.kind ts rest refl).1 o, f)),
          λ (rest, v, f). c.1 (rest, (IsValue-iff bytes t t.kind ts rest refl).0 v, f),
        )

  Opened-none :
      (kind : TokenKind) (ts more : List RawToken)
      → lexical_kind kind ≡ none
      → ¬ (Opened bytes kind ts more)
  unfolding lexical_kind
  Opened-none object_start ts more e o = absurd (cc)
  Opened-none array_start ts more e o = absurd (cc)
  Opened-none (string n w) ts more e o = absurd (cc)
  Opened-none number ts more e o = absurd (cc)
  Opened-none true_literal ts more e o = absurd (cc)
  Opened-none false_literal ts more e o = absurd (cc)
  Opened-none null_literal ts more e o = absurd (cc)
  Opened-none _ ts more e o = o.0

  -- A token that begins no value.
  pub Expects-none :
      (fs : List ScanFrame) (seen : Bool) (t : RawToken) (ts : List RawToken)
      → lexical_kind t.kind ≡ none
      → ¬ (Expects fs seen (t ∷ ts))
  Expects-none fs seen t ts e (more, v, _) =
      Opened-none t.kind ts more e ((IsValue-iff bytes t t.kind ts more refl).0 v)

  -- Every continuation.
  abbrev pub Never : ScanState → RawToken → Type 0
  Never s t = (ts : List RawToken) → ¬ (Accepts bytes s (t ∷ ts))

  -- The token is taken: the new state accepts what followed it, or a key came twice.
  abbrev pub Taken : ScanState → RawToken → ScanState → Type 0
  Taken s t s' =
      ((s'.duplicate_key ≡ s.duplicate_key)
        × ((ts : List RawToken) → Accepts bytes s' ts ↔ Accepts bytes s (t ∷ ts)))
      ⊎ (s'.duplicate_key ≡ true) × Never s t

  abbrev pub Handled : ScanState → RawToken → ScanState × FrameResult → Type 0
  Handled s t (s', FrameResult.go_on) = s'.stopped_by ≡ none → Taken s t s'
  Handled s t (s', FrameResult.invalid) = (s' ≡ s) × Never s t
  Handled s t (s', FrameResult.value) =
      (s' ≡ s)
      × ((ts : List RawToken) → Accepts bytes s (t ∷ ts) ↔ Expects s.frames s.root_seen (t ∷ ts))
