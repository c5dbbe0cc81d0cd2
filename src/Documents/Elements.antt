-- ===== src/Documents/Elements.antt =====
-- A token in an array
-- (packages/core/src/features/input-admission/raw-document.ts: `handleArrayFrame`).
use get_modular.Base.{ℕ, ◌≡◌, ◌↔◌, ◌≢◌, inl, inr, refl, List, ◌∷◌, Bool, subst, sym}
use get_modular.Scanner.Strings.{RawToken, TokenKind, array_end, comma}
use get_modular.Documents.Types.{ArrayState, ArrayFrame, ScanFrame, array, ScanState, FrameResult}
use get_modular.Documents.Frames.{handle_array_frame}
use get_modular.Documents.Grammar.{end_array, next_item}
use get_modular.Documents.Accepts.{InArray, Completes, Accepts, IsItems-cons, IsValue-iff}
use get_modular.Documents.Steps.{Expects, Taken, Handled}

module _ (bytes : List ℕ) (outer : List ScanFrame) (seen : Bool) where
  -- The tokens end an array in such a state, and the frames round it.
  abbrev InBody : ArrayState → List RawToken → Type 0
  InBody at ts = (rest : List RawToken) × InArray bytes at ts rest × Completes bytes outer seen rest

  module _ (t : RawToken) where
    first_value-end :
        t.kind ≡ array_end
        → (ts : List RawToken)
        → Completes bytes outer seen ts ↔ InBody ArrayState.first_value (t ∷ ts)
    first_value-end e ts = (
      λ c. (ts, inl (e, refl), c),
      λ (rest, h, c). elim h [
        | inl (_, same) ↦ subst (Completes bytes outer seen) (sym same) c
        | inr (more, v, _) ↦ absurd ((IsValue-iff bytes t array_end ts more e).0 v).0
      ],
    )

    first_value-value :
        t.kind ≢ array_end
        → (ts : List RawToken)
        → InBody ArrayState.value (t ∷ ts) ↔ InBody ArrayState.first_value (t ∷ ts)
    first_value-value other ts = (
      λ (rest, v, c). (rest, inr v, c),
      λ (rest, h, c). elim h [ inl (e, _) ↦ absurd (other e) | inr v ↦ (rest, v, c) ],
    )

    after_value-end :
        t.kind ≡ array_end
        → (ts : List RawToken)
        → Completes bytes outer seen ts ↔ InBody ArrayState.after_value (t ∷ ts)
    after_value-end e ts = (
      λ c. (ts, end_array e, c),
      λ (rest, h, c). elim (IsItems-cons bytes t ts rest h) [
        | inl (_, same) ↦ subst (Completes bytes outer seen) (sym same) c
        | inr (e', _) ↦ absurd (cc)
      ],
    )

    after_value-comma :
        t.kind ≡ comma
        → (ts : List RawToken) → InBody ArrayState.value ts ↔ InBody ArrayState.after_value (t ∷ ts)
    after_value-comma e ts = (
      λ (rest, (more, v, m), c). (rest, next_item e v m, c),
      λ (rest, h, c). elim (IsItems-cons bytes t ts rest h) [
        | inl (closed, _) ↦ absurd (cc)
        | inr (_, m) ↦ (rest, m, c)
      ],
    )

    after_value-none :
        t.kind ≢ array_end
        → t.kind ≢ comma
        → (ts : List RawToken) → ¬ (InBody ArrayState.after_value (t ∷ ts))
    after_value-none no_end no_comma ts (rest, h, c) = elim (IsItems-cons bytes t ts rest h) [
      | inl (e, _) ↦ no_end e
      | inr (e, _) ↦ no_comma e
    ]

module _ (bytes : List ℕ) (s : ScanState) (t : RawToken) (f : ArrayFrame) (outer : List ScanFrame)
    (same : s.frames ≡ array f ∷ outer) where
  enter :
      (at : ArrayState) (ts : List RawToken)
      → f.state ≡ at
      → Accepts bytes s ts ↔ InBody bytes outer s.root_seen at ts
  enter at ts e = (
    λ a.
        subst (λ (x : ArrayState). InBody bytes outer s.root_seen x ts) e
          (subst (λ (fs : List ScanFrame). Completes bytes fs s.root_seen ts) same a),
    λ a.
        subst (λ (fs : List ScanFrame). Completes bytes fs s.root_seen ts) (sym same)
          (subst (λ (x : ArrayState). InBody bytes outer s.root_seen x ts) (sym e) a),
  )

  takes :
      (at : ArrayState) (s' : ScanState)
      → f.state ≡ at
      → s'.duplicate_key ≡ s.duplicate_key
      → ((ts : List RawToken) → Accepts bytes s' ts ↔ InBody bytes outer s.root_seen at (t ∷ ts))
      → Taken bytes s t s'
  takes at s' e d step = inl (
    d,
    λ ts. (
      λ a. (enter at (t ∷ ts) e).1 ((step ts).0 a),
      λ a. (step ts).1 ((enter at (t ∷ ts) e).0 a),
    ),
  )

  value_step :
      (ts : List RawToken)
      → InBody bytes outer s.root_seen ArrayState.value ts ↔ Expects bytes s.frames s.root_seen ts
  value_step ts = rw same (
    λ (rest, (more, v, m), c). (more, v, (rest, m, c)),
    λ (more, v, (rest, m, c)). (rest, (more, v, m), c),
  )

  begins :
      (at : ArrayState)
      → f.state ≡ at
      → ((ts : List RawToken)
          → InBody bytes outer s.root_seen ArrayState.value (t ∷ ts)
            ↔ InBody bytes outer s.root_seen at (t ∷ ts))
      → Handled bytes s t (s, FrameResult.value)
  begins at e conv = (
    refl,
    λ ts. (
      λ a. (value_step (t ∷ ts)).0 ((conv ts).1 ((enter at (t ∷ ts) e).0 a)),
      λ x. (enter at (t ∷ ts) e).1 ((conv ts).0 ((value_step (t ∷ ts)).1 x)),
    ),
  )

  pub handle_array_frame-Handled :
      (at : ArrayState) (kind : TokenKind)
      → f.state ≡ at
      → t.kind ≡ kind
      → Handled bytes s t (handle_array_frame s f outer at kind)
  unfolding handle_array_frame
  handle_array_frame-Handled ArrayState.first_value array_end e k = λ z.
      takes ArrayState.first_value (record s { frames = outer }) e refl
        (first_value-end bytes outer s.root_seen t k)
  handle_array_frame-Handled ArrayState.first_value _ e k =
      begins ArrayState.first_value e (first_value-value bytes outer s.root_seen t (λ z. cc))
  handle_array_frame-Handled ArrayState.value kind e k =
      begins ArrayState.value e (λ ts. (λ a. a, λ a. a))
  handle_array_frame-Handled ArrayState.after_value array_end e k = λ z.
      takes ArrayState.after_value (record s { frames = outer }) e refl
        (after_value-end bytes outer s.root_seen t k)
  handle_array_frame-Handled ArrayState.after_value comma e k = λ z.
      takes ArrayState.after_value
        (record s { frames = array (record f { state = ArrayState.value }) ∷ outer }) e refl
        (after_value-comma bytes outer s.root_seen t k)
  handle_array_frame-Handled ArrayState.after_value _ e k = (
    refl,
    λ ts a.
        after_value-none bytes outer s.root_seen t (λ z. cc) (λ z. cc) ts
          ((enter ArrayState.after_value (t ∷ ts) e).0 a),
  )
