-- ===== src/Documents/Members.antt =====
-- A token in an object
-- (packages/core/src/features/input-admission/raw-document.ts: `handleObjectFrame`).
use get_modular.Base.{
  ℕ, ◌+◌, ◌≡◌, ◌↔◌, ◌≢◌, inl, inr, refl, List, [], ◌∷◌, ◌++◌, none, some, Bool, true, false,
  contains, Text, text_key, subst, sym, Bool-cases, number_key, leb, min,
}
use get_modular.Base.Outcome.{Returns, returns}
use get_modular.Scanner.Strings.{RawToken, TokenKind, object_end, colon, comma, string}
use get_modular.Scanner.Cursor.{decode_string, text}
use get_modular.Documents.Types.{
  ObjectState, ObjectFrame, ScanFrame, object, ScanState, RawDocumentBudget,
}
use get_modular.Documents.Frames.{
  handle_object_frame, read_key, decode_key, take_key, key_of_text, charge_string,
}
use get_modular.Documents.Grammar.{Spells}
use get_modular.Documents.Accepts.{Completes, Accepts}
use get_modular.Documents.Charges.{Decodes}
use get_modular.Documents.Steps.{Expects, Never, Taken, Handled}
use get_modular.Documents.Keys.{
  InBody, after_value-none, after_value-comma, after_value-end, colon_step, first_key-key,
  first_key-end, not_key, key_repeats, key_step,
}

-- Counters and flags apart, the state is the same.
pub record SameFrames (s s' : ScanState) : Type 0 where
  pub frames : s'.frames ≡ s.frames
  pub root_seen : s'.root_seen ≡ s.root_seen
  pub duplicate_key : s'.duplicate_key ≡ s.duplicate_key

-- A refused charge stops the scan.
abbrev pub Kept : ScanState → ScanState × Bool → Type 0
Kept s (s', true) = SameFrames s s'
Kept s (s', false) = s'.stopped_by ≢ none

pub charge_string-Kept :
    (s : ScanState) (n : ℕ) (b : RawDocumentBudget) → Kept s (charge_string s n b)
unfolding charge_string
charge_string-Kept s n b =
    elim (Bool-cases
      (leb (min (b.string_bytes_remaining + 1) (s.string_bytes + n)) b.string_bytes_remaining)) [
        | inl h ↦
            rw (h, charge_string) (record { frames = refl; root_seen = refl; duplicate_key = refl })
        | inr h ↦ rw (h, charge_string) (λ z. cc)
      ]

module _ (bytes : List ℕ) (b : RawDocumentBudget) (s : ScanState) (t : RawToken) (f : ObjectFrame)
    (outer : List ScanFrame) (same : s.frames ≡ object f ∷ outer) where
  enter :
      (at : ObjectState) (ts : List RawToken)
      → f.state ≡ at
      → Accepts bytes s ts ↔ InBody bytes f.keys outer s.root_seen at ts
  enter at ts e = (
    λ a.
        subst (λ (x : ObjectState). InBody bytes f.keys outer s.root_seen x ts) e
          (subst (λ (fs : List ScanFrame). Completes bytes fs s.root_seen ts) same a),
    λ a.
        subst (λ (fs : List ScanFrame). Completes bytes fs s.root_seen ts) (sym same)
          (subst (λ (x : ObjectState). InBody bytes f.keys outer s.root_seen x ts) (sym e) a),
  )

  takes :
      (at : ObjectState) (s' : ScanState)
      → f.state ≡ at
      → s'.duplicate_key ≡ s.duplicate_key
      → ((ts : List RawToken)
          → Accepts bytes s' ts ↔ InBody bytes f.keys outer s.root_seen at (t ∷ ts))
      → Taken bytes s t s'
  takes at s' e d step = inl (
    d,
    λ ts. (
      λ a. (enter at (t ∷ ts) e).1 ((step ts).0 a),
      λ a. (step ts).1 ((enter at (t ∷ ts) e).0 a),
    ),
  )

  never :
      (at : ObjectState)
      → f.state ≡ at
      → ((ts : List RawToken) → ¬ (InBody bytes f.keys outer s.root_seen at (t ∷ ts)))
      → Never bytes s t
  never at e refuses ts a = refuses ts ((enter at (t ∷ ts) e).0 a)

  take_key-Taken :
      (at : ObjectState) (s' : ScanState) (key : Text)
      → f.state ≡ at
      → SameFrames s s'
      → Spells bytes t key
      → ((ts : List RawToken)
          → InBody bytes f.keys outer s.root_seen ObjectState.key (t ∷ ts)
            ↔ InBody bytes f.keys outer s.root_seen at (t ∷ ts))
      → Taken bytes s t (take_key s' f outer key)
  unfolding take_key
  take_key-Taken at s' key e k spells conv = elim (Bool-cases (contains f.keys key)) [
    | inl old ↦
        rw (old, take_key)
          (inr (
            refl,
            never at e λ ts a.
                key_repeats bytes f.keys outer s.root_seen t key spells old ts ((conv ts).1 a),
          ))
    | inr fresh ↦
        rw (fresh, take_key)
          (takes at
            (record s' {
              frames =
                  object
                    (record f { keys = f.keys ++ key ∷ []; key = key; state = ObjectState.colon })
                  ∷ outer;
            })
            e k.duplicate_key
            λ ts.
              (let step = key_step bytes f.keys outer s.root_seen t key spells fresh ts in
                rw (k.root_seen) (λ a. (conv ts).0 (step.0 a), λ a. step.1 ((conv ts).1 a))))
  ]

  decode_key-Returns :
      (at : ObjectState) (c : ScanState × Bool) (n : ℕ) (w : Bool) (key : Text)
      → f.state ≡ at
      → Kept s c
      → t.kind ≡ string n w
      → decode_string bytes t.start t.stop ≡ some (text key)
      → ((ts : List RawToken)
          → InBody bytes f.keys outer s.root_seen ObjectState.key (t ∷ ts)
            ↔ InBody bytes f.keys outer s.root_seen at (t ∷ ts))
      → Returns (Handled bytes s t) (decode_key bytes c f outer t)
  unfolding decode_key key_of_text
  decode_key-Returns at (s', true) n w key e k kind d conv =
      rw (d, key_of_text) (returns (λ z. take_key-Taken at s' key e k (n, w, kind, d) conv))
  decode_key-Returns at (s', false) n w key e k kind d conv = returns (λ z. absurd (k z))

  read_key-Returns :
      (at : ObjectState) (kind : TokenKind)
      → f.state ≡ at
      → t.kind ≡ kind
      → Decodes bytes t kind
      → ((ts : List RawToken)
          → InBody bytes f.keys outer s.root_seen ObjectState.key (t ∷ ts)
            ↔ InBody bytes f.keys outer s.root_seen at (t ∷ ts))
      → Returns (Handled bytes s t) (read_key bytes b s f outer t kind)
  unfolding read_key
  read_key-Returns at (string n w) e k d conv =
      let (key, decoded) = d n w refl in
      decode_key-Returns at (charge_string s n b) n w key e (charge_string-Kept s n b) k decoded
        conv
  read_key-Returns at _ e k d conv = returns (
    refl,
    never at e λ ts a.
        (let (rest, m, _) = (conv ts).1 a in
          not_key bytes f.keys outer s.root_seen t ts rest (λ n w z. cc) m),
  )

  value_step :
      (ts : List RawToken)
      → InBody bytes f.keys outer s.root_seen ObjectState.value ts
        ↔ Expects bytes s.frames s.root_seen ts
  value_step ts = rw same (
    λ (rest, (more, v, m), c). (more, v, (rest, m, c)),
    λ (more, v, (rest, m, c)). (rest, (more, v, m), c),
  )

  pub handle_object_frame-Returns :
      (at : ObjectState) (kind : TokenKind)
      → f.state ≡ at
      → t.kind ≡ kind
      → Decodes bytes t kind
      → Returns (Handled bytes s t) (handle_object_frame bytes b s f outer t at kind)
  unfolding handle_object_frame
  handle_object_frame-Returns ObjectState.first_key object_end e k d = returns (λ z.
      takes ObjectState.first_key (record s { frames = outer }) e refl
        (first_key-end bytes f.keys outer s.root_seen t k))
  handle_object_frame-Returns ObjectState.first_key kind e k d =
      read_key-Returns ObjectState.first_key kind e k d
        (first_key-key bytes f.keys outer s.root_seen t (λ z. cc))
  handle_object_frame-Returns ObjectState.key kind e k d =
      read_key-Returns ObjectState.key kind e k d (λ ts. (λ a. a, λ a. a))
  handle_object_frame-Returns ObjectState.colon colon e k d = returns (λ z.
      takes ObjectState.colon
        (record s { frames = object (record f { state = ObjectState.value }) ∷ outer }) e refl
        (colon_step bytes f.keys outer s.root_seen t k))
  handle_object_frame-Returns ObjectState.colon kind e k d =
      returns (refl, never ObjectState.colon e λ ts (rest, h, _). absurd (cc (h.0)))
  handle_object_frame-Returns ObjectState.value kind e k d = returns (
    refl,
    λ ts.
        (let at = enter ObjectState.value (t ∷ ts) e in
          let there = value_step (t ∷ ts) in (λ a. there.0 (at.0 a), λ x. at.1 (there.1 x))),
  )
  handle_object_frame-Returns ObjectState.after_value object_end e k d = returns (λ z.
      takes ObjectState.after_value (record s { frames = outer }) e refl
        (after_value-end bytes f.keys outer s.root_seen t k))
  handle_object_frame-Returns ObjectState.after_value comma e k d = returns (λ z.
      takes ObjectState.after_value
        (record s { frames = object (record f { state = ObjectState.key }) ∷ outer }) e refl
        (after_value-comma bytes f.keys outer s.root_seen t k))
  handle_object_frame-Returns ObjectState.after_value _ e k d = returns (
    refl,
    never ObjectState.after_value e
        (after_value-none bytes f.keys outer s.root_seen t (λ z. cc) (λ z. cc)),
  )
