-- ===== src/Documents/Keys.antt =====
-- The members of an object after one of its keys
-- (packages/core/src/features/input-admission/raw-document.ts: `handleObjectFrame`).
use get_modular.Base.{
  ℕ, ◌≡◌, ◌↔◌, ◌≢◌, inl, inr, refl, List, [], ◌∷◌, ◌++◌, Bool, true, false, arith, contains, Text,
  text_key, subst, sym, ap, number_key,
}
use get_modular.Scanner.Strings.{RawToken, object_end, colon, comma, string}
use get_modular.Documents.Types.{ObjectState, ScanFrame}
use get_modular.Documents.Grammar.{Spells, IsMembers, end_object, next_member}
use get_modular.Documents.Accepts.{
  AfterKey, InObject, Completes, IsMore-cons, IsMembers-cons, IsMembers-intro,
}

module _ (bytes : List ℕ) (keys : List Text) (outer : List ScanFrame) (seen : Bool) where
  -- The tokens end an object in such a state, and the frames round it.
  abbrev pub InBody : ObjectState → List RawToken → Type 0
  InBody at ts =
      (rest : List RawToken) × InObject bytes at keys ts rest × Completes bytes outer seen rest

  module _ (t : RawToken) where
    pub not_key :
        (ts rest : List RawToken)
        → ((n : ℕ) (w : Bool) → t.kind ≢ string n w)
        → ¬ (IsMembers bytes keys (t ∷ ts) rest)
    not_key ts rest k m =
        (let (_, (n, w, e, _), _, _) = IsMembers-cons bytes keys t ts rest m in k n w e)

    pub first_key-end :
        t.kind ≡ object_end
        → (ts : List RawToken)
        → Completes bytes outer seen ts ↔ InBody ObjectState.first_key (t ∷ ts)
    first_key-end e ts = (
      λ c. (ts, inl (e, refl), c),
      λ (rest, h, c). elim h [
        | inl (_, same) ↦ subst (Completes bytes outer seen) (sym same) c
        | inr m ↦ absurd (not_key ts rest (λ n w z. cc) m)
      ],
    )

    pub after_value-end :
        t.kind ≡ object_end
        → (ts : List RawToken)
        → Completes bytes outer seen ts ↔ InBody ObjectState.after_value (t ∷ ts)
    after_value-end e ts = (
      λ c. (ts, end_object e, c),
      λ (rest, h, c). elim (IsMore-cons bytes keys t ts rest h) [
        | inl (_, same) ↦ subst (Completes bytes outer seen) (sym same) c
        | inr (e', _) ↦ absurd (cc)
      ],
    )

    pub after_value-comma :
        t.kind ≡ comma
        → (ts : List RawToken) → InBody ObjectState.key ts ↔ InBody ObjectState.after_value (t ∷ ts)
    after_value-comma e ts = (
      λ (rest, m, c). (rest, next_member e m, c),
      λ (rest, h, c). elim (IsMore-cons bytes keys t ts rest h) [
        | inl (closed, _) ↦ absurd (cc)
        | inr (_, m) ↦ (rest, m, c)
      ],
    )

    pub after_value-none :
        t.kind ≢ object_end
        → t.kind ≢ comma
        → (ts : List RawToken) → ¬ (InBody ObjectState.after_value (t ∷ ts))
    after_value-none no_end no_comma ts (rest, h, c) = elim (IsMore-cons bytes keys t ts rest h) [
      | inl (e, _) ↦ no_end e
      | inr (e, _) ↦ no_comma e
    ]

    pub colon_step :
        t.kind ≡ colon
        → (ts : List RawToken) → InBody ObjectState.value ts ↔ InBody ObjectState.colon (t ∷ ts)
    colon_step e ts = (λ (rest, v, c). (rest, (e, v), c), λ (rest, (_, v), c). (rest, v, c))

    pub first_key-key :
        t.kind ≢ object_end
        → (ts : List RawToken)
        → InBody ObjectState.key (t ∷ ts) ↔ InBody ObjectState.first_key (t ∷ ts)
    first_key-key no_end ts = (
      λ (rest, m, c). (rest, inr m, c),
      λ (rest, h, c). elim h [ inl (e, _) ↦ absurd (no_end e) | inr m ↦ (rest, m, c) ],
    )

module _ (bytes : List ℕ) (keys : List Text) (outer : List ScanFrame) (seen : Bool) (t : RawToken)
    (key : Text) (spells : Spells bytes t key) where
  same_key : (other : Text) → Spells bytes t other → other ≡ key
  same_key other (n, w, e, d) = ground (arith, spells.3)

  pub key_repeats :
      contains keys key ≡ true
      → (ts : List RawToken) → ¬ (InBody bytes keys outer seen ObjectState.key (t ∷ ts))
  key_repeats old ts (rest, m, c) =
      let (other, s, fresh, _) = IsMembers-cons bytes keys t ts rest m in
      let same = same_key other s in absurd (cc (ap (contains keys) same))

  pub key_step :
      contains keys key ≡ false
      → (ts : List RawToken)
      → InBody bytes (keys ++ key ∷ []) outer seen ObjectState.colon ts
        ↔ InBody bytes keys outer seen ObjectState.key (t ∷ ts)
  key_step fresh ts = (
    λ (rest, a, c). (rest, IsMembers-intro bytes keys t ts rest key spells fresh a, c),
    λ (rest, m, c).
        (let (other, s, _, a) = IsMembers-cons bytes keys t ts rest m in
          (rest, subst (λ k. AfterKey bytes (keys ++ k ∷ []) ts rest) (same_key other s) a, c)),
  )
