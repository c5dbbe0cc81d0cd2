-- ===== src/Documents/Accepts.antt =====
-- What the frames of a scan still accept
-- (packages/core/src/features/input-admission/raw-document.ts: `ScanFrame`).
use get_modular.Base.{
  ℕ, ◌≡◌, ◌⊎◌, ◌↔◌, inl, inr, refl, List, [], ◌∷◌, ◌++◌, Bool, true, false, contains, Text,
  text_key, subst, sym,
}
use get_modular.Scanner.Strings.{
  RawToken, TokenKind, object_start, object_end, array_start, array_end, colon, comma,
}
use get_modular.Documents.Types.{ObjectState, ArrayState, ScanFrame, object, array, ScanState}
use get_modular.Documents.Grammar.{
  IsScalar, Spells, IsValue, IsObject, IsMembers, IsMore, IsArray, IsItems, scalar, empty_object,
  members, member, end_object, next_member, empty_array, items, end_array, next_item, IsDocument,
}

module _ (bytes : List ℕ) where
  -- The list begins with such a token, and the rest follows.
  abbrev pub Closes : TokenKind → List RawToken → List RawToken → Type 0
  Closes kind [] rest = ⊥
  Closes kind (t ∷ ts) rest = (t.kind ≡ kind) × (ts ≡ rest)

  abbrev pub Valued : List Text → List RawToken → List RawToken → Type 0
  Valued keys ts rest = (more : List RawToken) × IsValue bytes ts more × IsMore bytes keys more rest

  abbrev pub Element : List RawToken → List RawToken → Type 0
  Element ts rest = (more : List RawToken) × IsValue bytes ts more × IsItems bytes more rest

  abbrev pub AfterKey : List Text → List RawToken → List RawToken → Type 0
  AfterKey keys [] rest = ⊥
  AfterKey keys (c ∷ ts) rest = (c.kind ≡ colon) × Valued keys ts rest

  abbrev pub InObject : ObjectState → List Text → List RawToken → List RawToken → Type 0
  InObject ObjectState.first_key keys ts rest =
      Closes object_end ts rest ⊎ IsMembers bytes keys ts rest
  InObject ObjectState.key keys ts rest = IsMembers bytes keys ts rest
  InObject ObjectState.colon keys ts rest = AfterKey keys ts rest
  InObject ObjectState.value keys ts rest = Valued keys ts rest
  InObject ObjectState.after_value keys ts rest = IsMore bytes keys ts rest

  abbrev pub InArray : ArrayState → List RawToken → List RawToken → Type 0
  InArray ArrayState.first_value ts rest = Closes array_end ts rest ⊎ Element ts rest
  InArray ArrayState.value ts rest = Element ts rest
  InArray ArrayState.after_value ts rest = IsItems bytes ts rest

  abbrev pub InFrame : ScanFrame → List RawToken → List RawToken → Type 0
  InFrame (object f) = InObject f.state f.keys
  InFrame (array f) = InArray f.state

  -- The tokens end every frame, innermost first, and after the root nothing follows.
  abbrev pub Completes : List ScanFrame → Bool → List RawToken → Type 0
  Completes [] true ts = ts ≡ []
  Completes [] false ts = IsDocument bytes ts
  Completes (f ∷ fs) seen ts = (rest : List RawToken) × InFrame f ts rest × Completes fs seen rest

  abbrev pub Accepts : ScanState → List RawToken → Type 0
  Accepts s ts = Completes s.frames s.root_seen ts

  -- Inversion.
  pub IsMore-cons :
      (keys : List Text) (t : RawToken) (ts rest : List RawToken)
      → IsMore bytes keys (t ∷ ts) rest
      → ((t.kind ≡ object_end) × (ts ≡ rest)) ⊎ ((t.kind ≡ comma) × IsMembers bytes keys ts rest)
  IsMore-cons keys t ts rest (end_object e) = inl (e, refl)
  IsMore-cons keys t ts rest (next_member e m) = inr (e, m)

  pub IsItems-cons :
      (t : RawToken) (ts rest : List RawToken)
      → IsItems bytes (t ∷ ts) rest
      → ((t.kind ≡ array_end) × (ts ≡ rest)) ⊎ ((t.kind ≡ comma) × Element ts rest)
  IsItems-cons t ts rest (end_array e) = inl (e, refl)
  IsItems-cons t ts rest (next_item e v i) = inr (e, (_, v, i))

  pub IsMembers-cons :
      (keys : List Text) (t : RawToken) (ts rest : List RawToken)
      → IsMembers bytes keys (t ∷ ts) rest
      → (key : Text) × Spells bytes t key
        × (contains keys key ≡ false)
        × AfterKey (keys ++ key ∷ []) ts rest
  IsMembers-cons keys t ts rest (member key s fresh c v m) = (key, s, fresh, (c, (_, v, m)))

  pub IsMembers-intro :
      (keys : List Text) (t : RawToken) (ts rest : List RawToken) (key : Text)
      → Spells bytes t key
      → contains keys key ≡ false
      → AfterKey (keys ++ key ∷ []) ts rest
      → IsMembers bytes keys (t ∷ ts) rest
  IsMembers-intro keys t [] rest key s fresh a = absurd a
  IsMembers-intro keys t (c ∷ ts) rest key s fresh (e, (more, v, m)) = member key s fresh e v m

  -- What follows the first token of a value.
  abbrev pub Opened : TokenKind → List RawToken → List RawToken → Type 0
  Opened object_start ts rest = IsObject bytes ts rest
  Opened array_start ts rest = IsArray bytes ts rest
  Opened kind ts rest = IsScalar kind × (ts ≡ rest)

  Opened-value :
      (t : RawToken) (kind : TokenKind) (ts rest : List RawToken)
      → t.kind ≡ kind
      → IsValue bytes (t ∷ ts) rest
      → Opened kind ts rest
  Opened-value t object_start ts rest e (scalar s) = absurd (subst IsScalar e s)
  Opened-value t array_start ts rest e (scalar s) = absurd (subst IsScalar e s)
  Opened-value t _ ts rest e (scalar s) = (subst IsScalar e s, refl)
  Opened-value t object_start ts rest e (IsValue.object k o) = o
  Opened-value t _ ts rest e (IsValue.object k o) = absurd (cc)
  Opened-value t array_start ts rest e (IsValue.array k a) = a
  Opened-value t _ ts rest e (IsValue.array k a) = absurd (cc)

  IsValue-Opened :
      (t : RawToken) (kind : TokenKind) (ts rest : List RawToken)
      → t.kind ≡ kind
      → Opened kind ts rest
      → IsValue bytes (t ∷ ts) rest
  IsValue-Opened t object_start ts rest e o = IsValue.object e o
  IsValue-Opened t array_start ts rest e a = IsValue.array e a
  IsValue-Opened t _ ts rest e (s, same) =
      subst (IsValue bytes (t ∷ ts)) same (scalar (subst IsScalar (sym e) s))

  pub IsValue-iff :
      (t : RawToken) (kind : TokenKind) (ts rest : List RawToken)
      → t.kind ≡ kind
      → IsValue bytes (t ∷ ts) rest ↔ Opened kind ts rest
  IsValue-iff t kind ts rest e = (Opened-value t kind ts rest e, IsValue-Opened t kind ts rest e)

  -- The bodies of containers, in the states of their frames.
  pub IsObject-iff :
      (ts rest : List RawToken) → IsObject bytes ts rest ↔ InObject ObjectState.first_key [] ts rest
  IsObject-iff ts rest = (opens ts, enters ts)
    where
      opens :
          (us : List RawToken) → IsObject bytes us rest → InObject ObjectState.first_key [] us rest
      opens _ (empty_object e) = inl (e, refl)
      opens _ (members m) = inr m

      enters :
          (us : List RawToken) → InObject ObjectState.first_key [] us rest → IsObject bytes us rest
      enters [] (inl h) = absurd h
      enters (t ∷ us) (inl (e, same)) = subst (IsObject bytes (t ∷ us)) same (empty_object e)
      enters us (inr m) = members m

  pub IsArray-iff :
      (ts rest : List RawToken) → IsArray bytes ts rest ↔ InArray ArrayState.first_value ts rest
  IsArray-iff ts rest = (opens ts, enters ts)
    where
      opens : (us : List RawToken) → IsArray bytes us rest → InArray ArrayState.first_value us rest
      opens _ (empty_array e) = inl (e, refl)
      opens _ (items v i) = inr (_, v, i)

      enters : (us : List RawToken) → InArray ArrayState.first_value us rest → IsArray bytes us rest
      enters [] (inl h) = absurd h
      enters (t ∷ us) (inl (e, same)) = subst (IsArray bytes (t ∷ us)) same (empty_array e)
      enters us (inr (_, v, i)) = items v i

  -- No token is left.
  IsValue-empty : (rest : List RawToken) → ¬ (IsValue bytes [] rest)
  IsValue-empty rest v = elim v [ ]

  InObject-empty :
      (at : ObjectState) (keys : List Text) (rest : List RawToken) → ¬ (InObject at keys [] rest)
  InObject-empty ObjectState.first_key keys rest (inl h) = h
  InObject-empty ObjectState.first_key keys rest (inr m) = elim m [ ]
  InObject-empty ObjectState.key keys rest m = elim m [ ]
  InObject-empty ObjectState.colon keys rest h = h
  InObject-empty ObjectState.value keys rest (more, v, m) = IsValue-empty more v
  InObject-empty ObjectState.after_value keys rest m = elim m [ ]

  InArray-empty : (at : ArrayState) (rest : List RawToken) → ¬ (InArray at [] rest)
  InArray-empty ArrayState.first_value rest (inl h) = h
  InArray-empty ArrayState.first_value rest (inr (more, v, m)) = IsValue-empty more v
  InArray-empty ArrayState.value rest (more, v, m) = IsValue-empty more v
  InArray-empty ArrayState.after_value rest m = elim m [ ]

  -- At the end of the input a document is complete when its root has been seen and no frame is open.
  pub Completes-empty :
      (fs : List ScanFrame) (seen : Bool) → Completes fs seen [] ↔ ((seen ≡ true) × (fs ≡ []))
  Completes-empty [] true = (λ _. (refl, refl), λ _. refl)
  Completes-empty [] false = (λ v. absurd (IsValue-empty [] v), λ h. cc)
  Completes-empty (object f ∷ fs) seen =
      (λ (rest, h, _). absurd (InObject-empty f.state f.keys rest h), λ h. cc)
  Completes-empty (array f ∷ fs) seen =
      (λ (rest, h, _). absurd (InArray-empty f.state rest h), λ h. cc)
