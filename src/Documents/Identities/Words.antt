-- ===== src/Documents/Identities/Words.antt =====
-- The identity formats as words of letters, digits, hyphens and slashes
-- (packages/core/src/features/input-admission/identity-format.ts).
use get_modular.Base.{
  ℕ, ◌≡◌, ◌≢◌, ◌⊎◌, ◌↔◌, inl, inr, refl, [], ◌∷◌, ◌++◌, Bool, true, false, not, ◌&&◌, ◌||◌, ◌==◌,
  arith, number_key, Bool-cases, Text, subst, sym, ap, ◌∙◌,
}
use mathlib.Core.List.{append-nil}
use get_modular.Documents.Identities.{
  is_letter, is_number, FormatState, format_round, format_loop, is_portable_id_format,
  is_local_token_format,
}

abbrev pub is_alphanumeric : ℕ → Bool
is_alphanumeric code = is_letter code || is_number code

-- Letters and digits, or single hyphens between them.
pub data Tail : Text → Type 0 where
  last : Tail []
  more : {a : ℕ} {rest : Text} → is_alphanumeric a ≡ true → Tail rest → Tail (a ∷ rest)
  hyphen : {a : ℕ} {rest : Text} → is_alphanumeric a ≡ true → Tail rest → Tail (45 ∷ a ∷ rest)

-- A letter, and such a tail.
pub data IsToken : Text → Type 0 where
  token : {a : ℕ} {rest : Text} → is_letter a ≡ true → Tail rest → IsToken (a ∷ rest)

-- Tokens, each behind a slash.
pub data IsSlashed : Text → Type 0 where
  no_more : IsSlashed []
  slashed : {t rest : Text} → IsToken t → IsSlashed rest → IsSlashed (47 ∷ (t ++ rest))

-- A token, and at least one more behind a slash.
abbrev pub IsPortableId : Text → Type 0
IsPortableId s =
    (first : Text) × (rest : Text) × (s ≡ first ++ rest)
    × IsToken first
    × IsSlashed rest
    × (rest ≢ [])

abbrev state : Bool → Bool → Bool → FormatState
state letter alphanumeric seen = record {
  needs_letter = letter;
  needs_alphanumeric = alphanumeric;
  slash_seen = seen;
}

-- What may stand behind a token.
abbrev Ending : Bool → Bool → Text → Type 0
Ending false seen rest = rest ≡ []
Ending true seen rest = IsSlashed rest × ((seen ≡ true) ⊎ (rest ≢ []))

abbrev AfterHyphen : Text → Type 0
AfterHyphen [] = ⊥
AfterHyphen (a ∷ rest) = (is_alphanumeric a ≡ true) × Tail rest

-- A word, and what may follow it.
abbrev Splits : (Text → Type 0) → Bool → Bool → Text → Type 0
Splits P portable seen s =
    (t : Text) × (rest : Text) × (s ≡ t ++ rest) × P t × Ending portable seen rest

module _ (p : Bool) where
  letter_round :
      (c : ℕ) (seen : Bool) (rest : Text)
      → format_loop p (c ∷ rest) (state true false seen)
        ≡ (is_letter c && format_loop p rest (state false false seen))
  unfolding format_loop format_round
  letter_round c seen rest = ground arith

  alphanumeric_round :
      (c : ℕ) (seen : Bool) (rest : Text)
      → format_loop p (c ∷ rest) (state false true seen)
        ≡ (is_alphanumeric c && format_loop p rest (state false false seen))
  unfolding format_loop format_round
  alphanumeric_round c seen rest = ground arith

  hyphen_round :
      (seen : Bool) (rest : Text)
      → format_loop p (45 ∷ rest) (state false false seen)
        ≡ format_loop p rest (state false true seen)
  unfolding format_loop format_round
  hyphen_round seen rest = refl

  plain_round :
      (c : ℕ) (seen : Bool) (rest : Text)
      → c ≢ 45
      → (c ≢ 47) ⊎ (p ≡ false)
      → format_loop p (c ∷ rest) (state false false seen)
        ≡ (is_alphanumeric c && format_loop p rest (state false false seen))
  unfolding format_loop format_round
  plain_round c seen rest no_hyphen no_slash = ground arith

slash_round :
    (seen : Bool) (rest : Text)
    → format_loop true (47 ∷ rest) (state false false seen)
      ≡ format_loop true rest (state true false true)
unfolding format_loop format_round
slash_round seen rest = refl

and_true : (a b : Bool) → (a && b) ≡ true → (a ≡ true) × (b ≡ true)
and_true a b h = ground arith

empty-Ending : (p seen : Bool) → (not p || seen) ≡ true → Ending p seen []
empty-Ending false seen h = refl
empty-Ending true seen h = (no_more, inl h)

slash-Ending :
    (seen : Bool) (rest : Text) → Splits IsToken true true rest → Ending true seen (47 ∷ rest)
slash-Ending seen rest (t, others, e, word, (ending, _)) =
    (subst (λ (r : Text). IsSlashed (47 ∷ r)) (sym e) (slashed word ending), inr (λ z. cc))

-- A hyphen, a slash that counts, or another code.
data CodeKind (p : Bool) (c : ℕ) : Type 0 where
  a_hyphen : c ≡ 45 → CodeKind p c
  a_slash : c ≡ 47 → p ≡ true → CodeKind p c
  other : c ≢ 45 → (c ≢ 47) ⊎ (p ≡ false) → CodeKind p c

CodeKind-cases : (p : Bool) (c : ℕ) → CodeKind p c
CodeKind-cases false c = elim (Bool-cases (c == 45)) [
  | inl h ↦ a_hyphen (ground arith)
  | inr h ↦ other (ground arith) (inr refl)
]
CodeKind-cases true c = elim (Bool-cases (c == 45)) [
  | inl h ↦ a_hyphen (ground arith)
  | inr h ↦ elim (Bool-cases (c == 47)) [
    | inl k ↦ a_slash (ground arith) refl
    | inr k ↦ other (ground arith) (inl (ground arith))
  ]
]

hyphen-Tail : (t : Text) → AfterHyphen t → Tail (45 ∷ t)
hyphen-Tail [] h = absurd h
hyphen-Tail (a ∷ t) (l, tail) = hyphen l tail

plain_step :
    (p seen : Bool) (c : ℕ) (s : Text)
    → CodeKind p c
    → format_loop p (c ∷ s) (state false false seen) ≡ true
    → (format_loop p s (state false true seen) ≡ true → Splits AfterHyphen p seen s)
    → (format_loop p s (state true false true) ≡ true → Splits IsToken p true s)
    → (format_loop p s (state false false seen) ≡ true → Splits Tail p seen s)
    → Splits Tail p seen (c ∷ s)
plain_step p seen c s (a_hyphen e) h after word tail =
    let (t, rest, split, found, ending) = after (
      sym (hyphen_round p seen s)
      ∙ subst (λ (x : ℕ). format_loop p (x ∷ s) (state false false seen) ≡ true) e h) in
    (
      c ∷ t,
      rest,
      ap (λ (x : Text). c ∷ x) split,
      subst (λ (x : ℕ). Tail (x ∷ t)) (sym e) (hyphen-Tail t found),
      ending,
    )
plain_step false seen c s (a_slash e q) h after word tail = absurd (cc)
plain_step true seen c s (a_slash e q) h after word tail =
    let found = word (
      sym (slash_round seen s)
      ∙ subst (λ (x : ℕ). format_loop true (x ∷ s) (state false false seen) ≡ true) e h) in
    (
      [],
      c ∷ s,
      refl,
      last,
      subst (λ (x : ℕ). Ending true seen (x ∷ s)) (sym e) (slash-Ending seen s found),
    )
plain_step p seen c s (other a b) h after word tail =
    let (l, go) =
      and_true (is_alphanumeric c) (format_loop p s (state false false seen))
        (sym (plain_round p c seen s a b) ∙ h) in
    let (t, rest, e, found, ending) = tail go in
    (c ∷ t, rest, ap (λ (x : Text). c ∷ x) e, more l found, ending)

-- What the loop takes is such words.
mutual
  unfolding format_loop format_round

  letter-Splits :
      (p seen : Bool) (s : Text)
      → format_loop p s (state true false seen) ≡ true
      → Splits IsToken p seen s
  letter-Splits p seen [] h = absurd (cc)
  letter-Splits p seen (c ∷ s) h =
      let (l, go) =
        and_true (is_letter c) (format_loop p s (state false false seen))
          (sym (letter_round p c seen s) ∙ h) in
      let (t, rest, e, tail, ending) = plain-Splits p seen s go in
      (c ∷ t, rest, ap (λ (x : Text). c ∷ x) e, token l tail, ending)

  hyphen-Splits :
      (p seen : Bool) (s : Text)
      → format_loop p s (state false true seen) ≡ true
      → Splits AfterHyphen p seen s
  hyphen-Splits p seen [] h = absurd (cc)
  hyphen-Splits p seen (c ∷ s) h =
      let (l, go) =
        and_true (is_alphanumeric c) (format_loop p s (state false false seen))
          (sym (alphanumeric_round p c seen s) ∙ h) in
      let (t, rest, e, tail, ending) = plain-Splits p seen s go in
      (c ∷ t, rest, ap (λ (x : Text). c ∷ x) e, (l, tail), ending)

  plain-Splits :
      (p seen : Bool) (s : Text)
      → format_loop p s (state false false seen) ≡ true
      → Splits Tail p seen s
  plain-Splits p seen [] h = ([], [], refl, last, empty-Ending p seen h)
  plain-Splits p seen (c ∷ s) h =
      plain_step p seen c s (CodeKind-cases p c) h (hyphen-Splits p seen s) (letter-Splits p true s)
        (plain-Splits p seen s)

-- And it takes all of them.
alphanumeric_other : (c : ℕ) → is_alphanumeric c ≡ true → (c ≢ 45) × (c ≢ 47)
alphanumeric_other c h = (λ e. ground arith, λ e. ground arith)

module _ (p seen : Bool) (rest : Text)
    (ends : format_loop p rest (state false false seen) ≡ true) where
  Tail-taken : (t : Text) → Tail t → format_loop p (t ++ rest) (state false false seen) ≡ true
  Tail-taken _ last = ends
  Tail-taken (a ∷ t) (more l tail) =
      let (h, k) = alphanumeric_other a l in
      plain_round p a seen (t ++ rest) h (inl k) ∙ rw (l) (Tail-taken t tail)
  Tail-taken _ (hyphen {a} {rest = t} l tail) =
      hyphen_round p seen (a ∷ (t ++ rest))
      ∙ alphanumeric_round p a seen (t ++ rest)
      ∙ rw (l) (Tail-taken t tail)

  token_taken : (t : Text) → IsToken t → format_loop p (t ++ rest) (state true false seen) ≡ true
  token_taken _ (token {a} {rest = t} l tail) =
      letter_round p a seen (t ++ rest) ∙ rw (l) (Tail-taken t tail)

slashed_taken :
    (seen : Bool) (s : Text)
    → IsSlashed s
    → (seen ≡ true) ⊎ (s ≢ [])
    → format_loop true s (state false false seen) ≡ true
unfolding format_loop
slashed_taken seen _ no_more (inl e) = e
slashed_taken seen _ no_more (inr h) = absurd (h refl)
slashed_taken seen _ (slashed {t} {rest} word others) h =
    slash_round seen (t ++ rest)
    ∙ token_taken true true rest (slashed_taken true rest others (inl refl)) t word

-- A value has the format of a portable identity exactly when it is two tokens or more with a slash
-- between any two, where a token is a letter and then letters, digits, and single hyphens that stand
-- between two of these.
pub is_portable_id_format_iff :
    (value : Text) → (is_portable_id_format value ≡ true) ↔ IsPortableId value
unfolding is_portable_id_format
is_portable_id_format_iff value = (
  λ h.
      (let (t, rest, e, word, (others, some_more)) = letter-Splits true false value h in
        (t, rest, e, word, others, elim some_more [ inl z ↦ absurd (cc) | inr z ↦ z ])),
  λ (t, rest, e, word, others, some_more).
      subst (λ (s : Text). format_loop true s (state true false false) ≡ true) (sym e)
        (token_taken true false rest (slashed_taken false rest others (inr some_more)) t word),
)

-- A value has the format of a local token exactly when it is one such token.
pub is_local_token_format_iff :
    (value : Text) → (is_local_token_format value ≡ true) ↔ IsToken value
unfolding is_local_token_format format_loop
is_local_token_format_iff value = (
  λ h.
      (let (t, rest, e, word, none_left) = letter-Splits false false value h in
        subst IsToken (sym (e ∙ ap (λ (r : Text). t ++ r) none_left ∙ append-nil t)) word),
  λ word.
      subst (λ (s : Text). format_loop false s (state true false false) ≡ true) (append-nil value)
        (token_taken false false [] refl value word),
)
