-- ===== src/Documents/Grammar.antt =====
-- JSON documents as lists of tokens, for what
-- packages/core/src/features/input-admission/raw-document.ts accepts.
use get_modular.Base.{ℕ, ◌≡◌, List, [], ◌∷◌, ◌++◌, some, Bool, false, contains, Text, text_key}
use get_modular.Scanner.Strings.{
  RawToken, TokenKind, object_start, object_end, array_start, array_end, colon, comma, true_literal,
  false_literal, null_literal, number, string,
}
use get_modular.Scanner.Cursor.{decode_string, text}

abbrev pub IsScalar : TokenKind → Type 0
IsScalar (string n w) = Unit
IsScalar number = Unit
IsScalar true_literal = Unit
IsScalar false_literal = Unit
IsScalar null_literal = Unit
IsScalar _ = ⊥

-- A string token whose text is `key`.
abbrev pub Spells : List ℕ → RawToken → Text → Type 0
Spells bytes t key =
    (n : ℕ) × (w : Bool) × (t.kind ≡ string n w)
    × (decode_string bytes t.start t.stop ≡ some (text key))

-- Each predicate says that the list begins with such a part, and ends with the second list.
mutual
  pub data IsValue (bytes : List ℕ) : List RawToken → List RawToken → Type 0 where
    scalar : {t : RawToken} {rest : List RawToken} → IsScalar t.kind → IsValue bytes (t ∷ rest) rest
    object :
        {t : RawToken} {ts rest : List RawToken}
        → t.kind ≡ object_start
        → IsObject bytes ts rest
        → IsValue bytes (t ∷ ts) rest
    array :
        {t : RawToken} {ts rest : List RawToken}
        → t.kind ≡ array_start
        → IsArray bytes ts rest
        → IsValue bytes (t ∷ ts) rest

  -- What follows an opening brace.
  pub data IsObject (bytes : List ℕ) : List RawToken → List RawToken → Type 0 where
    empty_object :
        {t : RawToken} {rest : List RawToken} → t.kind ≡ object_end → IsObject bytes (t ∷ rest) rest
    members : {ts rest : List RawToken} → IsMembers bytes [] ts rest → IsObject bytes ts rest

  -- A member whose key is none of the keys, and what follows, through the closing brace.
  pub data IsMembers (bytes : List ℕ) : List Text → List RawToken → List RawToken → Type 0 where
    member :
        {keys : List Text} {t c : RawToken} {ts more rest : List RawToken} (key : Text)
        → Spells bytes t key
        → contains keys key ≡ false
        → c.kind ≡ colon
        → IsValue bytes ts more
        → IsMore bytes (keys ++ key ∷ []) more rest
        → IsMembers bytes keys (t ∷ c ∷ ts) rest

  pub data IsMore (bytes : List ℕ) : List Text → List RawToken → List RawToken → Type 0 where
    end_object :
        {keys : List Text} {t : RawToken} {rest : List RawToken}
        → t.kind ≡ object_end
        → IsMore bytes keys (t ∷ rest) rest
    next_member :
        {keys : List Text} {t : RawToken} {ts rest : List RawToken}
        → t.kind ≡ comma
        → IsMembers bytes keys ts rest
        → IsMore bytes keys (t ∷ ts) rest

  -- What follows an opening bracket.
  pub data IsArray (bytes : List ℕ) : List RawToken → List RawToken → Type 0 where
    empty_array :
        {t : RawToken} {rest : List RawToken} → t.kind ≡ array_end → IsArray bytes (t ∷ rest) rest
    items :
        {ts more rest : List RawToken}
        → IsValue bytes ts more
        → IsItems bytes more rest
        → IsArray bytes ts rest

  -- What follows an element.
  pub data IsItems (bytes : List ℕ) : List RawToken → List RawToken → Type 0 where
    end_array :
        {t : RawToken} {rest : List RawToken} → t.kind ≡ array_end → IsItems bytes (t ∷ rest) rest
    next_item :
        {t : RawToken} {ts more rest : List RawToken}
        → t.kind ≡ comma
        → IsValue bytes ts more
        → IsItems bytes more rest
        → IsItems bytes (t ∷ ts) rest

-- One value, in whose objects no key occurs twice.
abbrev pub IsDocument : List ℕ → List RawToken → Type 0
IsDocument bytes ts = IsValue bytes ts []
