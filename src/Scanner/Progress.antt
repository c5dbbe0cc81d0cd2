-- ===== src/Scanner/Progress.antt =====
-- How the cursor goes through the bytes
-- (packages/core/src/features/raw-scanner/owned-iterative/scanner.ts: `openOwnedRawTokenCursor`).
use get_modular.Base.{
  ℕ, zero, suc, ◌+◌, ◌≤◌, ◌<◌, ◌≡◌, ◌⊎◌, refl, List, [], ◌∷◌, Option, none, some, true, false,
  arith, number_key, length, drop, inl, inr, Bool-cases, ◌==◌, length-drop,
}
use get_modular.Scanner.Strings.{RawToken, invalid, end_of_input}
use get_modular.Scanner.Cursor.{
  Cursor, open_cursor, next, skip_whitespace, blanks_from, end_token, after_token,
}
use get_modular.Scanner.Spans.{token_at-Yields}

blanks_from_bounds :
    (rest : List ℕ) (p : ℕ) → (p ≤ blanks_from rest p) × (blanks_from rest p ≤ p + length rest)
unfolding blanks_from
blanks_from_bounds [] p = omega arith
blanks_from_bounds (b ∷ rest) p = ground (arith, blanks_from_bounds rest (p + 1))

skip_whitespace_bounds :
    (bytes : List ℕ) (p : ℕ)
    → p ≤ length bytes
    → (p ≤ skip_whitespace bytes p) × (skip_whitespace bytes p ≤ length bytes)
unfolding skip_whitespace
skip_whitespace_bounds bytes p h =
    omega (arith, blanks_from_bounds (drop p bytes) p, length-drop p bytes)

-- The cursor stands within the bytes.
abbrev pub Inside : List ℕ → Cursor → Type 0
Inside bytes c = c.position ≤ length bytes

-- A call of `next` on an unfinished cursor returns: either it passes over at least one byte, with a
-- token between the two positions, or it finishes the cursor, with the end or an invalid token.
pub record Advances (bytes : List ℕ) (c d : Cursor) (token : RawToken) : Type 0 where
  pub inside : d.position ≤ length bytes
  pub ordered : c.position ≤ token.start
  pub in_bytes : token.stop ≤ length bytes
  pub covers : token.start ≤ token.stop
  pub passed : token.stop ≤ d.position
  pub moves :
      ((d.finished ≡ false) × (token.start < token.stop) × (d.position ≡ token.stop))
      ⊎ (d.finished ≡ true) × ((token.kind ≡ end_of_input) ⊎ (token.kind ≡ invalid))

pub next-Advances :
    (bytes : List ℕ) (c : Cursor)
    → Inside bytes c
    → c.finished ≡ false
    → (d : Cursor) × (token : RawToken) × (next bytes c ≡ some (d, token))
      × Advances bytes c d token
unfolding next
next-Advances bytes c h f =
    let start = skip_whitespace bytes c.position in
    let b = skip_whitespace_bounds bytes c.position h in
    elim (Bool-cases (start == length bytes)) [
      | inl done ↦ (
        record { position = start; finished = true },
        end_token bytes,
        ground arith,
        ground arith,
      )
      | inr more ↦
          let (token, e, cover) = token_at-Yields bytes start (ground arith) in
          ((after_token bytes token).0, token, ground arith, ground arith)
    ]

-- `n` calls of `next`.
pub read_tokens : ℕ → List ℕ → Cursor → Option (Cursor × List RawToken)
read_tokens zero bytes c = some (c, [])
read_tokens (suc n) bytes c = elim (next bytes c) [
  | none ↦ none
  | some (d, token) ↦ elim (read_tokens n bytes d) [
    | none ↦ none
    | some (e, tokens) ↦ some (e, token ∷ tokens)
  ]
]

-- Each token starts where the one before it ended, or later, and ends within the bytes.
abbrev pub InOrder : ℕ → List ℕ → List RawToken → Type 0
InOrder lo bytes [] = Unit
InOrder lo bytes (t ∷ ts) =
    (lo ≤ t.start) × (t.start ≤ t.stop) × (t.stop ≤ length bytes) × InOrder t.stop bytes ts

InOrder-mono :
    (lo hi : ℕ) (bytes : List ℕ) (ts : List RawToken)
    → lo ≤ hi
    → InOrder hi bytes ts
    → InOrder lo bytes ts
InOrder-mono lo hi bytes [] h o = tt
InOrder-mono lo hi bytes (t ∷ ts) h o = (omega (arith, o.0), o.1, o.2, o.3)

next-finished :
    (bytes : List ℕ) (c : Cursor) → c.finished ≡ true → next bytes c ≡ some (c, end_token bytes)
unfolding next
next-finished bytes c f = rw (f, next) refl

-- What a run of calls yields: it returns, tokens in order, and with more calls than bytes it ends.
record Runs (n : ℕ) (bytes : List ℕ) (c d : Cursor) (tokens : List RawToken) : Type 0 where
  returns : read_tokens n bytes c ≡ some (d, tokens)
  in_order : InOrder c.position bytes tokens
  rests : c.finished ≡ true → InOrder (length bytes) bytes tokens
  ends : length bytes < c.position + n → d.finished ≡ true
  stays : c.finished ≡ true → d.finished ≡ true

read_tokens-Runs :
    (n : ℕ) (bytes : List ℕ) (c : Cursor)
    → Inside bytes c
    → (d : Cursor) × (tokens : List RawToken) × Runs n bytes c d tokens
unfolding read_tokens
read_tokens-Runs zero bytes c h = (
  c,
  [],
  record {
    returns = refl;
    in_order = tt;
    rests = λ _. tt;
    ends = λ z. absurd (omega arith);
    stays = λ f. f;
  },
)
read_tokens-Runs (suc n) bytes c h = elim (Bool-cases c.finished) [
  | inl f ↦
      let (d, ts, r) = read_tokens-Runs n bytes c h in
      (
        d,
        end_token bytes ∷ ts,
        record {
          returns = rw (next-finished bytes c f, read_tokens) (rw (r.returns) refl);
          in_order = (h, omega arith, omega arith, r.rests f);
          rests = λ _. (omega arith, omega arith, omega arith, r.rests f);
          ends = λ _. r.stays f;
          stays = r.stays;
        },
      )
  | inr f ↦
      let (e, token, called, a) = next-Advances bytes c h f in
      let (d, ts, r) = read_tokens-Runs n bytes e a.inside in
      (
        d,
        token ∷ ts,
        record {
          returns = rw (called, read_tokens) (rw (r.returns) refl);
          in_order = (
            a.ordered,
            a.covers,
            a.in_bytes,
            InOrder-mono token.stop e.position bytes ts a.passed r.in_order,
          );
          rests = λ g. absurd (ground arith);
          ends = λ enough. elim a.moves [
            | inl (more, moved, at) ↦ r.ends (omega (arith, a.ordered))
            | inr (done, _) ↦ r.stays done
          ];
          stays = λ g. absurd (ground arith);
        },
      )
]

-- However the bytes are, `next` can be called any number of times; the tokens do not overlap and go
-- upwards; and after more calls than there are bytes the cursor is finished.
pub read_tokens_lem :
    (n : ℕ) (bytes : List ℕ)
    → (d : Cursor) × (tokens : List RawToken) × (read_tokens n bytes open_cursor ≡ some (d, tokens))
      × InOrder 0 bytes tokens
      × (length bytes < n → d.finished ≡ true)
unfolding open_cursor
read_tokens_lem n bytes =
    let (d, ts, r) = read_tokens-Runs n bytes open_cursor (omega arith) in
    (d, ts, r.returns, r.in_order, λ enough. r.ends (omega arith))
