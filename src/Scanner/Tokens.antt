-- ===== src/Scanner/Tokens.antt =====
-- Tokens and the cursor: spans, progress, the end, and decoding
-- (packages/core/src/features/raw-scanner/owned-iterative/scanner.ts).
use get_modular.Base.{
  ℕ, ◌≡◌, ◌≢◌, List, none, some, Bool, arith, number_key, get_elem?, length, inl, inr, Option-cases,
  ap, ◌∙◌,
}
use get_modular.Scanner.Strings.{RawToken, string, invalid_token, scan_string, Scan}
use get_modular.Scanner.Numbers.{
  scan_number, scan_keyword, Keyword, true_word, false_word, null_word,
}
use get_modular.Scanner.Cursor.{
  token_at, other_token, punctuation_token, value_token, decode_string, text, token_of_scan, join,
}
use get_modular.Scanner.Totality.{scan_string_total, scan_string-span}
use get_modular.Scanner.Text.{utf8_size, is_well_formed}
use get_modular.Scanner.Decode.{scan_string-decodes}

scan_number-kind :
    (bytes : List ℕ) (start n : ℕ) (w : Bool) → (scan_number bytes start).kind ≢ string n w
unfolding scan_number invalid_token
scan_number-kind bytes start n w h = ground arith

scan_keyword-kind :
    (bytes : List ℕ) (start : ℕ) (word : Keyword) (n : ℕ) (w : Bool)
    → (scan_keyword bytes start word).kind ≢ string n w
unfolding scan_keyword invalid_token
scan_keyword-kind bytes start word n w h = ground arith

other_token-kind :
    (bytes : List ℕ) (start b n : ℕ) (w : Bool) → (other_token bytes start b).kind ≢ string n w
unfolding other_token invalid_token
other_token-kind bytes start b n w h = ground (arith, scan_number-kind bytes start n w)

value_token-string :
    (bytes : List ℕ) (start b : ℕ) (token : RawToken) (n : ℕ) (w : Bool)
    → value_token bytes start b ≡ some token
    → token.kind ≡ string n w
    → token_of_scan (scan_string bytes start (length bytes) none) ≡ some token
unfolding value_token
value_token-string bytes start b token n w h k = ground (
  arith,
  scan_keyword-kind bytes start true_word n w,
  scan_keyword-kind bytes start false_word n w,
  scan_keyword-kind bytes start null_word n w,
  other_token-kind bytes start b n w,
)

-- A string token comes from `scanString`.
token_at-string :
    (bytes : List ℕ) (start : ℕ) (token : RawToken) (n : ℕ) (w : Bool)
    → token_at bytes start ≡ some token
    → token.kind ≡ string n w
    → (r : Scan) × (scan_string bytes start (length bytes) none ≡ some r) × (r.0 ≡ token)
unfolding token_at punctuation_token invalid_token
token_at-string bytes start token n w h k =
    let (r, e) = scan_string_total bytes start (length bytes) none in
    elim (Option-cases (get_elem? bytes start)) [
      | inl f ↦ absurd (ground arith)
      | inr (b, f) ↦ (r, e, ground (arith, value_token-string bytes start b token n w))
    ]

-- A string token that the cursor delivered can be decoded, and the two facts that it carries are those
-- of the text: its length in UTF-8 and whether its surrogates are paired.
pub decode_string-token_at :
    (bytes : List ℕ) (start : ℕ) (token : RawToken) (n : ℕ) (w : Bool)
    → token_at bytes start ≡ some token
    → token.kind ≡ string n w
    → (t : List ℕ) × (decode_string bytes token.start token.stop ≡ some (text t))
      × (utf8_size t ≡ n)
      × (is_well_formed t ≡ w)
unfolding decode_string
decode_string-token_at bytes start token n w h k =
    let (r, e, same) = token_at-string bytes start token n w h k in
    let kind : r.0.kind ≡ string n w = ap (λ (t : RawToken). t.kind) same ∙ k in
    let span = scan_string-span bytes start (length bytes) none r n w e kind in
    let (ds, got, size, formed) =
      scan_string-decodes bytes start (length bytes) none r n w e kind in
    (join ds, ground arith, size, formed)
