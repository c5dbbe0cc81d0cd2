-- ===== src/Scanner/Spans.antt =====
-- Where tokens end (packages/core/src/features/raw-scanner/owned-iterative/scanner.ts).
use get_modular.Base.{
  ℕ, ◌+◌, ◌-◌, ◌≤◌, ◌<◌, ◌≡◌, refl, List, [], ◌∷◌, Option, none, some, Bool, true, false, arith,
  number_key, if◌then◌else◌, get_elem?, length, drop, inl, inr, Option-cases, ◌==◌, lt_of_get_elem?,
  get_elem?-some, length-drop,
}
use get_modular.Scanner.Bytes.{is_byte, is_digit}
use get_modular.Scanner.Strings.{
  RawToken, TokenKind, object_start, object_end, array_start, array_end, colon, comma,
  invalid_token,
}
use get_modular.Scanner.Numbers.{
  scan_number, scan_keyword, Keyword, true_word, false_word, null_word, Part, ends_at, bad_at,
  number_part, token_of_part, sign_part, integer_part, fraction_part, exponent_part, boundary_part,
  some_digits, skip_digits, digits_from, exponent_sign, ◌>>=◌,
}
use get_modular.Scanner.Cursor.{token_at, other_token, value_token, punctuation_token, single}
use get_modular.Scanner.Totality.{scan_string_total, scan_string-covers}

digits_from_bounds :
    (rest : List ℕ) (p : ℕ) → (p ≤ digits_from rest p) × (digits_from rest p ≤ p + length rest)
unfolding digits_from
digits_from_bounds [] p = omega arith
digits_from_bounds (b ∷ rest) p = ground (arith, digits_from_bounds rest (p + 1))

module _ (bytes : List ℕ) where
  skip_digits_bounds :
      (p : ℕ) → p ≤ length bytes → (p ≤ skip_digits bytes p) × (skip_digits bytes p ≤ length bytes)
  unfolding skip_digits
  skip_digits_bounds p h = omega (arith, digits_from_bounds (drop p bytes) p, length-drop p bytes)

  -- A part that began at `lo` ends at `lo` or later and within the bytes, or is bad at `lo` or later.
  abbrev Within : ℕ → Part → Type 0
  Within lo (ends_at p) = (lo ≤ p) × (p ≤ length bytes)
  Within lo (bad_at p) = lo ≤ p

  some_digits-Within : (p : ℕ) → Within p (some_digits bytes p)
  unfolding some_digits is_digit
  some_digits-Within p = elim (Option-cases (get_elem? bytes p)) [
    | inl e ↦ ground arith
    | inr (b, e) ↦ ground (arith, lt_of_get_elem? bytes p b e, skip_digits_bounds (p + 1))
  ]

  -- The same, with at least one byte in front of the end.
  abbrev Advances : ℕ → Part → Type 0
  Advances lo (ends_at p) = (lo < p) × (p ≤ length bytes)
  Advances lo (bad_at p) = lo ≤ p

  integer_part-Advances : (start : ℕ) → Advances start (integer_part bytes (sign_part bytes start))
  unfolding integer_part is_digit sign_part
  integer_part-Advances start = elim (Option-cases (get_elem? bytes (sign_part bytes start))) [
    | inl e ↦ ground arith
    | inr (b, e) ↦ ground (
      arith,
      lt_of_get_elem? bytes (sign_part bytes start) b e,
      skip_digits_bounds (sign_part bytes start + 1),
    )
  ]

  fraction_part-Within : (p : ℕ) → p ≤ length bytes → Within p (fraction_part bytes p)
  unfolding fraction_part
  fraction_part-Within p h = ground (arith, some_digits-Within (p + 1))

  exponent_part-Within : (p : ℕ) → p ≤ length bytes → Within p (exponent_part bytes p)
  unfolding exponent_part exponent_sign
  exponent_part-Within p h =
      ground (arith, some_digits-Within (p + 1), some_digits-Within (p + 1 + 1))

  boundary_part-Within : (p : ℕ) → p ≤ length bytes → Within p (boundary_part bytes p)
  unfolding boundary_part
  boundary_part-Within p h = ground arith

  bind-Within :
      (lo : ℕ) (part : Part) (f : ℕ → Part)
      → Within lo part
      → ((p : ℕ) → lo ≤ p → p ≤ length bytes → Within p (f p))
      → Within lo (part >>= f)
  bind-Within lo (bad_at p) f h k = h
  bind-Within lo (ends_at p) f h k = raise (f p) (k p h.0 h.1)
    where
      raise : (q : Part) → Within p q → Within lo q
      raise (ends_at q) w = (omega (arith, h.0, w.0), w.1)
      raise (bad_at q) w = omega (arith, h.0, w)

  bind-Advances :
      (lo : ℕ) (part : Part) (f : ℕ → Part)
      → Advances lo part
      → ((p : ℕ) → lo ≤ p → p ≤ length bytes → Within p (f p))
      → Advances lo (part >>= f)
  bind-Advances lo (bad_at p) f h k = h
  bind-Advances lo (ends_at p) f h k = raise (f p) (k p (omega arith) h.1)
    where
      raise : (q : Part) → Within p q → Advances lo q
      raise (ends_at q) w = (omega (arith, h.0, w.0), w.1)
      raise (bad_at q) w = omega (arith, h.0, w)

  number_part-Advances : (start : ℕ) → Advances start (number_part bytes start)
  unfolding number_part
  number_part-Advances start =
      bind-Advances start (integer_part bytes (sign_part bytes start))
        (λ p. fraction_part bytes p >>= (λ q. exponent_part bytes q >>= boundary_part bytes))
        (integer_part-Advances start)
        (λ p _ hi.
          bind-Within p (fraction_part bytes p) (λ q. exponent_part bytes q >>= boundary_part bytes)
            (fraction_part-Within p hi)
            (λ q _ hi'.
              bind-Within q (exponent_part bytes q) (boundary_part bytes)
                (exponent_part-Within q hi') (λ r _ hi2. boundary_part-Within r hi2)))

  -- The token covers at least one byte, from `start` on, and lies within the bytes.
  abbrev pub Covers : ℕ → RawToken → Type 0
  Covers start token = (token.start ≡ start) × (start < token.stop) × (token.stop ≤ length bytes)

  invalid_token-Covers :
      (start at : ℕ)
      → start < length bytes
      → start ≤ at
      → Covers start (invalid_token start at (length bytes))
  unfolding invalid_token
  invalid_token-Covers start at h k = ground arith

  scan_number-Covers : (start : ℕ) → start < length bytes → Covers start (scan_number bytes start)
  unfolding scan_number
  scan_number-Covers start h = go (number_part bytes start) (number_part-Advances start)
    where
      go : (q : Part) → Advances start q → Covers start (token_of_part start (length bytes) q)
      go (ends_at p) w = (refl, w.0, w.1)
      go (bad_at p) w = invalid_token-Covers start p h w

  is_byte-lt : (i c : ℕ) → is_byte c (get_elem? bytes i) ≡ true → i < length bytes
  is_byte-lt i c h = elim (Option-cases (get_elem? bytes i)) [
    | inl e ↦ absurd (ground arith)
    | inr (b, e) ↦ lt_of_get_elem? bytes i b e
  ]

  scan_keyword-Covers :
      (start : ℕ) (word : Keyword)
      → start < length bytes
      → Covers start (scan_keyword bytes start word)
  unfolding scan_keyword
  scan_keyword-Covers start true_word h = ground (
    arith,
    is_byte-lt (start + 3) 0x65,
    invalid_token-Covers start (start + 4 - 1),
    invalid_token-Covers start (start + 4),
  )
  scan_keyword-Covers start false_word h = ground (
    arith,
    is_byte-lt (start + 4) 0x65,
    invalid_token-Covers start (start + 5 - 1),
    invalid_token-Covers start (start + 5),
  )
  scan_keyword-Covers start null_word h = ground (
    arith,
    is_byte-lt (start + 3) 0x6c,
    invalid_token-Covers start (start + 4 - 1),
    invalid_token-Covers start (start + 4),
  )

  other_token-Covers :
      (start b : ℕ) → start < length bytes → Covers start (other_token bytes start b)
  unfolding other_token
  other_token-Covers start b h = ground (
    arith,
    scan_number-Covers start h,
    invalid_token-Covers start (start + 2),
    invalid_token-Covers start (start + 0),
  )

  -- A token is yielded that covers a byte.
  abbrev pub Yields : ℕ → Option RawToken → Type 0
  Yields start o = (token : RawToken) × (o ≡ some token) × Covers start token

  either :
      (start : ℕ) (b : Bool) {x y : Option RawToken}
      → Yields start x
      → Yields start y
      → Yields start (if b then x else y)
  either start true p q = p
  either start false p q = q

  value_token-Yields :
      (start b : ℕ) → start < length bytes → Yields start (value_token bytes start b)
  unfolding value_token
  value_token-Yields start b h =
      let (r, e) = scan_string_total bytes start (length bytes) none in
      either start (b == 0x22)
        (r.0, ground arith, scan_string-covers bytes start (length bytes) none r h e)
        (either start (b == 0x74)
          (scan_keyword bytes start true_word, refl, scan_keyword-Covers start true_word h)
          (either start (b == 0x66)
            (scan_keyword bytes start false_word, refl, scan_keyword-Covers start false_word h)
            (either start (b == 0x6e)
              (scan_keyword bytes start null_word, refl, scan_keyword-Covers start null_word h)
              (other_token bytes start b, refl, other_token-Covers start b h))))

  single-Yields :
      (kind : TokenKind) (start : ℕ) → start < length bytes → Yields start (single kind start)
  single-Yields kind start h =
      (record { kind = kind; start = start; stop = start + 1 }, refl, omega arith)

  punctuation_token-Yields :
      (start b : ℕ) → start < length bytes → Yields start (punctuation_token bytes start b)
  unfolding punctuation_token
  punctuation_token-Yields start b h =
      either start (b == 0x7b) (single-Yields object_start start h) (
        either start (b == 0x7d) (single-Yields object_end start h) (
          either start (b == 0x5b) (single-Yields array_start start h) (
            either start (b == 0x5d) (single-Yields array_end start h) (
              either start (b == 0x3a) (single-Yields colon start h) (
                either start (b == 0x2c) (single-Yields comma start h)
                  (value_token-Yields start b h))))))

  -- At each byte the scanner yields a token, valid or not, that starts there, covers at least that
  -- byte and ends within the bytes.
  pub token_at-Yields : (start : ℕ) → start < length bytes → Yields start (token_at bytes start)
  unfolding token_at
  token_at-Yields start h =
      let (b, e) = get_elem?-some bytes start h in
      rw (e, token_at) (punctuation_token-Yields start b h)
