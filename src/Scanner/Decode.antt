-- ===== src/Scanner/Decode.antt =====
-- Decoding a string token, and what the token says of the text
-- (packages/core/src/features/raw-scanner/owned-iterative/scanner.ts: `scanString`, `decodeString`).
use get_modular.Base.{
  ℕ, zero, suc, ◌+◌, ◌≤◌, ◌<◌, ◌≡◌, refl, List, [], ◌∷◌, ◌++◌, Option, some, Bool, true, false,
  arith, number_key, leb, get_elem?, length, lt→ltb, List-cases, inl, inr, Bool-cases, sym, ap, ◌∙◌,
}
use mathlib.Core.List.{append_assoc, append-nil}
use get_modular.Scanner.Bytes.{is_byte}
use get_modular.Scanner.Strings.{
  RawToken, string, invalid_token, StringState, scan_string_unit, scanned, next_state,
  append_string_unit, account_string_unit, account_unit, close_string, string_loop, Scan,
  string_token, last_chunk, scan_string, initial_state, code_units,
}
use get_modular.Scanner.Cursor.{join}
use get_modular.Scanner.Units.{scan_string_unit_bounds, scan_string_unit_limit}
use get_modular.Scanner.Totality.{
  round, over, closes, breaks, reads, string_loop_zero, string_loop-span, scan_string-span,
  next_state-position, close_string-position,
}
use get_modular.Scanner.Text.{
  Accounts, utf8_size, is_well_formed, account-Accounts, close_string-Accounts,
}

-- Two states that differ in what they collect only.
pub record SameScan (s t : StringState) : Type 0 where
  pub position : t.position ≡ s.position
  pub decoded : t.decoded_utf8_bytes ≡ s.decoded_utf8_bytes
  pub well_formed : t.well_formed_utf16 ≡ s.well_formed_utf16
  pub pending : t.pending_high_surrogate ≡ s.pending_high_surrogate

next_state-SameScan :
    (s t : StringState) (unit next : ℕ)
    → SameScan s t
    → SameScan (next_state s unit next) (next_state t unit next)
unfolding next_state append_string_unit account_string_unit account_unit
next_state-SameScan s t unit next h = ground arith

close_string-SameScan :
    (s t : StringState) → SameScan s t → SameScan (close_string s) (close_string t)
unfolding close_string
close_string-SameScan s t h = ground arith

Accounts-SameScan : (xs : List ℕ) (s t : StringState) → SameScan s t → Accounts xs s → Accounts xs t
Accounts-SameScan xs s t h a = record {
  size = λ rest. rw (h.decoded, h.pending) (a.size rest);
  well_formed = λ rest. rw (h.well_formed, h.pending) (a.well_formed rest);
}

join-append : (cs : List (List ℕ)) (c : List ℕ) → join (cs ++ c ∷ []) ≡ join cs ++ c
join-append [] c = append-nil c
join-append (d ∷ cs) c = rw (join-append cs c) (sym (append_assoc d (join cs) c))

-- What has been collected.
abbrev pub Collects : List ℕ → StringState → Type 0
Collects xs state = (cs : List (List ℕ)) × (state.chunks ≡ some cs) × (join cs ++ state.chunk ≡ xs)

append-SameScan : (s : StringState) (unit : ℕ) → SameScan s (append_string_unit s unit)
unfolding append_string_unit
append-SameScan s unit = ground arith

account-chunks :
    (s : StringState) (unit : ℕ)
    → ((account_string_unit s unit).chunks ≡ s.chunks)
      × ((account_string_unit s unit).chunk ≡ s.chunk)
unfolding account_string_unit account_unit
account-chunks s unit = ground arith

append-Collects :
    (xs : List ℕ) (s : StringState) (unit : ℕ)
    → Collects xs s
    → Collects (xs ++ code_units unit) (append_string_unit s unit)
unfolding append_string_unit
append-Collects xs s unit (cs, e, q) =
    elim (Bool-cases (leb 4096 (length (s.chunk ++ code_units unit)))) [
      | inl full ↦ (
        cs ++ (s.chunk ++ code_units unit) ∷ [],
        ground arith,
        ground (
          arith,
          join-append cs (s.chunk ++ code_units unit),
          append-nil (join cs ++ (s.chunk ++ code_units unit)),
          append_assoc (join cs) s.chunk (code_units unit),
        ),
      )
      | inr room ↦
          (cs, ground arith, ground (arith, append_assoc (join cs) s.chunk (code_units unit)))
    ]

pub next_state-Collects :
    (xs : List ℕ) (s : StringState) (unit next : ℕ)
    → Collects xs s
    → Collects (xs ++ code_units unit) (next_state s unit next)
unfolding next_state
next_state-Collects xs s unit next (cs, e, q) =
    let t = record s { position = next } in
    let (ds, f, p) = append-Collects xs t unit (cs, e, q) in
    let same = account-chunks (append_string_unit t unit) unit in
    (ds, same.0 ∙ f, ap (λ (c : List ℕ). join ds ++ c) same.1 ∙ p)

pub next_state-Accounts :
    (xs : List ℕ) (s : StringState) (unit next : ℕ)
    → unit ≤ 0x10ffff
    → Accounts xs s
    → Accounts (xs ++ code_units unit) (next_state s unit next)
unfolding next_state
next_state-Accounts xs s unit next b a =
    let t = record s { position = next } in
    account-Accounts xs (append_string_unit t unit) unit b (
      Accounts-SameScan xs t (append_string_unit t unit) (append-SameScan t unit)
        (record { size = a.size; well_formed = a.well_formed }))

pub last_chunk-Collects :
    (xs : List ℕ) (s : StringState)
    → Collects xs s
    → (ds : List (List ℕ)) × (last_chunk s ≡ some ds) × (join ds ≡ xs)
last_chunk-Collects xs s (cs, e, q) = elim (List-cases s.chunk) [
  | inl f ↦ (cs, ground arith, ground (arith, append-nil (join cs)))
  | inr (a, rest, f) ↦ (cs ++ s.chunk ∷ [], ground arith, join-append cs s.chunk ∙ q)
]

module _ (bytes : List ℕ) (start limit : ℕ) where
  pub closes_round :
      (g : ℕ) (t : StringState)
      → t.position < limit
      → is_byte 0x22 (get_elem? bytes t.position) ≡ true
      → string_loop (suc g) bytes start limit t
        ≡ some (string_token start (close_string t), last_chunk t)
  unfolding string_loop
  closes_round g t lt q = rw (lt→ltb t.position limit lt, string_loop) (rw q refl)

  pub reads_round :
      (g : ℕ) (t : StringState) (unit next : ℕ)
      → t.position < limit
      → is_byte 0x22 (get_elem? bytes t.position) ≡ false
      → scan_string_unit bytes t.position limit ≡ scanned unit next
      → string_loop (suc g) bytes start limit t
        ≡ string_loop g bytes start limit (next_state t unit next)
  unfolding string_loop
  reads_round g t unit next lt q e = rw (lt→ltb t.position limit lt, string_loop) (rw q (rw e refl))

module _ (bytes : List ℕ) (start limit : ℕ) (r : Scan) (n : ℕ) (w : Bool) where
  -- A second run, up to the end of the token and with chunks to fill.
  abbrev Decodes : ℕ → StringState → Type 0
  Decodes g t =
      (ds : List (List ℕ)) × (string_loop g bytes start r.0.stop t ≡ some (r.0, some ds))
      × (utf8_size (join ds) ≡ n)
      × (is_well_formed (join ds) ≡ w)

  decode_loop :
      (f g : ℕ) (s t : StringState) (xs : List ℕ)
      → string_loop f bytes start limit s ≡ some r
      → r.0.kind ≡ string n w
      → SameScan s t
      → Collects xs t
      → Accounts xs t
      → r.0.stop ≤ t.position + g
      → Decodes g t
  unfolding invalid_token
  decode_loop zero g s t xs h k same c a fuel = absurd (cc (string_loop_zero bytes start limit s))
  decode_loop (suc f) zero s t xs h k same c a fuel =
      absurd (omega (arith, string_loop-span bytes start limit (suc f) s r n w h k, same.position))
  decode_loop (suc f) (suc g) s t xs h k same c a fuel = elim (round bytes start limit f s) [
    | over _ e ↦ absurd (ground arith)
    | breaks at _ _ e ↦ absurd (ground arith)
    | closes lt q e ↦
        let (ds, got, joined) = last_chunk-Collects xs t c in
        let closed = close_string-SameScan s t same in
        let said = close_string-Accounts xs t a in
        let token : string_token start (close_string t) ≡ r.0 = ground arith in
        (
          ds,
          closes_round bytes start r.0.stop g t
                (omega (arith, ap (λ (x : RawToken). x.stop) token, close_string-position t))
                (rw same.position q)
              ∙ ground arith,
          ground arith,
          ground arith,
        )
    | reads u next lt q e loop ↦
        let rest = sym loop ∙ h in
        let span = string_loop-span bytes start limit f (next_state s u next) r n w rest k in
        let bound = scan_string_unit_bounds bytes s.position limit u next e in
        let inside : next < r.0.stop = omega (arith, next_state-position s u next) in
        let (ds, got, size, formed) =
          decode_loop f g (next_state s u next) (next_state t u next) (xs ++ code_units u) rest k
            (next_state-SameScan s t u next same) (next_state-Collects xs t u next c)
            (next_state-Accounts xs t u next bound.2 a)
            (omega (arith, next_state-position t u next, same.position)) in
        (
          ds,
          reads_round bytes start r.0.stop g t u next (omega (arith, same.position))
                (rw same.position q)
                (rw same.position
                  (scan_string_unit_limit bytes s.position limit u next r.0.stop e (omega arith)))
              ∙ got,
          size,
          formed,
        )
  ]

-- The second run of `scanString`, from the start of the token to its end.
pub scan_string-decodes :
    (bytes : List ℕ) (start limit : ℕ) (c : Option (List (List ℕ))) (r : Scan) (n : ℕ) (w : Bool)
    → scan_string bytes start limit c ≡ some r
    → r.0.kind ≡ string n w
    → (ds : List (List ℕ)) × (scan_string bytes r.0.start r.0.stop (some []) ≡ some (r.0, some ds))
      × (utf8_size (join ds) ≡ n)
      × (is_well_formed (join ds) ≡ w)
unfolding scan_string
scan_string-decodes bytes start limit c r n w h k =
    let (at, long, fits, loop, quote) = scan_string-span bytes start limit c r n w h k in
    let (ds, got, size, formed) =
      decode_loop bytes start limit r n w (limit + 1) (r.0.stop + 1) (initial_state start c)
        (initial_state start (some [])) [] loop k
        (record { position = refl; decoded = refl; well_formed = refl; pending = refl })
        ([], refl, refl) (record { size = λ rest. omega arith; well_formed = λ rest. refl })
        (omega arith) in
    (ds, ground arith, size, formed)
