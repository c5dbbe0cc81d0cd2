-- ===== src/Canonical/RoundTrip.antt =====
-- What is quoted scans back
-- (packages/core/src/features/canonicalization/owned-jcs/factory.ts: `quote`, and
-- packages/core/src/features/raw-scanner/owned-iterative/scanner.ts: `scanString`, `decodeString`).
use get_modular.Base.{
  ℕ, zero, suc, ◌+◌, ◌≤◌, ◌<◌, ◌≡◌, refl, List, [], ◌∷◌, ◌++◌, Option, none, some, true, number_key,
  arith, Text, length, get_elem?, inl, inr, subst, sym, ap, ◌∙◌, lt_of_get_elem?, length-append,
  Bool-cases,
}
use mathlib.Core.List.{append_assoc, append-nil}
use get_modular.Base.Outcome.{done}
use get_modular.Scanner.Strings.{
  RawToken, string, StringState, next_state, close_string, string_loop, string_token, last_chunk,
  scan_string, initial_state, code_units,
}
use get_modular.Scanner.Cursor.{
  token_at, punctuation_token, value_token, decode_string, text, token_of_scan,
}
use get_modular.Scanner.Units.{scan_string_unit_bounds}
use get_modular.Scanner.Totality.{next_state-position, close_string-position}
use get_modular.Scanner.Utf8.{encode}
use get_modular.Scanner.Text.{utf8_size, is_well_formed, Accounts, close_string-Accounts}
use get_modular.Scanner.Decode.{
  Collects, closes_round, reads_round, next_state-Collects, next_state-Accounts,
  last_chunk-Collects,
}
use get_modular.Canonical.Writing.{well_formed, quote, stringify, escaped, escape_all, utf8}
use get_modular.Canonical.Rounds.{well_formed_lem}
use get_modular.Canonical.Literals.{
  Stands, Stands-append, Stands-at, literal, AllUnits, pair_scalar, pair_code_units, formed_cons,
  formed_one, literal-pair, literal-single, literal-last, literal-empty, utf8-escape_all, utf8-cons,
}
use get_modular.Canonical.Units.{UnitAt, escaped-UnitAt, pair-UnitAt}

module _ (bytes : List ℕ) (start limit : ℕ) where
  -- From the state on, the loop reads the text, up to the closing quotation mark.
  record Finishes (g : ℕ) (t : StringState) (xs s : Text) (size : ℕ) : Type 0 where
    last : StringState
    loop :
        string_loop g bytes start limit t
        ≡ some (string_token start (close_string last), last_chunk last)
    position : last.position ≡ t.position + size
    accounts : Accounts (xs ++ s) last
    collects : Collects xs t → Collects (xs ++ s) last

  -- One unit, and then the rest.
  unit_Finishes :
      (g : ℕ) (t : StringState) (xs s units written : List ℕ) (unit : ℕ)
      → code_units unit ≡ units
      → Stands bytes t.position ((written ++ literal s) ++ 0x22 ∷ [])
      → t.position + length (written ++ literal s) < limit
      → limit < t.position + suc g
      → Accounts xs t
      → (Stands bytes t.position written
          → t.position + length written ≤ limit
          → UnitAt bytes t.position limit written unit)
      → ((t' : StringState) (xs' : Text)
          → Stands bytes t'.position (literal s ++ 0x22 ∷ [])
          → t'.position + length (literal s) < limit
          → limit < t'.position + g
          → Accounts xs' t'
          → Finishes g t' xs' s (length (literal s)))
      → Finishes (suc g) t xs (units ++ s) (length (written ++ literal s))
  unit_Finishes g t xs s units written unit same h fits fuel a read go =
      let next = t.position + length written in
      let t' = next_state t unit next in
      let long = length-append written (literal s) in
      let (front, back) =
        Stands-append bytes t.position written (literal s ++ 0x22 ∷ [])
          (subst (Stands bytes t.position) (append_assoc written (literal s) (0x22 ∷ [])) h) in
      let (q, e) = read front (omega (arith, long)) in
      let bounds = scan_string_unit_bounds bytes t.position limit unit next e in
      let moved = next_state-position t unit next in
      let accounts =
        subst (λ (us : List ℕ). Accounts (xs ++ us) t') same
          (next_state-Accounts xs t unit next bounds.2 a) in
      let f =
        go t' (xs ++ units)
          (Stands-at bytes next t'.position (literal s ++ 0x22 ∷ []) back (sym moved))
          (omega (arith, long)) (omega arith) accounts in
      record {
        last = f.last;
        loop = reads_round bytes start limit g t unit next (omega arith) q e ∙ f.loop;
        position = omega (arith, f.position, long);
        accounts = subst (λ (x : List ℕ). Accounts x f.last) (append_assoc xs units s) f.accounts;
        collects = λ c.
            subst (λ (x : List ℕ). Collects x f.last) (append_assoc xs units s)
              (f.collects (
                subst (λ (us : List ℕ). Collects (xs ++ us) t') same
                  (next_state-Collects xs t unit next c)));
      }

  -- At the quotation mark.
  end_Finishes :
      (g : ℕ) (t : StringState) (xs : Text)
      → get_elem? bytes t.position ≡ some 0x22
      → t.position < limit
      → Accounts xs t
      → Finishes (suc g) t xs [] 0
  end_Finishes g t xs h fits a = record {
    last = t;
    loop = closes_round bytes start limit g t fits (rw h refl);
    position = omega arith;
    accounts = subst (λ (x : List ℕ). Accounts x t) (sym (append-nil xs)) a;
    collects = λ c. subst (λ (x : List ℕ). Collects x t) (sym (append-nil xs)) c;
  }

  plain_code_units : (x : ℕ) → x ≤ 0xffff → code_units x ≡ x ∷ []
  unfolding code_units
  plain_code_units x u = ground arith

  literal-Finishes :
      (s : Text) (g : ℕ)
      → AllUnits s
      → is_well_formed s ≡ true
      → (t : StringState) (xs : Text) → Stands bytes t.position (literal s ++ 0x22 ∷ [])
      → t.position + length (literal s) < limit
      → limit < t.position + g
      → Accounts xs t
      → Finishes g t xs s (length (literal s))
  literal-Finishes s zero u w t xs h fits fuel a = absurd (omega arith)
  literal-Finishes [] (suc g) u w t xs h fits fuel a =
      rw literal-empty (end_Finishes g t xs (rw literal-empty at h).0 (omega arith) a)
  literal-Finishes (x ∷ []) (suc g) (u, us) w t xs h fits fuel a =
      let e = literal-last x in
      rw e (
        unit_Finishes g t xs [] (x ∷ []) (utf8 (escaped x)) x (plain_code_units x u) (rw e at h)
          (rw e at fits) fuel a (escaped-UnitAt bytes t.position limit x (formed_one x w) u)
          (literal-Finishes [] g us (unfold is_well_formed in refl)))
  literal-Finishes (x ∷ y ∷ rest) (suc g) (u, (v, us)) w t xs h fits fuel a =
      elim (formed_cons x y rest w) [
        | inl (pair, formed) ↦
            let e = literal-pair x y rest pair in
            rw e (
              unit_Finishes g t xs rest (x ∷ y ∷ []) _ (pair_scalar x y) (pair_code_units x y pair)
                (rw e at h) (rw e at fits) fuel a (pair-UnitAt bytes t.position limit x y pair)
                (literal-Finishes rest g us formed))
        | inr (single, (plain, formed)) ↦
            let e = literal-single x y rest single in
            rw e (
              unit_Finishes g t xs (y ∷ rest) (x ∷ []) _ x (plain_code_units x u) (rw e at h)
                (rw e at fits) fuel a (escaped-UnitAt bytes t.position limit x plain u)
                (literal-Finishes (y ∷ rest) g (v, us) formed))
      ]

quoted : (s q : Text) → quote s ≡ done q → (is_well_formed s ≡ true) × (stringify s ≡ q)
unfolding quote
quoted s q h = elim (Bool-cases (well_formed s)) [
  | inl w ↦ (sym (well_formed_lem s) ∙ w, ground arith)
  | inr w ↦ absurd (ground arith)
]

utf8-stringify :
    (s : Text)
    → AllUnits s
    → is_well_formed s ≡ true
    → utf8 (stringify s) ≡ 0x22 ∷ (literal s ++ 0x22 ∷ [])
unfolding stringify encode
utf8-stringify s u w =
    utf8-cons 0x22 (escape_all s ++ 0x22 ∷ []) (refl, refl)
    ∙ ap (λ (x : List ℕ). 0x22 ∷ x) (utf8-escape_all s u w)

module _ (bytes : List ℕ) (p : ℕ) (s : Text) (u : AllUnits s) (w : is_well_formed s ≡ true) where
  abbrev Here : Type 0
  Here = Stands bytes p (0x22 ∷ (literal s ++ 0x22 ∷ []))

  -- What a run of the scanner at the literal leaves behind.
  record Scans (limit : ℕ) (c : Option (List (List ℕ))) : Type 0 where
    last : StringState
    scanned_as :
        scan_string bytes p limit c ≡ some (string_token p (close_string last), last_chunk last)
    position : last.position ≡ p + 1 + length (literal s)
    accounts : Accounts s last
    collects : Collects [] (initial_state p c) → Collects s last

  scan_string-Scans :
      (limit : ℕ) (c : Option (List (List ℕ)))
      → Here
      → p + 1 + length (literal s) < limit
      → Scans limit c
  unfolding scan_string
  scan_string-Scans limit c (open_quote, h) fits =
      let f =
        literal-Finishes bytes p limit s (limit + 1) u w (initial_state p c) [] h fits (omega arith)
          (record { size = λ rest. omega arith; well_formed = λ rest. refl }) in
      record {
        last = f.last;
        scanned_as = ground (arith, f.loop);
        position = f.position;
        accounts = f.accounts;
        collects = f.collects;
      }

token_at-quote :
    (bytes : List ℕ) (p : ℕ)
    → get_elem? bytes p ≡ some 0x22
    → token_at bytes p ≡ token_of_scan (scan_string bytes p (length bytes) none)
unfolding token_at punctuation_token value_token
token_at-quote bytes p h = rw (h, token_at) refl

module _ (bytes : List ℕ) (p : ℕ) (s : Text) (u : AllUnits s) (w : is_well_formed s ≡ true) where
  abbrev stop : ℕ
  stop = p + 1 + length (literal s) + 1

  closing_inside : Here bytes p s u w → stop ≤ length bytes
  closing_inside (_, h) =
      let (_, (quote, _)) = Stands-append bytes (p + 1) (literal s) (0x22 ∷ []) h in
      omega (arith, lt_of_get_elem? bytes (p + 1 + length (literal s)) 0x22 quote)

  token_of_last :
      (last : StringState)
      → last.position ≡ p + 1 + length (literal s)
      → Accounts s last
      → string_token p (close_string last)
        ≡ record { kind = string (utf8_size s) true; start = p; stop = stop }
  token_of_last last at a =
      ground (arith, w, close_string-Accounts s last a, close_string-position last)

  token_scanned :
      Here bytes p s u w
      → token_at bytes p
        ≡ some (record { kind = string (utf8_size s) true; start = p; stop = stop })
  token_scanned h =
      let r =
        scan_string-Scans bytes p s u w (length bytes) none h (omega (arith, closing_inside h)) in
      token_at-quote bytes p h.0
      ∙ ap token_of_scan r.scanned_as
      ∙ ap (λ (t : RawToken). some t) (token_of_last r.last r.position r.accounts)

  text_decoded : Here bytes p s u w → decode_string bytes p stop ≡ some (text s)
  unfolding decode_string
  text_decoded h =
      let r = scan_string-Scans bytes p s u w stop (some []) h (omega arith) in
      let token = token_of_last r.last r.position r.accounts in
      let (ds, got, joined) = last_chunk-Collects s r.last (r.collects ([], refl, refl)) in
      ground (arith, r.scanned_as, closing_inside h)

-- Wherever the UTF-8 form of a quoted text stands in the bytes, the scanner finds a string token that
-- covers exactly this form and tells the size of the text and that it is well-formed, and decoding the
-- token gives the text back.
pub decode_string-quote :
    (s q : Text) (bytes : List ℕ) (p : ℕ)
    → AllUnits s
    → quote s ≡ done q
    → Stands bytes p (utf8 q)
    → (token_at bytes p
        ≡ some (record { kind = string (utf8_size s) true; start = p; stop = p + length (utf8 q) }))
      × (decode_string bytes p (p + length (utf8 q)) ≡ some (text s))
decode_string-quote s q bytes p u h stands =
    let (w, same) = quoted s q h in
    let written = ap utf8 (sym same) ∙ utf8-stringify s u w in
    let here = subst (Stands bytes p) written stands in
    let size : p + length (utf8 q) ≡ stop bytes p s u w =
      ap (λ (x : List ℕ). p + length x) written
      ∙ omega (arith, length-append (literal s) (0x22 ∷ [])) in
    rw size (token_scanned bytes p s u w here, text_decoded bytes p s u w here)
