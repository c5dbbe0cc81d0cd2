-- ===== src/Documents/Total.antt =====
-- The scan returns (packages/core/src/features/input-admission/raw-document.ts: `scanRawDocument`).
use get_modular.Base.{
  ℕ, zero, suc, ◌+◌, ◌<◌, ◌≡◌, ◌⊎◌, refl, List, some, false, arith, number_key, length, inl, inr,
  Option-cases,
}
use get_modular.Base.Outcome.{Outcome, done, Returns, returns, Returns-bind, Returns-done}
use get_modular.Scanner.Strings.{RawToken, TokenKind, invalid, end_of_input}
use get_modular.Scanner.Cursor.{Cursor, open_cursor, next, token_at, skip_whitespace}
use get_modular.Scanner.Progress.{Inside, next-Advances}
use get_modular.Scanner.Tokens.{decode_string-token_at}
use get_modular.Documents.Types.{RawDocumentBudget, ScanState, RawDocumentScan}
use get_modular.Documents.Scan.{
  Round, goes_on, breaks, scan_round, scan_loop, scan_raw_document, initial_scan,
}
use get_modular.Documents.Counters.{scan_round-Returns}
use get_modular.Documents.Charges.{Decodes, WithinBudget, Ended, Running, Rounded, Running-Ended}

-- A token that `next` delivers is the end, or the one that stands after the white space.
next-token_at :
    (bytes : List ℕ) (c d : Cursor) (token : RawToken)
    → next bytes c ≡ some (d, token)
    → (token.kind ≡ end_of_input) ⊎ (token_at bytes (skip_whitespace bytes c.position) ≡ some token)
unfolding next
next-token_at bytes c d token h =
    let start = skip_whitespace bytes c.position in
    elim (Option-cases (token_at bytes start)) [
      | inl e ↦ ground (arith, e)
      | inr (t, e) ↦ ground (arith, e)
    ]

pub next-Decodes :
    (bytes : List ℕ) (c d : Cursor) (token : RawToken)
    → next bytes c ≡ some (d, token)
    → Decodes bytes token token.kind
next-Decodes bytes c d token h n w k = elim (next-token_at bytes c d token h) [
  | inl e ↦ absurd (cc)
  | inr e ↦
      let (t, f, _, _) =
        decode_string-token_at bytes (skip_whitespace bytes c.position) token n w e k in
      (t, f)
]

module _ (bytes : List ℕ) (b : RawDocumentBudget) where
  -- The last token ends the loop.
  last-Returns :
      (s : ScanState) (token : RawToken) (kind : TokenKind)
      → (kind ≡ end_of_input) ⊎ (kind ≡ invalid)
      → Running b s
      → Returns
          (λ (r : Round). (last : ScanState) × (r ≡ breaks last) × Ended b last)
          (scan_round bytes b s token kind)
  unfolding scan_round
  last-Returns s token invalid h r = returns (_, refl, Running-Ended b s r)
  last-Returns s token end_of_input h r = returns (_, refl, Running-Ended b s r)
  last-Returns s token _ (inl e) r = absurd (cc)
  last-Returns s token _ (inr e) r = absurd (cc)

  -- What the loop does after a round.
  abbrev after : ℕ → Cursor → ℕ → RawToken → Round → Outcome (ScanState × ℕ)
  after fuel d observed token round = elim round [
    | breaks last ↦ done (last, observed)
    | goes_on further ↦ scan_loop fuel bytes b d further token.stop
  ]

  scan_loop-Returns :
      (fuel : ℕ) (c : Cursor) (s : ScanState) (observed : ℕ)
      → Inside bytes c
      → c.finished ≡ false
      → length bytes < c.position + fuel
      → Running b s
      → Returns (λ (r : ScanState × ℕ). Ended b r.0) (scan_loop fuel bytes b c s observed)
  unfolding scan_loop
  scan_loop-Returns zero c s observed i f enough r = absurd (omega arith)
  scan_loop-Returns (suc fuel) c s observed i f enough r =
      let (d, token, called, a) = next-Advances bytes c i f in
      let decodes = next-Decodes bytes c d token called in
      rw (called, scan_loop)
        (elim a.moves [
          | inl (more, moved, at) ↦
              Returns-bind (scan_round-Returns b bytes s token token.kind decodes r) (λ round p.
                elim round
                    as (λ x.
                      Rounded b x
                      → Returns (λ (r : ScanState × ℕ). Ended b r.0)
                          (after fuel d observed token x)) [
                            | goes_on further ↦ λ q.
                                scan_loop-Returns fuel d further token.stop a.inside more
                                  (omega (arith, a.ordered)) q
                            | breaks last ↦ λ q. returns q
                          ]
                  p)
          | inr (over, kind) ↦
              Returns-bind (last-Returns s token token.kind kind r)
                (λ round (last, e, p). rw e (returns p))
        ])

-- However the bytes are, the scan returns: no key fails to decode, no frame is missing, and the loop
-- ends. A counter whose limit stopped the scan stands one above the limit; the others keep theirs, and
-- all do if nothing stopped it; containers are entered to a depth of 32.
pub scan_raw_document_lem :
    (bytes : List ℕ) (b : RawDocumentBudget)
    → (r : RawDocumentScan) × (scan_raw_document bytes b ≡ done r)
      × WithinBudget b r.stopped_by r.value_occurrences r.string_bytes r.maximum_depth
unfolding scan_raw_document open_cursor initial_scan
scan_raw_document_lem bytes b =
    let start : Running b initial_scan = ground arith in
    Returns-done (
      Returns-bind
        (scan_loop-Returns bytes b (length bytes + 1) open_cursor initial_scan 0 (omega arith) refl
          (omega arith) start)
        (λ finished p. returns p))
