-- ===== src/Documents/Language.antt =====
-- The documents that the scan takes
-- (packages/core/src/features/input-admission/raw-document.ts: `scanRawDocument`).
use get_modular.Base.{
  ℕ, zero, suc, ◌+◌, ◌<◌, ◌≡◌, ◌↔◌, ◌≢◌, refl, List, [], ◌∷◌, Option, none, some, Bool, true, false,
  arith, number_key, length, inl, inr, sym, ◌∙◌, not, ◌||◌, ◌&&◌,
}
use get_modular.Base.Outcome.{
  Outcome, done, Returns, returns, Returns-bind, Returns-done, Returns-mono,
}
use get_modular.Scanner.Strings.{RawToken, TokenKind, invalid, end_of_input}
use get_modular.Scanner.Cursor.{Cursor, open_cursor, next}
use get_modular.Scanner.Progress.{Inside, next-Advances}
use get_modular.Documents.Types.{RawDocumentBudget, Stop, ScanState, RawDocumentScan, ScanFrame}
use get_modular.Documents.Scan.{
  Round, goes_on, breaks, scan_round, scan_loop, scan_raw_document, initial_scan, is_open, is_none,
}
use get_modular.Documents.Grammar.{IsDocument}
use get_modular.Documents.Accepts.{Accepts, Completes-empty}
use get_modular.Documents.Total.{next-Decodes}
use get_modular.Documents.Steps.{Taken, Never}
use get_modular.Documents.Rounds.{Follows, scan_round-Follows, invalid-Never}

-- What `cursor.next()` delivers, up to the end or through an invalid token.
pub data Delivers (bytes : List ℕ) : Cursor → List RawToken → Type 0 where
  at_end :
      {c d : Cursor} {t : RawToken}
      → next bytes c ≡ some (d, t)
      → t.kind ≡ end_of_input
      → Delivers bytes c []
  at_invalid :
      {c d : Cursor} {t : RawToken}
      → next bytes c ≡ some (d, t)
      → t.kind ≡ invalid
      → Delivers bytes c (t ∷ [])
  then :
      {c d : Cursor} {t : RawToken} {ts : List RawToken}
      → next bytes c ≡ some (d, t)
      → t.kind ≢ invalid
      → t.kind ≢ end_of_input
      → Delivers bytes d ts
      → Delivers bytes c (t ∷ ts)

data Ends (kind : TokenKind) : Type 0 where
  ended : kind ≡ end_of_input → Ends kind
  broken : kind ≡ invalid → Ends kind
  continues : kind ≢ invalid → kind ≢ end_of_input → Ends kind

Ends-cases : (kind : TokenKind) → Ends kind
Ends-cases invalid = broken refl
Ends-cases end_of_input = ended refl
Ends-cases _ = continues (λ z. cc) (λ z. cc)

module _ (bytes : List ℕ) where
  Delivers-exists :
      (fuel : ℕ) (c : Cursor)
      → Inside bytes c
      → c.finished ≡ false
      → length bytes < c.position + fuel
      → (ts : List RawToken) × Delivers bytes c ts
  Delivers-exists zero c i f enough = absurd (omega arith)
  Delivers-exists (suc fuel) c i f enough =
      let (d, t, called, a) = next-Advances bytes c i f in
      elim (Ends-cases t.kind) [
        | ended e ↦ ([], at_end called e)
        | broken e ↦ (t ∷ [], at_invalid called e)
        | continues no_invalid no_end ↦ elim a.moves [
          | inl (more, moved, at) ↦
              let (ts, rest) = Delivers-exists fuel d a.inside more (omega (arith, a.ordered)) in
              (t ∷ ts, then called no_invalid no_end rest)
          | inr (over, inl e) ↦ absurd (no_end e)
          | inr (over, inr e) ↦ absurd (no_invalid e)
        ]
      ]

  -- If no limit stopped it, the final state tells whether the tokens were accepted.
  abbrev Verdict : ScanState → List RawToken → ScanState × ℕ → Type 0
  Verdict s ts (r, _) =
      r.stopped_by ≡ none
      → ((r.invalid_json ≡ false) × (r.duplicate_key ≡ false))
        ↔ ((s.duplicate_key ≡ false) × Accepts bytes s ts)

  abbrev Decides : Cursor → ScanState → ScanState × ℕ → Type 0
  Decides c s r = (ts : List RawToken) × Delivers bytes c ts × Verdict s ts r

  Never-Verdict :
      (s r : ScanState) (t : RawToken) (ts : List RawToken) (n : ℕ)
      → (r.stopped_by ≡ none → (r.invalid_json ≡ true) × Never bytes s t)
      → Verdict s (t ∷ ts) (r, n)
  Never-Verdict s r t ts n h z =
      let (bad, never) = h z in (λ fine. absurd (cc (fine.0)), λ fine. absurd (never ts fine.1))

  Taken-Verdict :
      (s s' : ScanState) (t : RawToken) (ts : List RawToken) (r : ScanState × ℕ)
      → Taken bytes s t s'
      → Verdict s' ts r
      → Verdict s (t ∷ ts) r
  Taken-Verdict s s' t ts r (inl (d, step)) v z = (
    λ fine. (let (q, a) = (v z).0 fine in (sym d ∙ q, (step ts).0 a)),
    λ (q, a). (v z).1 (d ∙ q, (step ts).1 a),
  )
  Taken-Verdict s s' t ts r (inr (d, never)) v z =
      (λ fine. absurd (cc (((v z).0 fine).0)), λ fine. absurd (never ts fine.1))

  not_complete :
      (seen : Bool) (fs : List ScanFrame)
      → ((not seen || is_open fs) ≡ false) ↔ ((seen ≡ true) × (fs ≡ []))
  not_complete true [] = (λ _. (refl, refl), λ _. refl)
  not_complete true (f ∷ fs) = (λ h. cc, λ h. cc)
  not_complete false fs = (λ h. cc, λ h. cc)

  end-Verdict :
      (s : ScanState) (n : ℕ)
      → Verdict s [] (record s { invalid_json = not s.root_seen || is_open s.frames }, n)
  end-Verdict s n z =
      let complete = Completes-empty bytes s.frames s.root_seen in
      let tested = not_complete s.root_seen s.frames in
      (
        λ fine. (fine.1, complete.1 (tested.0 fine.0)),
        λ fine. (tested.1 (complete.0 fine.1), fine.0),
      )

  -- What the loop does after a round.
  abbrev after : RawDocumentBudget → ℕ → Cursor → ℕ → RawToken → Round → Outcome (ScanState × ℕ)
  after b fuel d observed t round = elim round [
    | breaks last ↦ done (last, observed)
    | goes_on further ↦ scan_loop fuel bytes b d further t.stop
  ]

  scan_loop-Decides :
      (b : RawDocumentBudget) (fuel : ℕ) (c : Cursor) (s : ScanState) (observed : ℕ)
      → Inside bytes c
      → c.finished ≡ false
      → length bytes < c.position + fuel
      → Returns (Decides c s) (scan_loop fuel bytes b c s observed)
  unfolding scan_loop scan_round
  scan_loop-Decides b zero c s observed i f enough = absurd (omega arith)
  scan_loop-Decides b (suc fuel) c s observed i f enough =
      let (d, t, called, a) = next-Advances bytes c i f in
      rw (called, scan_loop)
        (elim (Ends-cases t.kind) [
          | ended e ↦ rw (e, scan_round) (returns ([], at_end called e, end-Verdict s observed))
          | broken e ↦
              rw (e, scan_round)
                (returns (
                  t ∷ [],
                  at_invalid called e,
                  Never-Verdict s (record s { invalid_json = true }) t [] observed
                      (λ z. (refl, invalid-Never bytes b s t e)),
                ))
          | continues no_invalid no_end ↦ elim a.moves [
            | inl (more, moved, at) ↦
                let enough' : length bytes < d.position + fuel = omega (arith, a.ordered) in
                Returns-bind
                  (scan_round-Follows bytes b s t t.kind refl no_invalid no_end
                    (next-Decodes bytes c d t called))
                  (λ round p.
                    elim round
                        as (λ x.
                          Follows bytes s t x
                          → Returns (Decides c s) (after b fuel d observed t x)) [
                            | goes_on s' ↦ λ q.
                                Returns-mono
                                  (λ r (ts, delivered, v). (
                                    t ∷ ts,
                                    then called no_invalid no_end delivered,
                                    Taken-Verdict s s' t ts r q v,
                                  ))
                                  (scan_loop-Decides b fuel d s' t.stop a.inside more enough')
                            | breaks last ↦ λ q.
                                (let (ts, delivered) =
                                    Delivers-exists fuel d a.inside more enough' in
                                  returns (
                                    t ∷ ts,
                                    then called no_invalid no_end delivered,
                                    Never-Verdict s last t ts observed q,
                                  ))
                          ]
                      p)
            | inr (over, inl e) ↦ absurd (no_end e)
            | inr (over, inr e) ↦ absurd (no_invalid e)
          ]
        ])

decoded_iff :
    (bad twice : Bool) (stop : Option Stop)
    → stop ≡ none
    → ((not bad && not twice && is_none stop) ≡ true) ↔ ((bad ≡ false) × (twice ≡ false))
decoded_iff bad twice stop e = ground arith

-- The scan returns, and the cursor delivers a list of tokens. If no limit stopped the scan, the document
-- counts as decoded exactly when the tokens are one JSON value in whose objects no key, once its
-- escapes are decoded, occurs twice.
pub scan_raw_document-IsDocument :
    (bytes : List ℕ) (b : RawDocumentBudget)
    → (r : RawDocumentScan) × (scan_raw_document bytes b ≡ done r)
      × ((ts : List RawToken) × Delivers bytes open_cursor ts
          × (r.stopped_by ≡ none → (r.decoded ≡ true) ↔ IsDocument bytes ts))
unfolding scan_raw_document open_cursor initial_scan
scan_raw_document-IsDocument bytes b = Returns-done (
    Returns-bind
      (scan_loop-Decides bytes b (length bytes + 1) open_cursor initial_scan 0 (omega arith) refl
        (omega arith))
      (λ finished (ts, delivered, v). returns (
        ts,
        delivered,
        λ z.
            (let same =
                decoded_iff finished.0.invalid_json finished.0.duplicate_key finished.0.stopped_by
                  z in
              (λ h. ((v z).0 (same.0 h)).1, λ a. same.1 ((v z).1 (refl, a)))),
      )))
