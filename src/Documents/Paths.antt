-- ===== src/Documents/Paths.antt =====
-- `documentPath` of packages/core/src/features/input-admission/document-path.ts.
use get_modular.Base.{
  ℕ, zero, suc, ◌≤◌, ◌≡◌, ◌⊎◌, refl, List, [], ◌∷◌, ◌++◌, Bool, true, false, arith, number_key, ltb,
  if◌then◌else◌, length, Text, inl, inr, Bool-cases, ap,
}
use get_modular.Documents.Types.{Segment, member, position}

pub data DocumentLocator : Type 0 where
  declaration : ℕ → DocumentLocator
  profile : DocumentLocator

-- "declarations" and "profile".
abbrev pub declarations_name : Text
declarations_name = 100 ∷ 101 ∷ 99 ∷ 108 ∷ 97 ∷ 114 ∷ 97 ∷ 116 ∷ 105 ∷ 111 ∷ 110 ∷ 115 ∷ []

abbrev pub profile_name : Text
profile_name = 112 ∷ 114 ∷ 111 ∷ 102 ∷ 105 ∷ 108 ∷ 101 ∷ []

abbrev pub prefix : DocumentLocator → List Segment
prefix (declaration ordinal) = member declarations_name ∷ position ordinal ∷ []
prefix profile = member profile_name ∷ []

-- `typeof value === "number" && value > 65535`
abbrev pub is_large : Segment → Bool
is_large (member name) = false
is_large (position value) = ltb 65535 value

-- The loop over `length`; the first argument counts the rounds that are left below 32.
unfoldable pub path_length : ℕ → List Segment → ℕ
path_length zero segments = 0
path_length (suc left) [] = 0
path_length (suc left) (s ∷ rest) =
    let further = path_length left rest in if is_large s then 0 else suc further

-- `segments.slice(0, length)`
abbrev pub take : ℕ → List Segment → List Segment
take zero segments = []
take (suc n) [] = []
take (suc n) (s ∷ rest) = s ∷ take n rest

unfoldable pub document_path : DocumentLocator → List Segment → List Segment
unfolding path_length
document_path locator local =
    let segments = prefix locator ++ local in take (path_length 32 segments) segments

-- No segment is an index above 65535.
abbrev pub AllSmall : List Segment → Type 0
AllSmall [] = Unit
AllSmall (s ∷ rest) = (is_large s ≡ false) × AllSmall rest

-- Nothing was cut off, or the next segment is too large, or the path is full.
abbrev pub CutAt : ℕ → List Segment → List Segment → Type 0
CutAt limit path [] = Unit
CutAt limit path (s ∷ rest) = (is_large s ≡ true) ⊎ (length path ≡ limit)

path_length_lem :
    (left : ℕ) (segments : List Segment)
    → (path : List Segment) × (cut : List Segment) × (take (path_length left segments) segments
        ≡ path)
      × (segments ≡ path ++ cut)
      × (length path ≤ left)
      × AllSmall path
      × CutAt left path cut
unfolding path_length
path_length_lem zero [] = ([], [], refl, refl, omega arith, tt, tt)
path_length_lem zero (s ∷ rest) = ([], s ∷ rest, refl, refl, omega arith, tt, inr refl)
path_length_lem (suc left) [] = ([], [], refl, refl, omega arith, tt, tt)
path_length_lem (suc left) (s ∷ rest) =
    let (path, cut, taken, split, short, small, ended) = path_length_lem left rest in
    elim (Bool-cases (is_large s)) [
      | inl h ↦ ([], s ∷ rest, ground arith, refl, omega arith, tt, inl h)
      | inr h ↦ (
        s ∷ path,
        cut,
        rw (h, path_length) (ap (λ (x : List Segment). s ∷ x) taken),
        ap (λ (x : List Segment). s ∷ x) split,
        omega arith,
        (h, small),
        CutAt-suc left s path cut ended,
      )
    ]
  where
    CutAt-suc :
        (n : ℕ) (a : Segment) (path cut : List Segment)
        → CutAt n path cut
        → CutAt (suc n) (a ∷ path) cut
    CutAt-suc n a path [] h = tt
    CutAt-suc n a path (b ∷ cut) (inl h) = inl h
    CutAt-suc n a path (b ∷ cut) (inr h) = inr (omega arith)

-- A document path is the longest beginning of its segments with at most 32 of them and no index above
-- 65535; the root of the document counts.
pub document_path_lem :
    (locator : DocumentLocator) (local : List Segment)
    → (cut : List Segment) × (prefix locator ++ local ≡ document_path locator local ++ cut)
      × (length (document_path locator local) ≤ 32)
      × AllSmall (document_path locator local)
      × CutAt 32 (document_path locator local) cut
unfolding document_path
document_path_lem locator local =
    let (path, cut, taken, split, short, small, ended) =
      path_length_lem 32 (prefix locator ++ local) in
    (cut, rw taken split, rw taken short, rw taken small, rw taken ended)
