-- ===== src/Canonical/Picking.antt =====
-- The members of an object by ascending key, and their values.
use get_modular.Base.{
  ◌≡◌, inl, inr, refl, List, [], ◌∷◌, none, some, Bool, true, false, ◌&&◌, arith, text_key,
  text_eqb, text_eqb_iff, Text, Precedes, Precedes-text_lt, text_lt-asym, text_lt, sort,
  insert_sorted, lookup, keys, Bool-cases, ap, ◌∙◌, sym,
}
use get_modular.Canonical.Values.{JsValue}
use get_modular.Canonical.Represents.{Picks, here, there, IsBefore, before_none, before_all}

Precedes_distinct : {s t : Text} → Precedes s t → text_eqb t s ≡ false
Precedes_distinct {s} {t} p = elim (Bool-cases (text_eqb t s)) [
  | inr distinct ↦ distinct
  | inl same ↦
      let less : text_lt s s ≡ true =
        ap (text_lt s) (sym ((text_eqb_iff t s).0 same)) ∙ Precedes-text_lt p in
      absurd (cc (less, text_lt-asym s s less))
]

-- Sorted keys.
abbrev all_behind : Text → List Text → Bool
all_behind key [] = true
all_behind key (k ∷ ks) = text_lt key k && all_behind key ks

all_behind-insert_sorted :
    (key k : Text) (ks : List Text)
    → text_lt key k ≡ true
    → all_behind key ks ≡ true
    → all_behind key (insert_sorted text_lt k ks) ≡ true
unfolding insert_sorted
all_behind-insert_sorted key k [] l h = ground (arith, l)
all_behind-insert_sorted key k (y ∷ ys) l h =
    let later = all_behind-insert_sorted key k ys l in
    elim (Bool-cases (text_lt y k)) [
      | inl before ↦ rw before (ground (arith, h, later))
      | inr after ↦ rw after (ground (arith, h, l))
    ]

IsBefore-all_behind :
    (key : Text) (members : List (Text × JsValue))
    → IsBefore key members
    → all_behind key (sort text_lt (keys members)) ≡ true
unfolding sort
IsBefore-all_behind key [] before_none = refl
IsBefore-all_behind key ((k, v) ∷ members) (before_all p rest) =
    all_behind-insert_sorted key k (sort text_lt (keys members)) (Precedes-text_lt p)
      (IsBefore-all_behind key members rest)

insert_sorted-least :
    (key : Text) (ks : List Text)
    → all_behind key ks ≡ true
    → insert_sorted text_lt key ks ≡ key ∷ ks
unfolding insert_sorted
insert_sorted-least key [] h = refl
insert_sorted-least key (k ∷ ks) h =
    let later : text_lt k key ≡ false = text_lt-asym key k (ground (arith, h)) in rw later refl

pub Picks-sort :
    {key : Text} {value : JsValue} {members others : List (Text × JsValue)}
    → Picks key value members others
    → IsBefore key others
    → sort text_lt (keys members) ≡ key ∷ sort text_lt (keys others)
unfolding sort insert_sorted
Picks-sort {key} here b = insert_sorted-least key _ (IsBefore-all_behind key _ b)
Picks-sort {key} (there {k} {others} p) (before_all less b) =
    ap (insert_sorted text_lt k) (Picks-sort p b) ∙ passes
  where
    passes :
        insert_sorted text_lt k (key ∷ sort text_lt (keys others))
        ≡ key ∷ insert_sorted text_lt k (sort text_lt (keys others))
    passes = rw (Precedes-text_lt less) refl

-- Members by their keys.
IsBefore-lookup :
    (key : Text) (members : List (Text × JsValue))
    → IsBefore key members
    → lookup key members ≡ none
IsBefore-lookup key [] before_none = refl
IsBefore-lookup key ((k, v) ∷ members) (before_all p rest) =
    ground (arith, Precedes_distinct p, IsBefore-lookup key members rest)

pub Picks-lookup :
    {key : Text} {value : JsValue} {members others : List (Text × JsValue)}
    → Picks key value members others
    → IsBefore key others
    → lookup key members ≡ some value
Picks-lookup {key} here b = ground (arith, text_eqb_iff key key)
Picks-lookup (there p) (before_all less b) =
    ground (arith, Precedes_distinct less, Picks-lookup p b)

pub Picks-others :
    {key : Text} {value : JsValue} {members others : List (Text × JsValue)}
    → Picks key value members others
    → IsBefore key others
    → (k : Text) (v : JsValue) → lookup k others ≡ some v
    → lookup k members ≡ some v
Picks-others {key} {others} here b k v h = elim (Bool-cases (text_eqb key k)) [
  | inl same ↦
      let gone : lookup k others ≡ none =
        ap (λ x. lookup x others) (sym ((text_eqb_iff key k).0 same))
        ∙ IsBefore-lookup key others b in
      absurd (cc (gone, h))
  | inr other ↦ rw other h
]
Picks-others (there {k} p) (before_all less b) x v h =
    let later = Picks-others p b x v in
    elim (Bool-cases (text_eqb k x)) [
      | inl same ↦ ground (arith, same, h)
      | inr other ↦ ground (arith, other, h, later)
    ]
