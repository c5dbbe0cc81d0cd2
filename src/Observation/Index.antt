-- ===== src/Observation/Index.antt =====
-- The buckets as an index of the registrations by their keys
-- (packages/observation/src/features/store/engine.ts: `attach`, `unlink`, `#touch`).
use get_modular.Base.{
  ℕ, ◌≤◌, ◌≡◌, refl, List, [], ◌∷◌, ◌++◌, none, some, Bool, true, false, not, ◌&&◌, ◌||◌, arith,
  number_key, text_key, eqb, eqb_iff, text_eqb, text_eqb_iff, Text, contains, add, lookup, insert,
  lookup-insert, inl, inr, Bool-cases, Option-cases, Key, ◌==◌, if◌then◌else◌, ap, ◌∙◌,
}
use get_modular.Observation.Engine.{
  Registration, StoreEngine, get_or, without, remove, add_to_buckets, shrink, remove_from_bucket,
  remove_from_buckets, deepen_all, deepen, mark_all,
}

-- Lists as sets, and maps after a deletion.
module _ {ℓ} {K : Type ℓ} ⦃q : Key K⦄ where
  contains-append : (xs : List K) (x k : K) → contains (xs ++ x ∷ []) k ≡ (contains xs k || x == k)
  contains-append [] x k = ground arith
  contains-append (y ∷ xs) x k = ground (arith, contains-append xs x k)

  pub contains-add : (x k : K) (xs : List K) → contains (add x xs) k ≡ (contains xs k || x == k)
  contains-add x k xs = elim (Bool-cases (contains xs x)) [
    | inl there ↦ rw there (ground (arith, q.same_iff x k, there))
    | inr absent ↦ rw absent (contains-append xs x k)
  ]

  pub contains-remove :
      (x k : K) (xs : List K) → contains (remove x xs) k ≡ (contains xs k && not (x == k))
  contains-remove x k [] = refl
  contains-remove x k (y ∷ xs) =
      ground (arith, contains-remove x k xs, q.same_iff y x, q.same_iff y k, q.same_iff x k)

  pub lookup-without {κ} :
      {A : Type κ} (x k : K) (entries : List (K × A))
      → lookup k (without x entries) ≡ (if x == k then none else lookup k entries)
  lookup-without x k [] = ground arith
  lookup-without x k ((y, a) ∷ entries) =
      ground (arith, lookup-without x k entries, q.same_iff y x, q.same_iff y k, q.same_iff x k)

-- Whether a bucket holds a registration, and whether a registration has the key.
abbrev pub in_bucket : List (Text × List ℕ) → Text → ℕ → Bool
in_bucket buckets key id = contains (get_or [] key buckets) id

abbrev pub follows : List (ℕ × Registration) → Text → ℕ → Bool
follows registrations key id = elim (lookup id registrations) [
  | none ↦ false
  | some r ↦ contains r.keys key
]

pub get_or-insert :
    {A : Type 0} (fallback : A) (x key : Text) (a : A) (entries : List (Text × A))
    → get_or fallback key (insert x a entries)
      ≡ (if text_eqb x key then a else get_or fallback key entries)
get_or-insert fallback x key a entries = ground (arith, lookup-insert x key a entries)

get_or-without :
    {A : Type 0} (fallback : A) (x key : Text) (entries : List (Text × A))
    → get_or fallback key (without x entries)
      ≡ (if text_eqb x key then fallback else get_or fallback key entries)
get_or-without fallback x key entries = ground (arith, lookup-without x key entries)

in_bucket-insert :
    (id : ℕ) (x : Text) (buckets : List (Text × List ℕ)) (key : Text) (k : ℕ)
    → in_bucket (insert x (add id (get_or [] x buckets)) buckets) key k
      ≡ (in_bucket buckets key k || (text_eqb x key && eqb id k))
in_bucket-insert id x buckets key k = elim (Bool-cases (text_eqb x key)) [
  | inl same ↦
      let e = (text_eqb_iff x key).0 same in
      rw (get_or-insert [] x key (add id (get_or [] x buckets)) buckets, same)
        (contains-add id k (get_or [] x buckets) ∙ rw e refl)
  | inr other ↦
      rw (get_or-insert [] x key (add id (get_or [] x buckets)) buckets, other) (ground arith)
]

pub in_bucket-add_to_buckets :
    (id : ℕ) (keys : List Text) (buckets : List (Text × List ℕ)) (key : Text) (k : ℕ)
    → in_bucket (add_to_buckets id keys buckets) key k
      ≡ (in_bucket buckets key k || (contains keys key && eqb id k))
unfolding add_to_buckets
in_bucket-add_to_buckets id [] buckets key k = ground arith
in_bucket-add_to_buckets id (x ∷ keys) buckets key k =
    in_bucket-add_to_buckets id keys (insert x (add id (get_or [] x buckets)) buckets) key k
    ∙ rw (in_bucket-insert id x buckets key k) (ground arith)

contains-if :
    (t : Bool) (xs ys : List ℕ) (k : ℕ)
    → contains (if t then xs else ys) k ≡ (if t then contains xs k else contains ys k)
contains-if true xs ys k = refl
contains-if false xs ys k = refl

shrink-in_bucket :
    (x : Text) (bucket : List ℕ) (buckets : List (Text × List ℕ)) (key : Text) (k : ℕ)
    → in_bucket (shrink x bucket buckets) key k
      ≡ (if text_eqb x key then contains bucket k else in_bucket buckets key k)
shrink-in_bucket x [] buckets key k =
    ap (λ (b : List ℕ). contains b k) (get_or-without [] x key buckets)
    ∙ contains-if (text_eqb x key) [] (get_or [] key buckets) k
shrink-in_bucket x (b ∷ bucket) buckets key k =
    ap (λ (c : List ℕ). contains c k) (get_or-insert [] x key (b ∷ bucket) buckets)
    ∙ contains-if (text_eqb x key) (b ∷ bucket) (get_or [] key buckets) k

in_bucket-remove :
    (id : ℕ) (x : Text) (buckets : List (Text × List ℕ)) (key : Text) (k : ℕ)
    → in_bucket (remove_from_bucket id x buckets) key k
      ≡ (in_bucket buckets key k && not (text_eqb x key && eqb id k))
unfolding remove_from_bucket
in_bucket-remove id x buckets key k = elim (Option-cases (lookup x buckets)) [
  | inl e ↦ rw (e, remove_from_bucket) (ground (arith, e, text_eqb_iff x key))
  | inr (bucket, e) ↦
      rw (e, remove_from_bucket)
        (shrink-in_bucket x (remove id bucket) buckets key k
          ∙ ground (arith, e, text_eqb_iff x key, contains-remove id k bucket))
]

pub in_bucket-remove_from_buckets :
    (id : ℕ) (keys : List Text) (buckets : List (Text × List ℕ)) (key : Text) (k : ℕ)
    → in_bucket (remove_from_buckets id keys buckets) key k
      ≡ (in_bucket buckets key k && not (contains keys key && eqb id k))
unfolding remove_from_buckets
in_bucket-remove_from_buckets id [] buckets key k = ground arith
in_bucket-remove_from_buckets id (x ∷ keys) buckets key k =
    in_bucket-remove_from_buckets id keys (remove_from_bucket id x buckets) key k
    ∙ rw (in_bucket-remove id x buckets key k) (ground arith)

-- Going through a bucket changes no keys, and marks exactly its registrations.
pub follows-deepen_all :
    (depth : ℕ) (ids : List ℕ) (registrations : List (ℕ × Registration)) (key : Text) (k : ℕ)
    → follows (deepen_all depth ids registrations) key k ≡ follows registrations key k
unfolding deepen_all
follows-deepen_all depth [] registrations key k = refl
follows-deepen_all depth (id ∷ ids) registrations key k =
    elim (Option-cases (lookup id registrations)) [
      | inl e ↦ rw (e, deepen_all) (follows-deepen_all depth ids registrations key k)
      | inr (r, e) ↦
          rw (e, deepen_all)
            (follows-deepen_all depth ids (insert id (deepen depth r) registrations) key k
              ∙ ground (arith, e, lookup-insert id k (deepen depth r) registrations, eqb_iff id k))
    ]

pub contains-mark_all :
    (ids dirty : List ℕ) (k : ℕ)
    → contains (mark_all ids dirty) k ≡ (contains dirty k || contains ids k)
unfolding mark_all
contains-mark_all [] dirty k = ground arith
contains-mark_all (id ∷ ids) dirty k =
    contains-mark_all ids (add id dirty) k ∙ rw (contains-add id k dirty) (ground arith)

-- A registration is attached when its id has one.
abbrev pub is_attached : List (ℕ × Registration) → ℕ → Bool
is_attached registrations id = elim (lookup id registrations) [ none ↦ false | some r ↦ true ]

pub is_attached-deepen_all :
    (depth : ℕ) (ids : List ℕ) (registrations : List (ℕ × Registration)) (k : ℕ)
    → is_attached (deepen_all depth ids registrations) k ≡ is_attached registrations k
unfolding deepen_all
is_attached-deepen_all depth [] registrations k = refl
is_attached-deepen_all depth (id ∷ ids) registrations k =
    elim (Option-cases (lookup id registrations)) [
      | inl e ↦ rw (e, deepen_all) (is_attached-deepen_all depth ids registrations k)
      | inr (r, e) ↦
          rw (e, deepen_all)
            (is_attached-deepen_all depth ids (insert id (deepen depth r) registrations) k
              ∙ ground (arith, e, lookup-insert id k (deepen depth r) registrations, eqb_iff id k))
    ]

-- The buckets hold exactly the registrations that follow their keys, only attached registrations are
-- dirty, and no key was touched later than the last commit.
pub record IsIndexed {V : Type 0} (e : StoreEngine V) : Type 0 where
  pub indexed : (key : Text) (id : ℕ) → in_bucket e.buckets key id ≡ follows e.registrations key id
  pub dirty_attached : (id : ℕ) → contains e.dirty id ≡ true → is_attached e.registrations id ≡ true
  pub touched : (key : Text) → get_or 0 key e.last_touched ≤ e.commits
